-- ===== src/Prelude/Runs.antt =====
-- Laws of `take`, `drop` and `set` on lists measured by native numbers.
use Prim.Native.Nat.{ℕ, zero, suc, ◌+◌, ◌≤◌, ◌<◌}
use mathlib.Core.Path.{◌≡◌, refl, ap}
use mathlib.Core.List.{List, [], ◌∷◌, ◌++◌}
use native.Mathlib.Omega.{arith}
use yuhaiin.Prelude.Lists.{length, set, take, drop}

module _ {ℓ} {A : Type ℓ} where
  pub take_of_length-le : (n : ℕ) (xs : List A) → length xs ≤ n → take n xs ≡ xs
  take_of_length-le zero [] le = refl
  take_of_length-le (suc n) [] le = refl
  take_of_length-le zero (y ∷ ys) le = absurd (omega arith)
  take_of_length-le (suc n) (y ∷ ys) le = rw (take_of_length-le n ys (omega arith)) refl

  pub drop_of_length-le : (n : ℕ) (xs : List A) → length xs ≤ n → drop n xs ≡ []
  drop_of_length-le zero [] h = refl
  drop_of_length-le zero (x ∷ xs) h = absurd (omega arith)
  drop_of_length-le (suc n) [] h = refl
  drop_of_length-le (suc n) (x ∷ xs) h = drop_of_length-le n xs (omega arith)

  pub take_append : (xs ys : List A) → take (length xs) (xs ++ ys) ≡ xs
  take_append [] ys = refl
  take_append (x ∷ xs) ys = ap (◌∷◌ x) (take_append xs ys)

  pub drop_append : (xs ys : List A) → drop (length xs) (xs ++ ys) ≡ ys
  drop_append [] ys = refl
  drop_append (x ∷ xs) ys = drop_append xs ys

  pub take_append_of_le : (n : ℕ) (xs ys : List A) → n ≤ length xs → take n (xs ++ ys) ≡ take n xs
  take_append_of_le zero xs ys h = refl
  take_append_of_le (suc n) [] ys h = absurd (omega arith)
  take_append_of_le (suc n) (x ∷ xs) ys h = ap (◌∷◌ x) (take_append_of_le n xs ys (omega arith))

  pub drop_append_of_le :
      (n : ℕ) (xs ys : List A) → n ≤ length xs → drop n (xs ++ ys) ≡ drop n xs ++ ys
  drop_append_of_le zero xs ys h = refl
  drop_append_of_le (suc n) [] ys h = absurd (omega arith)
  drop_append_of_le (suc n) (x ∷ xs) ys h = drop_append_of_le n xs ys (omega arith)

  -- Setting one place and reading up to it is reading what stood before it and then the value.
  pub take-set :
      (xs : List A) (n : ℕ) (v : A)
      → n < length xs
      → take (suc n) (set xs n v) ≡ take n xs ++ v ∷ []
  take-set [] n v h = absurd (omega arith)
  take-set (x ∷ xs) zero v h = refl
  take-set (x ∷ xs) (suc n) v h = ap (◌∷◌ x) (take-set xs n v (omega arith))

  pub set-append_left :
      (xs ys : List A) (n : ℕ) (v : A) → n < length xs → set (xs ++ ys) n v ≡ set xs n v ++ ys
  set-append_left [] ys n v h = absurd (omega arith)
  set-append_left (x ∷ xs) ys zero v h = refl
  set-append_left (x ∷ xs) ys (suc n) v h = ap (◌∷◌ x) (set-append_left xs ys n v (omega arith))

  drop-nil : (n : ℕ) → drop {A = A} n [] ≡ []
  drop-nil zero = refl
  drop-nil (suc n) = refl

  pub drop-drop : (m n : ℕ) (xs : List A) {k : ℕ} → k ≡ n + m → drop m (drop n xs) ≡ drop k xs
  drop-drop m zero xs {k = k} e = let e' : k ≡ m = omega arith in rw e'
  drop-drop m (suc n) [] {k = k} e = rw (drop-nil m, drop-nil k)
  drop-drop m (suc n) (x ∷ xs) {k = zero} e = absurd (omega arith)
  drop-drop m (suc n) (x ∷ xs) {k = suc k} e = drop-drop m n xs (omega arith)

  pub drop-append_past :
      (xs ys : List A) (k n : ℕ) → n ≡ length xs + k → drop n (xs ++ ys) ≡ drop k ys
  drop-append_past [] ys k n e = let e' : n ≡ k = omega arith in rw e'
  drop-append_past (x ∷ xs) ys k zero e = absurd (omega arith)
  drop-append_past (x ∷ xs) ys k (suc n) e = drop-append_past xs ys k n (omega arith)

  pub take-take_of_le : (m n : ℕ) (xs : List A) → m ≤ n → take m (take n xs) ≡ take m xs
  take-take_of_le zero n xs h = refl
  take-take_of_le (suc m) zero xs h = absurd (omega arith)
  take-take_of_le (suc m) (suc n) [] h = refl
  take-take_of_le (suc m) (suc n) (x ∷ xs) h = ap (◌∷◌ x) (take-take_of_le m n xs (omega arith))
