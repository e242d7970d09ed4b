-- ===== src/Route/Order/Steps.antt =====
-- Which elements the loops of `InsertBefore` and `InsertAfter` pass over.
use yuhaiin.Prelude.{
  ℕ, suc, ◌+◌, ◌≤◌, ◌<◌, ◌≡◌, refl, ◌⊎◌, inl, inr, true, false, some, List, [], ◌∷◌, ◌++◌, arith,
  ◌==◌, get_elem?, length,
}

-- `n` is none of the `k` numbers from `i` on.
abbrev pub Past : ℕ → ℕ → ℕ → Type 0
Past n i k = (n < i) ⊎ (i + k ≤ n)

pub other : (n i k : ℕ) → Past n i (suc k) → (i == n) ≡ false
other n i k p = ground arith

pub onward : (n i k : ℕ) → Past n i (suc k) → Past n (i + 1) k
onward n i k (inl below) = inl (omega arith)
onward n i k (inr above) = inr (omega arith)

pub self : (n : ℕ) → (n == n) ≡ true
self n = ground arith

pub same_index : (i n : ℕ) → i ≡ n → (i == n) ≡ true
same_index i n p = ground arith

pub apart : (i n : ℕ) → (i < n) ⊎ (n < i) → (i == n) ≡ false
apart i n p = ground arith

pub plus_one : (n : ℕ) → 0 + 1 + n ≡ suc n
plus_one n = omega arith

pub plus_suc : (m n : ℕ) → suc m + 1 + n ≡ suc (m + 1 + n)
plus_suc m n = omega arith

module _ {ℓ} {A : Type ℓ} where
  pub get_elem-past :
      (xs : List A) (e : A) (ys : List A) → get_elem? (xs ++ (e ∷ ys)) (length xs) ≡ some e
  get_elem-past [] e ys = refl
  get_elem-past (x ∷ xs) e ys = get_elem-past xs e ys

  pub get_elem-far :
      (xs : List A) (t : A) (ys : List A) (e : A) (zs : List A)
      → get_elem? (xs ++ (t ∷ (ys ++ (e ∷ zs)))) (length xs + 1 + length ys) ≡ some e
  get_elem-far [] t ys e zs = rw (plus_one (length ys)) (get_elem-past ys e zs)
  get_elem-far (x ∷ xs) t ys e zs =
      rw (plus_suc (length xs) (length ys)) (get_elem-far xs t ys e zs)
