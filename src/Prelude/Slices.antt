-- ===== src/Prelude/Slices.antt =====
-- What the source uses of Go's package slices, over elements with a decidable equality.
use mathlib.Core.Path.{◌≡◌, refl}
use mathlib.Core.Bool.{Bool, true, false, ◌||◌}
use mathlib.Core.List.{List, [], ◌∷◌, ◌++◌}
use mathlib.Core.Logic.{ite}
use native.Mathlib.Omega.{arith}

module _ {ℓ} {A : Type ℓ} (dec : Discrete A) where
  -- Equality as a Boolean test.
  unfoldable pub same : A → A → Bool
  same a b = ite (dec a b) true false

  -- slices.Contains
  unfoldable pub contains : List A → A → Bool
  contains [] x = false
  contains (y ∷ ys) x = same y x || contains ys x

  -- The first occurrence taken out, where there is one: slices.Index and the append around it.
  unfoldable pub remove_first : A → List A → List A
  remove_first x [] = []
  remove_first x (y ∷ ys) = elim (same y x) [ true ↦ ys | false ↦ y ∷ remove_first x ys ]

  -- The element appended if the slice does not hold it.
  unfoldable pub add_new : A → List A → List A
  add_new x xs = elim (contains xs x) [ true ↦ xs | false ↦ xs ++ x ∷ [] ]

  pub same_refl : (a : A) → same a a ≡ true
  unfolding same
  same_refl a = ground arith

  pub same→eq : (a b : A) → same a b ≡ true → a ≡ b
  unfolding same
  same→eq a b h = ground arith

  pub contains-append :
      (xs ys : List A) (x : A) → contains (xs ++ ys) x ≡ (contains xs x || contains ys x)
  unfolding contains
  contains-append [] ys x = refl
  contains-append (y ∷ xs) ys x = ground (arith, contains-append xs ys x)

  contains-single : (m x : A) → contains (m ∷ []) x ≡ same m x
  unfolding contains
  contains-single m x = ground arith

  pub contains-add_new :
      (m : A) (xs : List A) (x : A) → contains (add_new m xs) x ≡ (contains xs x || same m x)
  unfolding add_new
  contains-add_new m xs x =
      ground (arith, contains-append xs (m ∷ []) x, contains-single m x, same→eq m x)

  -- A single removal leaves the other elements.
  pub contains-remove_first_ne :
      (m x : A) (xs : List A) → same m x ≡ false → contains (remove_first m xs) x ≡ contains xs x
  unfolding contains remove_first
  contains-remove_first_ne m x [] h = refl
  contains-remove_first_ne m x (y ∷ xs) h =
      ground (arith, contains-remove_first_ne m x xs h, same→eq y m)
