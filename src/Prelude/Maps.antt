-- ===== src/Prelude/Maps.antt =====
-- Go's maps over keys with a decidable equality, as association lists whose order has no meaning.
use mathlib.Core.Path.{◌≡◌}
use mathlib.Core.List.{List, [], ◌∷◌}
use mathlib.Core.Option.{Option, none, some}
use native.Mathlib.Omega.{arith}
use yuhaiin.Prelude.Tests.{if◌then◌else◌, Bool-cases}
use yuhaiin.Prelude.Slices.{same, same→eq, same_refl}
use mathlib.Core.Logic.{inl, inr}

abbrev pub Map {ℓ κ} : Type ℓ → Type κ → Type (ℓ ⊔ κ)
Map K V = List (K × V)

module _ {ℓ κ} {K : Type ℓ} {V : Type κ} (dec : Discrete K) where
  -- `v, ok := m[k]`
  unfoldable pub lookup : K → Map K V → Option V
  lookup k [] = none
  lookup k ((j, v) ∷ m) = if same dec j k then some v else lookup k m

  -- `delete(m, k)`
  unfoldable pub erase : K → Map K V → Map K V
  erase k [] = []
  erase k ((j, v) ∷ m) = let rest = erase k m in if same dec j k then rest else (j, v) ∷ rest

  -- `m[k] = v`
  unfoldable pub assign : K → V → Map K V → Map K V
  unfolding erase
  assign k v m = (k, v) ∷ erase k m

  pub lookup-erase :
      (k j : K) (m : Map K V) → lookup j (erase k m) ≡ (if same dec k j then none else lookup j m)
  unfolding lookup erase
  lookup-erase k j [] = ground arith
  lookup-erase k j ((i, v) ∷ m) = ground (
    arith,
    lookup-erase k j m,
    same→eq dec i k,
    same→eq dec i j,
    same→eq dec k j,
    same_refl dec k,
  )

  pub lookup-assign :
      (k j : K) (v : V) (m : Map K V)
      → lookup j (assign k v m) ≡ (if same dec k j then some v else lookup j m)
  unfolding lookup assign
  lookup-assign k j v m = ground (arith, lookup-erase k j m)

  -- No key twice, as it is in Go's maps.
  abbrev pub IsMap : Map K V → Type κ
  IsMap [] = Unit
  IsMap ((k, v) ∷ m) = (lookup k m ≡ none) × IsMap m

  pub erase-IsMap : (k : K) (m : Map K V) → IsMap m → IsMap (erase k m)
  unfolding erase
  erase-IsMap k [] h = h
  erase-IsMap k ((j, v) ∷ m) (new, h) = elim (Bool-cases (same dec j k)) [
    | inl hit ↦ rw hit (erase-IsMap k m h)
    | inr miss ↦ rw miss ((ground (arith, lookup-erase k j m, new), erase-IsMap k m h))
  ]

  pub assign-IsMap : (k : K) (v : V) (m : Map K V) → IsMap m → IsMap (assign k v m)
  unfolding assign
  assign-IsMap k v m h = (ground (arith, lookup-erase k k m, same_refl dec k), erase-IsMap k m h)
