-- ===== src/Route/Order.antt =====
-- Changing the priority of a rule: `InsertBefore`, `InsertAfter` (`rule.go`) and `ChangePriority`
-- (`nested.go`), on a list of any type. `none` is Go's panic on an index out of range.
pub mod Steps
pub mod Before
pub mod After
use text.Mathlib.Text.{◌==◌ as ◌≟◌}
use Prim.Native.String.{String}
use yuhaiin.Prelude.{
  ℕ, zero, suc, ◌+◌, Bool, true, false, ◌||◌, Option, none, some, List, [], ◌∷◌, ◌==◌,
  if◌then◌else◌, get_elem?, set,
}

module _ {ℓ} {A : Type ℓ} where
  -- The loop of `InsertBefore` from `index` on.
  pub before_from : A → ℕ → ℕ → ℕ → List A → List A
  before_from elem from to index [] = []
  before_from elem from to index (v ∷ vs) =
      let rest = before_from elem from to (index + 1) vs in
      if index == from then rest else if index == to then elem ∷ v ∷ rest else v ∷ rest

  pub insert_before : List A → ℕ → ℕ → Option (List A)
  unfolding before_from
  insert_before s from to = elim (get_elem? s from) [
    | none ↦ none
    | some elem ↦ some (before_from elem from to 0 s)
  ]

  pub after_from : A → ℕ → ℕ → ℕ → List A → List A
  after_from elem from to index [] = []
  after_from elem from to index (v ∷ vs) =
      let rest = after_from elem from to (index + 1) vs in
      if index == from then rest else if index == to then v ∷ elem ∷ rest else v ∷ rest

  pub insert_after : List A → ℕ → ℕ → Option (List A)
  unfolding after_from
  insert_after s from to = elim (get_elem? s from) [
    | none ↦ none
    | some elem ↦ some (after_from elem from to 0 s)
  ]

  pub exchange : List A → ℕ → ℕ → Option (List A)
  exchange s source target = elim (get_elem? s source) [
    | none ↦ none
    | some src ↦ elim (get_elem? s target) [
      | none ↦ none
      | some dst ↦ some (set (set s source dst) target src)
    ]
  ]

  -- Another operation does nothing.
  pub change_priority : List A → ℕ → ℕ → String → Option (List A)
  unfolding exchange insert_before insert_after
  change_priority s source target operate =
      if (operate ≟ "") || (operate ≟ "exchange")
      then exchange s source target
      else if operate ≟ "insert_before"
      then insert_before s source target
      else if operate ≟ "insert_after"
      then insert_after s source target
      else some s
