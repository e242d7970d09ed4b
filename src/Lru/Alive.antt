-- ===== src/Lru/Alive.antt =====
-- The entries that have not expired, and a list of removals, for ClearExpired.
use mathlib.Core.Logic.{Lift}
use yuhaiin.Prelude.{
  ℕ, ◌≡◌, refl, true, false, some, List, [], ◌∷◌, arith, if◌then◌else◌, same, same→eq, same_refl,
  Bool-cases, inl, inr,
}
use yuhaiin.Lru.{LruEntry, Callback, on_remove, on_value_update, is_expired}
use yuhaiin.Lru.Recency.{find_key, erase_key, DistinctKeys, find_key-has_key}

module _ {ℓ} {K V : Type ℓ} where
  unfoldable pub alive : ℕ → List (LruEntry K V) → List (LruEntry K V)
  alive now [] = []
  alive now (e ∷ es) = let rest = alive now es in if is_expired now e then rest else e ∷ rest

module _ {ℓ} {K V : Type ℓ} (dec : Discrete K) where
  pub alive-erase_key :
      (now : ℕ) (k : K) (e : LruEntry K V) (es : List (LruEntry K V))
      → find_key dec k es ≡ some e
      → is_expired now e ≡ true
      → alive now (erase_key dec k es) ≡ alive now es
  unfolding find_key erase_key alive
  alive-erase_key now k e [] h old = refl
  alive-erase_key now k e (x ∷ xs) h old = elim (Bool-cases (same dec x.key k)) [
    | inl hit ↦ let is_it : x ≡ e = cc (rw hit at h) in rw (hit, is_it, old) refl
    | inr miss ↦ let rest = alive-erase_key now k e xs (rw miss at h) old in rw (miss, rest) refl
  ]

  pub find_key-erase_key :
      (j k : K) (e : LruEntry K V) (es : List (LruEntry K V))
      → DistinctKeys dec es
      → find_key dec j (erase_key dec k es) ≡ some e
      → find_key dec j es ≡ some e
  unfolding find_key erase_key
  find_key-erase_key j k e [] d h = h
  find_key-erase_key j k e (x ∷ xs) (new, d) h =
      ground (
        arith,
        find_key-erase_key j k e xs d,
        find_key-has_key dec x.key xs new,
        same→eq dec x.key j,
      )

  -- Entries none of which has expired are all alive.
  pub alive-all :
      (now : ℕ) (es : List (LruEntry K V))
      → DistinctKeys dec es
      → ((j : K) (e : LruEntry K V) → find_key dec j es ≡ some e → is_expired now e ≡ false)
      → alive now es ≡ es
  unfolding alive find_key
  alive-all now [] d h = refl
  alive-all now (x ∷ xs) (new, d) h =
      let apart : (j : K) (e : LruEntry K V)
          → find_key dec j xs ≡ some e
          → same dec x.key j ≡ false =
        (λ j e at_j. ground (arith, find_key-has_key dec x.key xs new, same→eq dec x.key j)) in
      let first : is_expired now x ≡ false = h x.key x (ground (arith, same_refl dec x.key)) in
      let rest : alive now xs ≡ xs =
        alive-all now xs d (λ j e at_j. h j e (rw (apart j e at_j) at_j)) in
      rw (first, rest) refl

  -- What a list of removals leaves, and that each is of an entry that is there.
  unfoldable pub removals : List (LruEntry K V) → List (Callback K V) → List (LruEntry K V)
  unfolding erase_key
  removals es [] = es
  removals es (on_remove k v ∷ cs) = removals (erase_key dec k es) cs
  removals es (on_value_update old new ∷ cs) = removals es cs

  abbrev pub AreRemovals : List (LruEntry K V) → List (Callback K V) → Type ℓ
  AreRemovals es [] = Unit
  AreRemovals es (on_remove k v ∷ cs) =
      ((e : LruEntry K V) × (find_key dec k es ≡ some e) × (e.value ≡ v))
      × AreRemovals (erase_key dec k es) cs
  AreRemovals es (on_value_update old new ∷ cs) = Lift {0, ℓ} ⊥
