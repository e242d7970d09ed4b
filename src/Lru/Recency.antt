-- ===== src/Lru/Recency.antt =====
-- The reference for the cache: its entries alone, the most recently used first, one for each key.
use yuhaiin.Prelude.{
  ℕ, ◌+◌, ◌≡◌, refl, sym, Bool, true, false, not, ◌&&◌, ◌||◌, Option, none, some, List, [], ◌∷◌,
  arith, ◌==◌, if◌then◌else◌, ltb, length, same, same→eq, same_refl, ap, Bool-cases, inl, inr,
}
use yuhaiin.Lru.{LruEntry, Callback, on_remove, on_value_update, Loaded, is_expired}

module _ {ℓ} {K V : Type ℓ} (dec : Discrete K) where
  unfoldable pub find_key : K → List (LruEntry K V) → Option (LruEntry K V)
  find_key k [] = none
  find_key k (e ∷ es) = if same dec e.key k then some e else find_key k es

  unfoldable pub has_key : K → List (LruEntry K V) → Bool
  has_key k [] = false
  has_key k (e ∷ es) = same dec e.key k || has_key k es

  unfoldable pub erase_key : K → List (LruEntry K V) → List (LruEntry K V)
  erase_key k [] = []
  erase_key k (e ∷ es) = let rest = erase_key k es in if same dec e.key k then es else e ∷ rest

  abbrev pub DistinctKeys : List (LruEntry K V) → Type 0
  DistinctKeys [] = Unit
  DistinctKeys (e ∷ es) = (has_key e.key es ≡ false) × DistinctKeys es

module _ {ℓ} {A : Type ℓ} where
  unfoldable pub last : List A → Option A
  last [] = none
  last (x ∷ []) = some x
  last (x ∷ y ∷ ys) = last (y ∷ ys)

  unfoldable pub drop_last : List A → List A
  drop_last [] = []
  drop_last (x ∷ []) = []
  drop_last (x ∷ y ∷ ys) = x ∷ drop_last (y ∷ ys)

module _ {ℓ} {K V : Type ℓ} where
  -- What is over the capacity goes, the least recently used first; 0 is no limit.
  unfoldable pub trim : ℕ → List (LruEntry K V) → List (LruEntry K V) × List (Callback K V)
  unfolding last drop_last
  trim capacity es =
      if not (capacity == 0) && ltb capacity (length es)
      then elim (last es) [
        | none ↦ (es, [])
        | some o ↦ (drop_last es, on_remove o.key o.value ∷ [])
      ]
      else (es, [])

-- A load's new expiry leaves the key and the value.
module _ {ℓ} {K V : Type ℓ} where
  pub kept_key :
      (c : Bool) (t : ℕ) (e : LruEntry K V) → (if c then record e { expire = t } else e).key ≡ e.key
  kept_key true t e = refl
  kept_key false t e = refl

  pub kept_value :
      (c : Bool) (t : ℕ) (e : LruEntry K V)
      → (if c then record e { expire = t } else e).value ≡ e.value
  kept_value true t e = refl
  kept_value false t e = refl

module _ {ℓ} {K V : Type ℓ} (dec : Discrete K) where
  -- An entry comes first, in place of the one for its key.
  unfoldable pub put :
      ℕ → LruEntry K V → List (LruEntry K V) → List (LruEntry K V) × List (Callback K V)
  unfolding find_key erase_key trim
  put capacity e es = elim (find_key dec e.key es) [
    | none ↦ trim capacity (e ∷ es)
    | some o ↦ (e ∷ erase_key dec e.key es, on_value_update o.value e.value ∷ [])
  ]

  pub has_key-erase_key :
      (k j : K) (es : List (LruEntry K V))
      → has_key dec j es ≡ false
      → has_key dec j (erase_key dec k es) ≡ false
  unfolding has_key erase_key
  has_key-erase_key k j [] h = refl
  has_key-erase_key k j (e ∷ es) h = ground (arith, has_key-erase_key k j es)

  pub erase_key-DistinctKeys :
      (k : K) (es : List (LruEntry K V))
      → DistinctKeys dec es
      → DistinctKeys dec (erase_key dec k es)
  unfolding erase_key
  erase_key-DistinctKeys k [] d = tt
  erase_key-DistinctKeys k (e ∷ es) (h, d) = elim (Bool-cases (same dec e.key k)) [
    | inl hit ↦ rw hit d
    | inr miss ↦ rw miss ((has_key-erase_key k e.key es h, erase_key-DistinctKeys k es d))
  ]

  -- The erased key is gone.
  pub has_key-erase_key_self :
      (k : K) (es : List (LruEntry K V))
      → DistinctKeys dec es
      → has_key dec k (erase_key dec k es) ≡ false
  unfolding has_key erase_key
  has_key-erase_key_self k [] d = refl
  has_key-erase_key_self k (e ∷ es) (h, d) =
      ground (arith, has_key-erase_key_self k es d, same→eq dec e.key k)

  pub has_key-find_key :
      (k : K) (es : List (LruEntry K V)) → find_key dec k es ≡ none → has_key dec k es ≡ false
  unfolding has_key find_key
  has_key-find_key k [] h = refl
  has_key-find_key k (e ∷ es) h = ground (arith, has_key-find_key k es)

  pub find_key-key :
      (k : K) (e : LruEntry K V) (es : List (LruEntry K V)) → find_key dec k es ≡ some e → e.key ≡ k
  unfolding find_key
  find_key-key k e [] h = cc
  find_key-key k e (x ∷ xs) h = elim (Bool-cases (same dec x.key k)) [
    | inl hit ↦ let is_it : x ≡ e = cc (rw hit at h) in rw (sym is_it) (same→eq dec x.key k hit)
    | inr miss ↦ find_key-key k e xs (rw miss at h)
  ]

  pub find_key-has_key :
      (k : K) (es : List (LruEntry K V)) → has_key dec k es ≡ false → find_key dec k es ≡ none
  unfolding has_key find_key
  find_key-has_key k [] h = refl
  find_key-has_key k (e ∷ es) h = ground (arith, find_key-has_key k es)

  pub erase_key-missing :
      (k : K) (es : List (LruEntry K V)) → find_key dec k es ≡ none → erase_key dec k es ≡ es
  unfolding find_key erase_key
  erase_key-missing k [] h = refl
  erase_key-missing k (e ∷ es) h = ground (arith, erase_key-missing k es)

  -- A load: the entry comes first, with a new expiry if that is asked for; one that expired goes, unless
  -- the caller takes those too.
  unfoldable pub touch :
      ℕ
      → ℕ
      → K
      → Bool
      → Bool
      → List (LruEntry K V)
      → List (LruEntry K V) × (List (Callback K V) × Loaded V)
  unfolding find_key erase_key is_expired
  touch timeout now k refresh optimistic es = elim (find_key dec k es) [
    | none ↦ (es, ([], record { found = none; expired = false }))
    | some e ↦
        let entry =
          if refresh && not (timeout == 0) then record e { expire = now + timeout } else e in
        if is_expired now e && not optimistic
        then (
          erase_key dec k es,
          (on_remove e.key e.value ∷ [], record { found = none; expired = true }),
        )
        else (
          entry ∷ erase_key dec k es,
          ([], record { found = some e.value; expired = is_expired now e }),
        )
  ]

  -- The last entry is the one found by its key, and erasing its key drops it.
  pub last-found :
      (o : LruEntry K V) (es : List (LruEntry K V))
      → DistinctKeys dec es
      → last es ≡ some o
      → (find_key dec o.key es ≡ some o) × (erase_key dec o.key es ≡ drop_last es)
  unfolding last drop_last find_key erase_key
  last-found o [] d h = cc
  last-found o (x ∷ []) d h = let is_it : x ≡ o = cc in rw (is_it, same_refl dec o.key) (refl, refl)
  last-found o (x ∷ y ∷ ys) (new, d) h =
      let r = last-found o (y ∷ ys) d h in
      let other : same dec x.key o.key ≡ false =
        ground (arith, same→eq dec x.key o.key, find_key-has_key x.key (y ∷ ys) new, r.0) in
      rw other (r.0, ap (λ es. x ∷ es) r.1)
