-- ===== src/ReverseLru/Calls.antt =====
-- The calls of the cache with its reverse map: the map stays the inverse of the entries.
use yuhaiin.Prelude.{
  ℕ, ◌+◌, ◌≡◌, refl, sym, ◌∙◌, Bool, false, not, ◌&&◌, Option, none, some, List, [], ◌∷◌, arith,
  ◌==◌, ltb, length, same, same→eq, Bool-cases, Option-cases, inl, inr, Map, lookup, assign,
  lookup-assign,
}
use yuhaiin.Lru.{LruEntry, Lru, Callback, on_remove, Loaded, is_expired}
use yuhaiin.Lru.Recency.{
  kept_key, kept_value, find_key, erase_key, DistinctKeys, last, drop_last, trim, put, touch,
  erase_key-missing, last-found,
}
use yuhaiin.Lru.Elements.{entries}
use yuhaiin.Lru.Valid.{Valid}
use yuhaiin.Lru.Refines.{Refines}
use yuhaiin.Lru.Calls.{load-touch, delete-erase_key}
use yuhaiin.ReverseLru.{
  ReverseLru, notify_one, notify, told, told_only, reverse_delete, reverse_load_key,
}
use yuhaiin.ReverseLru.Inverse.{
  key_of, Inverse, Inverse-set, Inverse-assign, Inverse-erase, Inverse-front, key_of-erase_key-none,
  find_key-key_of, key_of-found,
}

module _ {ℓ} {K V : Type ℓ} (dec : Discrete K) (dec_value : Discrete V) where
  -- A valid cache whose reverse map is the inverse of its entries.
  pub record ValidReverse (r : ReverseLru K V) : Type ℓ where
    pub cache : Valid dec r.lru
    pub inverse : Inverse dec_value r.reverse_map (entries r.lru.list)

  -- A call's result: it returns, and the entries after it are `es`.
  pub record Keeps (r : ReverseLru K V) {R : Type ℓ} (o : Option (ReverseLru K V × R))
      (es : List (LruEntry K V)) : Type ℓ where
    pub after : ReverseLru K V
    pub result : R
    pub returns : o ≡ some (after, result)
    pub valid : ValidReverse after
    pub is_entries : entries after.lru.list ≡ es
    pub is_capacity : after.lru.capacity ≡ r.lru.capacity
    pub is_timeout : after.lru.timeout ≡ r.lru.timeout

  pub told_only-Keeps :
      (r : ReverseLru K V) (o : Option (Lru K V × List (Callback K V))) (es : List (LruEntry K V))
      (cs : List (Callback K V))
      → Refines dec r.lru o es cs
      → Inverse dec_value ((notify dec_value r.reverse_map cs).0) es
      → Keeps r (told_only dec dec_value r.reverse_map o) es
  unfolding told_only
  told_only-Keeps r o es cs s inverse = record {
    after = record { lru = s.after; reverse_map = (notify dec_value r.reverse_map cs).0 };
    result = (notify dec_value r.reverse_map cs).1;
    returns = rw s.returns refl;
    valid = record { cache = s.valid; inverse = rw s.is_entries inverse };
    is_entries = s.is_entries;
    is_capacity = s.is_capacity;
    is_timeout = s.is_timeout;
  }

  told-Keeps :
      (r : ReverseLru K V) (o : Option (Lru K V × (List (Callback K V) × Loaded V)))
      (es : List (LruEntry K V)) (x : List (Callback K V) × Loaded V)
      → Refines dec r.lru o es x
      → Inverse dec_value ((notify dec_value r.reverse_map x.0).0) es
      → Keeps r (told dec dec_value r.reverse_map o) es
  unfolding told
  told-Keeps r o es x s inverse = record {
    after = record { lru = s.after; reverse_map = (notify dec_value r.reverse_map x.0).0 };
    result = ((notify dec_value r.reverse_map x.0).1, x.1);
    returns = rw s.returns refl;
    valid = record { cache = s.valid; inverse = rw s.is_entries inverse };
    is_entries = s.is_entries;
    is_capacity = s.is_capacity;
    is_timeout = s.is_timeout;
  }

  erased :
      (m : Map V K) (k : K) (es : List (LruEntry K V))
      → Inverse dec_value m es
      → Inverse dec_value
          ((notify dec_value m
            (elim (find_key dec k es) [ none ↦ [] | some e ↦ on_remove e.key e.value ∷ [] ])).0)
          (erase_key dec k es)
  unfolding notify notify_one
  erased m k es h = elim (Option-cases (find_key dec k es)) [
    | inl missing ↦ rw (missing, erase_key-missing dec k es missing) h
    | inr (e, found) ↦ rw found (Inverse-erase dec dec_value m k e es h found)
  ]

  touched :
      (m : Map V K) (timeout now : ℕ) (k : K) (refresh optimistic : Bool) (es : List (LruEntry K V))
      → Inverse dec_value m es
      → Inverse dec_value
          ((notify dec_value m ((touch dec timeout now k refresh optimistic es).1.0)).0)
          ((touch dec timeout now k refresh optimistic es).0)
  unfolding touch notify notify_one
  touched m timeout now k refresh optimistic es h = elim (Option-cases (find_key dec k es)) [
    | inl missing ↦ rw (missing, touch) h
    | inr (e, found) ↦ elim (Bool-cases (is_expired now e && not optimistic)) [
      | inl old ↦ rw (found, touch, old) (Inverse-erase dec dec_value m k e es h found)
      | inr live ↦
          rw (found, touch, live)
            (Inverse-front dec dec_value m k e _ es h found
              (kept_key (refresh && not (timeout == 0)) (now + timeout) e)
              (kept_value (refresh && not (timeout == 0)) (now + timeout) e))
    ]
  ]

  trimmed :
      (m : Map V K) (capacity : ℕ) (e : LruEntry K V) (es : List (LruEntry K V))
      → Inverse dec_value m es
      → DistinctKeys dec es
      → key_of dec_value e.value es ≡ none
      → Inverse dec_value
          (assign dec_value e.value e.key ((notify dec_value m ((trim capacity (e ∷ es)).1)).0))
          ((trim capacity (e ∷ es)).0)
  unfolding trim notify notify_one last drop_last
  trimmed m capacity e [] h d new = elim (Bool-cases (not (capacity == 0) && ltb capacity 1)) [
    | inl over ↦ ground arith
    | inr within ↦ rw within (Inverse-assign dec_value m e [] h new)
  ]
  trimmed m capacity e (x ∷ xs) h d new =
      elim (Bool-cases (not (capacity == 0) && ltb capacity (length (e ∷ x ∷ xs)))) [
        | inr within ↦ rw within (Inverse-assign dec_value m e (x ∷ xs) h new)
        | inl over ↦ elim (Option-cases (last (x ∷ xs))) [
          | inl none_last ↦ rw (over, none_last) (Inverse-assign dec_value m e (x ∷ xs) h new)
          | inr (o, is_last) ↦
              let r = last-found dec o (x ∷ xs) d is_last in
              rw (over, is_last, sym (r.1))
                (Inverse-assign dec_value _ e _
                  (Inverse-erase dec dec_value m o.key o (x ∷ xs) h (r.0))
                  (key_of-erase_key-none dec dec_value o.key e.value (x ∷ xs) new))
        ]
      ]

  -- An entry with a value that no entry has is put, and the value is assigned its key.
  pub putting :
      (m : Map V K) (capacity : ℕ) (e : LruEntry K V) (es : List (LruEntry K V))
      → Inverse dec_value m es
      → DistinctKeys dec es
      → key_of dec_value e.value es ≡ none
      → Inverse dec_value
          (assign dec_value e.value e.key ((notify dec_value m ((put dec capacity e es).1)).0))
          ((put dec capacity e es).0)
  unfolding put notify notify_one
  putting m capacity e es h d new = elim (Option-cases (find_key dec e.key es)) [
    | inl missing ↦ rw (missing, put) (trimmed m capacity e es h d new)
    | inr (o, found) ↦
        let other : same dec_value o.value e.value ≡ false = ground (
          arith,
          same→eq dec_value o.value e.value,
          find_key-key_of dec dec_value e.key o es found,
          new,
        ) in
        let held : lookup dec_value o.value m ≡ some o.key =
          h.agree o.value ∙ key_of-found dec dec_value e.key o es h.distinct found in
        let less = Inverse-erase dec dec_value m e.key o es h found in
        rw (found, put, notify, other, held)
          (Inverse-set dec_value _ e _
            (λ w apart. lookup-assign dec_value e.value w o.key _ ∙ rw apart (less.agree w))
            less.distinct (key_of-erase_key-none dec dec_value e.key e.value es new))
  ]

  pub reverse_delete-Keeps :
      (r : ReverseLru K V) (k : K)
      → ValidReverse r
      → Keeps r (reverse_delete dec dec_value r k) (erase_key dec k (entries r.lru.list))
  unfolding reverse_delete
  reverse_delete-Keeps r k v =
      told_only-Keeps r _ _ _ (delete-erase_key dec r.lru k v.cache)
        (erased r.reverse_map k (entries r.lru.list) v.inverse)

  pub reverse_load_key-Keeps :
      (r : ReverseLru K V) (now : ℕ) (k : K) (refresh optimistic : Bool)
      → ValidReverse r
      → Keeps r
          (reverse_load_key dec dec_value r now k refresh optimistic)
          ((touch dec r.lru.timeout now k refresh optimistic (entries r.lru.list)).0)
  unfolding reverse_load_key
  reverse_load_key-Keeps r now k refresh optimistic v =
      told-Keeps r _ _ _ (load-touch dec r.lru now k refresh optimistic v.cache) (
        touched r.reverse_map r.lru.timeout now k refresh optimistic (entries r.lru.list) v.inverse)
