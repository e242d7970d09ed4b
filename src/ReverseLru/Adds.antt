-- ===== src/ReverseLru/Adds.antt =====
-- Add of the cache with its reverse map, and the lookups from a value.
use yuhaiin.Prelude.{
  ℕ, ◌≡◌, refl, sym, ap, ◌∙◌, false, Option, none, some, List, [], ◌∷◌, ◌++◌, arith, same, same→eq,
  same_refl, Bool-cases, Option-cases, inl, inr, assign,
}
use yuhaiin.Lru.{LruEntry, Lru, Callback, new_entry, add}
use yuhaiin.Lru.Recency.{find_key, erase_key, DistinctKeys, put, find_key-has_key}
use yuhaiin.Lru.Elements.{entries}
use yuhaiin.Lru.Calls.{add_entry-put}
use yuhaiin.ReverseLru.{ReverseLru, notify, told_only, add_value, reverse_add}
use yuhaiin.ReverseLru.Inverse.{key_of, key_of-erase_key_self}
use yuhaiin.ReverseLru.Calls.{ValidReverse, Keeps, putting, reverse_delete-Keeps}

module _ {ℓ} {K V : Type ℓ} (dec : Discrete K) (dec_value : Discrete V) where
  -- The entry that a value's key leads to has the value.
  pub key_of-find_key :
      (v : V) (k : K) (es : List (LruEntry K V))
      → DistinctKeys dec es
      → key_of dec_value v es ≡ some k
      → (e : LruEntry K V) × (find_key dec k es ≡ some e) × (e.value ≡ v)
  unfolding key_of find_key
  key_of-find_key v k [] d h = cc
  key_of-find_key v k (x ∷ xs) (new, d) h = elim (Bool-cases (same dec_value x.value v)) [
    | inl hit ↦
        let is_key : x.key ≡ k = cc (rw hit at h) in
        (x, rw (is_key, same_refl dec k) refl, same→eq dec_value x.value v hit)
    | inr miss ↦
        let (e, found, is_value) = key_of-find_key v k xs d (rw miss at h) in
        let other : same dec x.key k ≡ false =
          ground (arith, same→eq dec x.key k, find_key-has_key dec x.key xs new, found) in
        (e, rw other found, is_value)
  ]

  -- The entries without the one that has the value.
  unfoldable pub freed : V → List (LruEntry K V) → List (LruEntry K V)
  unfolding key_of erase_key
  freed v es = elim (key_of dec_value v es) [ none ↦ es | some k ↦ erase_key dec k es ]

  finished :
      ReverseLru K V
      → K
      → V
      → Option (Lru K V × List (Callback K V))
      → Option (ReverseLru K V × List (Callback K V))
  unfolding told_only
  finished r k value o = elim (told_only dec dec_value r.reverse_map o) [
    | none ↦ none
    | some (r', es) ↦ some (record r' { reverse_map = assign dec_value value k r'.reverse_map }, es)
  ]

  add_value-Keeps :
      (r : ReverseLru K V) (now : ℕ) (k : K) (value : V) (opts : List ℕ)
      → ValidReverse dec dec_value r
      → key_of dec_value value (entries r.lru.list) ≡ none
      → Keeps dec dec_value r
          (add_value dec dec_value r now k value opts)
          ((put dec r.lru.capacity (new_entry r.lru now k value opts) (entries r.lru.list)).0)
  unfolding add_value add told_only new_entry finished
  add_value-Keeps r now k value opts v new =
      let e = new_entry r.lru now k value opts in
      let s = add_entry-put dec r.lru e v.cache in
      let p = put dec r.lru.capacity e (entries r.lru.list) in
      let inverse =
        putting dec dec_value r.reverse_map r.lru.capacity e (entries r.lru.list) v.inverse
          v.cache.keys new in
      record {
        after = record {
          lru = s.after;
          reverse_map = assign dec_value value k ((notify dec_value r.reverse_map p.1).0);
        };
        result = (notify dec_value r.reverse_map p.1).1;
        returns = ap (finished r k value) s.returns;
        valid = record { cache = s.valid; inverse = rw s.is_entries inverse };
        is_entries = s.is_entries;
        is_capacity = s.is_capacity;
        is_timeout = s.is_timeout;
      }

  -- Add puts the entry first in place of the one for its key, after the entry that had its value is gone.
  pub reverse_add-Keeps :
      (r : ReverseLru K V) (now : ℕ) (k : K) (value : V) (opts : List ℕ)
      → ValidReverse dec dec_value r
      → Keeps dec dec_value r (reverse_add dec dec_value r now k value opts) (
          (put dec r.lru.capacity
            (new_entry r.lru now k value opts)
            (freed value (entries r.lru.list))).0)
  unfolding reverse_add freed new_entry
  reverse_add-Keeps r now k value opts v =
      elim (Option-cases (key_of dec_value value (entries r.lru.list))) [
        | inl free ↦
            rw (v.inverse.agree value, free, reverse_add, freed)
              (add_value-Keeps r now k value opts v free)
        | inr (j, held) ↦
            let (e, found, is_value) =
              key_of-find_key value j (entries r.lru.list) v.cache.keys held in
            let d = reverse_delete-Keeps dec dec_value r j v in
            let new : key_of dec_value value (entries d.after.lru.list) ≡ none =
              rw (d.is_entries, sym is_value)
                (key_of-erase_key_self dec dec_value j e (entries r.lru.list) v.inverse.distinct
                  found) in
            let a = add_value-Keeps d.after now k value opts d.valid new in
            rw (v.inverse.agree value, held, reverse_add, freed, d.returns, a.returns)
              (record {
                after = a.after;
                result = d.result ++ a.result;
                returns = refl;
                valid = a.valid;
                is_entries =
                    a.is_entries ∙ rw (new_entry, d.is_capacity, d.is_timeout, d.is_entries) refl;
                is_capacity = a.is_capacity ∙ d.is_capacity;
                is_timeout = a.is_timeout ∙ d.is_timeout;
              })
      ]
