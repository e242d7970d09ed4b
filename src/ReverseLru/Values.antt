-- ===== src/ReverseLru/Values.antt =====
-- A test that every value of a cache with a reverse map passes, through its calls.
use yuhaiin.Prelude.{
  ℕ, ◌≡◌, Bool, true, false, Option, none, some, List, Option-cases, inl, inr, Map, lookup,
}
use yuhaiin.Lru.{LruEntry, Lru, Callback, Loaded, new_lru, new_entry, add}
use yuhaiin.Lru.Elements.{entries}
use yuhaiin.Lru.Values.{
  AllValues, PopPasses, erase_key-AllValues, put-AllValues, touch-AllValues, add_entry-pop,
  delete-pop, load-pop,
}
use yuhaiin.ReverseLru.{
  ReverseLru, new_reverse_lru, told, told_only, reverse_delete, add_value, reverse_add,
  reverse_load_key, reverse_load, value_exist,
}
use yuhaiin.ReverseLru.Inverse.{key_of}
use yuhaiin.ReverseLru.Calls.{ValidReverse, reverse_delete-Keeps, reverse_load_key-Keeps}
use yuhaiin.ReverseLru.Adds.{freed, reverse_add-Keeps}

module _ {ℓ} {K V : Type ℓ} (dec : Discrete K) (dec_value : Discrete V) (test : V → Bool) where
  -- Every value passes, and the value of the entry that was evicted or removed last.
  pub record Passes (r : ReverseLru K V) : Type ℓ where
    pub all : AllValues test (entries r.lru.list)
    pub pop : PopPasses test r.lru.last_pop_entry

  pub new-Passes : (capacity : ℕ) → Passes (new_reverse_lru capacity 0)
  unfolding new_reverse_lru new_lru entries
  new-Passes capacity = record { all = tt; pop = tt }

  told_only-lru :
      (m : Map V K) (o : Option (Lru K V × List (Callback K V))) (r : ReverseLru K V)
      (es : List (Callback K V))
      → told_only dec dec_value m o ≡ some (r, es)
      → (cs : List (Callback K V)) × (o ≡ some (r.lru, cs))
  unfolding told_only
  told_only-lru m none r es h = absurd (cc h)
  told_only-lru m (some (l, cs)) r es h = (cs, cc)

  told-lru :
      (m : Map V K) (o : Option (Lru K V × (List (Callback K V) × Loaded V))) (r : ReverseLru K V)
      (x : List (Callback K V) × Loaded V)
      → told dec dec_value m o ≡ some (r, x)
      → (y : List (Callback K V) × Loaded V) × (o ≡ some (r.lru, y))
  unfolding told
  told-lru m none r x h = absurd (cc h)
  told-lru m (some (l, (cs, y))) r x h = ((cs, y), cc)

  reverse_delete-Passes :
      (r r' : ReverseLru K V) (k : K) (es : List (Callback K V))
      → ValidReverse dec dec_value r
      → Passes r
      → reverse_delete dec dec_value r k ≡ some (r', es)
      → Passes r'
  unfolding reverse_delete
  reverse_delete-Passes r r' k es v p h =
      let d = reverse_delete-Keeps dec dec_value r k v in
      let is_r : d.after ≡ r' = cc (d.returns, h) in
      let (cs, h') = told_only-lru _ _ r' es h in
      record {
        all = rw (← is_r, d.is_entries) (erase_key-AllValues dec test k (entries r.lru.list) p.all);
        pop = delete-pop dec test r.lru r'.lru v.cache p.all p.pop k cs h';
      }

  reverse_load_key-pop :
      (r r' : ReverseLru K V) (now : ℕ) (k : K) (refresh optimistic : Bool)
      (x : List (Callback K V) × Loaded V)
      → ValidReverse dec dec_value r
      → Passes r
      → reverse_load_key dec dec_value r now k refresh optimistic ≡ some (r', x)
      → PopPasses test r'.lru.last_pop_entry
  unfolding reverse_load_key
  reverse_load_key-pop r r' now k refresh optimistic x v p h =
      let (y, h') = told-lru _ _ r' x h in
      load-pop dec test r.lru r'.lru v.cache p.all p.pop now k refresh optimistic y h'

  pub reverse_load_key-Passes :
      (r r' : ReverseLru K V) (now : ℕ) (k : K) (refresh optimistic : Bool)
      (x : List (Callback K V) × Loaded V)
      → ValidReverse dec dec_value r
      → Passes r
      → reverse_load_key dec dec_value r now k refresh optimistic ≡ some (r', x)
      → Passes r'
  reverse_load_key-Passes r r' now k refresh optimistic x v p h =
      let d = reverse_load_key-Keeps dec dec_value r now k refresh optimistic v in
      let is_r : d.after ≡ r' = cc (d.returns, h) in
      record {
        all =
            rw (← is_r, d.is_entries)
              (touch-AllValues dec test r.lru.timeout now k refresh optimistic (entries r.lru.list)
                p.all);
        pop = reverse_load_key-pop r r' now k refresh optimistic x v p h;
      }

  set_lru :
      (s r : ReverseLru K V) (m : Map V K) (xs es : List (Callback K V))
      → ◌≡◌ {A = Option (ReverseLru K V × List (Callback K V))}
          (some (record s { reverse_map = m }, xs))
          (some (r, es))
      → s.lru ≡ r.lru
  set_lru s r m xs es h = cc

  same_cache :
      {R : Type ℓ} (s r : ReverseLru K V) (x y : R)
      → ◌≡◌ {A = Option (ReverseLru K V × R)} (some (s, x)) (some (r, y))
      → s ≡ r
  same_cache s r x y h = cc

  add_value-pop :
      (r r' : ReverseLru K V) (now : ℕ) (k : K) (value : V) (opts : List ℕ)
      (es : List (Callback K V))
      → ValidReverse dec dec_value r
      → Passes r
      → test value ≡ true
      → add_value dec dec_value r now k value opts ≡ some (r', es)
      → PopPasses test r'.lru.last_pop_entry
  unfolding add_value add new_entry
  add_value-pop r r' now k value opts es v p passes h =
      elim (Option-cases (told_only dec dec_value r.reverse_map (add dec r.lru now k value opts))) [
        | inl stuck ↦ absurd (cc (rw (add_value, stuck) at h))
        | inr ((s, xs), made) ↦
            let (cs, h') = told_only-lru _ _ s xs made in
            let is_lru = set_lru s r' _ xs es (rw (add_value, made) at h) in
            rw (← is_lru) (
              add_entry-pop dec test r.lru s.lru v.cache p.all p.pop
                (new_entry r.lru now k value opts) cs passes h')
      ]

  freed-AllValues :
      (value : V) (es : List (LruEntry K V))
      → AllValues test es
      → AllValues test (freed dec dec_value value es)
  unfolding freed
  freed-AllValues value es a = elim (Option-cases (key_of dec_value value es)) [
    | inl free ↦ rw (free, freed) a
    | inr (k, held) ↦ rw (held, freed) (erase_key-AllValues dec test k es a)
  ]

  reverse_add-pop :
      (r r' : ReverseLru K V) (now : ℕ) (k : K) (value : V) (opts : List ℕ)
      (es : List (Callback K V))
      → ValidReverse dec dec_value r
      → Passes r
      → test value ≡ true
      → reverse_add dec dec_value r now k value opts ≡ some (r', es)
      → PopPasses test r'.lru.last_pop_entry
  unfolding reverse_add
  reverse_add-pop r r' now k value opts es v p passes h =
      elim (Option-cases (lookup dec_value value r.reverse_map)) [
        | inl free ↦ add_value-pop r r' now k value opts es v p passes (rw (reverse_add, free) at h)
        | inr (j, held) ↦
            let d = reverse_delete-Keeps dec dec_value r j v in
            elim (Option-cases (add_value dec dec_value d.after now k value opts)) [
              | inl stuck ↦ absurd (cc (rw (reverse_add, held, d.returns, stuck) at h))
              | inr ((s, xs), made) ↦
                  let is_r = same_cache s r' _ _ (rw (reverse_add, held, d.returns, made) at h) in
                  rw (← is_r) (
                    add_value-pop d.after s now k value opts xs d.valid
                      (reverse_delete-Passes r d.after j d.result v p d.returns) passes made)
            ]
      ]

  pub reverse_add-Passes :
      (r r' : ReverseLru K V) (now : ℕ) (k : K) (value : V) (opts : List ℕ)
      (es : List (Callback K V))
      → ValidReverse dec dec_value r
      → Passes r
      → test value ≡ true
      → reverse_add dec dec_value r now k value opts ≡ some (r', es)
      → Passes r'
  unfolding new_entry
  reverse_add-Passes r r' now k value opts es v p passes h =
      let d = reverse_add-Keeps dec dec_value r now k value opts v in
      let is_r : d.after ≡ r' = cc (d.returns, h) in
      record {
        all =
            rw (← is_r, d.is_entries)
              (put-AllValues dec test r.lru.capacity (new_entry r.lru now k value opts)
                (freed dec dec_value value (entries r.lru.list))
                (freed-AllValues value (entries r.lru.list) p.all) passes);
        pop = reverse_add-pop r r' now k value opts es v p passes h;
      }

  pub reverse_load-Passes :
      (r r' : ReverseLru K V) (now : ℕ) (value : V) (x : List (Callback K V) × Option K)
      → ValidReverse dec dec_value r
      → Passes r
      → reverse_load dec dec_value r now value ≡ some (r', x)
      → Passes r'
  unfolding reverse_load
  reverse_load-Passes r r' now value x v p h =
      elim (Option-cases (lookup dec_value value r.reverse_map)) [
        | inl free ↦ let is_r = same_cache r r' _ x (rw (reverse_load, free) at h) in rw (← is_r) p
        | inr (k, held) ↦
            let d = reverse_load_key-Keeps dec dec_value r now k false false v in
            let is_r = same_cache d.after r' _ x (rw (reverse_load, held, d.returns) at h) in
            rw (← is_r) (reverse_load_key-Passes r d.after now k false false d.result v p d.returns)
      ]

  pub value_exist-Passes :
      (r r' : ReverseLru K V) (now : ℕ) (value : V) (x : List (Callback K V) × Bool)
      → ValidReverse dec dec_value r
      → Passes r
      → value_exist dec dec_value r now value ≡ some (r', x)
      → Passes r'
  unfolding value_exist
  value_exist-Passes r r' now value x v p h =
      elim (Option-cases (lookup dec_value value r.reverse_map)) [
        | inl free ↦ let is_r = same_cache r r' _ x (rw (value_exist, free) at h) in rw (← is_r) p
        | inr (k, held) ↦
            let d = reverse_load_key-Keeps dec dec_value r now k false false v in
            let is_r = same_cache d.after r' _ x (rw (value_exist, held, d.returns) at h) in
            rw (← is_r) (reverse_load_key-Passes r d.after now k false false d.result v p d.returns)
      ]
