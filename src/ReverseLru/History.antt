-- ===== src/ReverseLru/History.antt =====
-- Any sequence of calls on a new cache with a reverse map.
use yuhaiin.Prelude.{
  ℕ, ◌≡◌, ◌↔◌, refl, sym, ap, ◌∙◌, Bool, Option, none, some, List, [], ◌∷◌, Map, lookup, erase,
}
use yuhaiin.Lru.{LruEntry, Callback, on_remove, on_value_update, new_lru}
use yuhaiin.Lru.Recency.{find_key, erase_key, find_key-key}
use yuhaiin.Lru.Elements.{entries}
use yuhaiin.Lru.Valid.{new_lru-Valid}
use yuhaiin.Lru.Alive.{alive, removals, AreRemovals}
use yuhaiin.Lru.Sweep.{clear_expired-alive}
use yuhaiin.ReverseLru.{
  ReverseLru, new_reverse_lru, notify_one, notify, reverse_add, reverse_delete, reverse_load_key,
  reverse_load, reverse_load_refresh_expire, value_exist, reverse_clear_expired,
}
use yuhaiin.ReverseLru.Inverse.{key_of, Inverse, Inverse-new, Inverse-erase, key_of-found}
use yuhaiin.ReverseLru.Calls.{
  ValidReverse, Keeps, told_only-Keeps, reverse_delete-Keeps, reverse_load_key-Keeps,
}
use yuhaiin.ReverseLru.Adds.{key_of-find_key, reverse_add-Keeps}
use yuhaiin.ReverseLru.Lookups.{
  reverse_load-Keeps, reverse_load_refresh_expire-Keeps, value_exist-Keeps,
}

-- A call with the clock's reading at it.
pub data ReverseCall {ℓ} (K V : Type ℓ) : Type ℓ where
  call_add : ℕ → K → V → List ℕ → ReverseCall K V
  call_delete : K → ReverseCall K V
  call_load : ℕ → K → Bool → Bool → ReverseCall K V
  call_reverse_load : ℕ → V → ReverseCall K V
  call_reverse_load_refresh_expire : ℕ → V → ReverseCall K V
  call_value_exist : ℕ → V → ReverseCall K V
  call_clear_expired : ℕ → ReverseCall K V

module _ {ℓ} {K V : Type ℓ} (dec : Discrete K) (dec_value : Discrete V) where
  unfoldable pub forget_result :
      {R : Type ℓ} → Option (ReverseLru K V × R) → Option (ReverseLru K V)
  forget_result none = none
  forget_result (some (r, x)) = some r

  unfoldable pub reverse_step : ReverseLru K V → ReverseCall K V → Option (ReverseLru K V)
  unfolding forget_result
  reverse_step r (call_add now key value opts) =
      forget_result (reverse_add dec dec_value r now key value opts)
  reverse_step r (call_delete key) = forget_result (reverse_delete dec dec_value r key)
  reverse_step r (call_load now key refresh optimistic) =
      forget_result (reverse_load_key dec dec_value r now key refresh optimistic)
  reverse_step r (call_reverse_load now value) =
      forget_result (reverse_load dec dec_value r now value)
  reverse_step r (call_reverse_load_refresh_expire now value) =
      forget_result (reverse_load_refresh_expire dec dec_value r now value)
  reverse_step r (call_value_exist now value) =
      forget_result (value_exist dec dec_value r now value)
  reverse_step r (call_clear_expired now) =
      forget_result (reverse_clear_expired dec dec_value r now)

  unfoldable pub reverse_run : ReverseLru K V → List (ReverseCall K V) → Option (ReverseLru K V)
  unfolding reverse_step
  reverse_run r [] = some r
  reverse_run r (c ∷ cs) = elim (reverse_step r c) [ none ↦ none | some r' ↦ reverse_run r' cs ]

  cleared :
      (m : Map V K) (es : List (LruEntry K V)) (cs : List (Callback K V))
      → Inverse dec_value m es
      → AreRemovals dec es cs
      → Inverse dec_value ((notify dec_value m cs).0) (removals dec es cs)
  unfolding notify notify_one removals
  cleared m es [] h a = h
  cleared m es (on_remove k v ∷ cs) h ((e, found, is_value), a) =
      cleared (erase dec_value v m) (erase_key dec k es) cs
        (rw (sym is_value) (Inverse-erase dec dec_value m k e es h found)) a
  cleared m es (on_value_update old new ∷ cs) h a = elim (a.lower) [ ]

  pub reverse_clear_expired-Keeps :
      (r : ReverseLru K V) (now : ℕ)
      → ValidReverse dec dec_value r
      → Keeps dec dec_value r
          (reverse_clear_expired dec dec_value r now)
          (alive now (entries r.lru.list))
  unfolding reverse_clear_expired
  reverse_clear_expired-Keeps r now v =
      let c = clear_expired-alive dec r.lru now v.cache in
      told_only-Keeps dec dec_value r _ _ c.callbacks c.refines (
        rw (sym c.refines.is_entries, c.is_left)
          (cleared r.reverse_map (entries r.lru.list) c.callbacks v.inverse c.are_removals))

  -- The cache after a call or a run.
  record Reaches (o : Option (ReverseLru K V)) : Type ℓ where
    after : ReverseLru K V
    returns : o ≡ some after
    valid : ValidReverse dec dec_value after

  reaches :
      {R : Type ℓ} (r : ReverseLru K V) (o : Option (ReverseLru K V × R)) (es : List (LruEntry K V))
      → Keeps dec dec_value r o es
      → Reaches (forget_result o)
  unfolding forget_result
  reaches r o es k = record { after = k.after; returns = rw k.returns refl; valid = k.valid }

  step-Reaches :
      (r : ReverseLru K V) (c : ReverseCall K V)
      → ValidReverse dec dec_value r
      → Reaches (reverse_step r c)
  unfolding reverse_step
  step-Reaches r (call_add now key value opts) v =
      reaches r _ _ (reverse_add-Keeps dec dec_value r now key value opts v)
  step-Reaches r (call_delete key) v = reaches r _ _ (reverse_delete-Keeps dec dec_value r key v)
  step-Reaches r (call_load now key refresh optimistic) v =
      reaches r _ _ (reverse_load_key-Keeps dec dec_value r now key refresh optimistic v)
  step-Reaches r (call_reverse_load now value) v =
      reaches r _ _ (reverse_load-Keeps dec dec_value r now value v)
  step-Reaches r (call_reverse_load_refresh_expire now value) v =
      reaches r _ _ (reverse_load_refresh_expire-Keeps dec dec_value r now value v)
  step-Reaches r (call_value_exist now value) v =
      reaches r _ _ (value_exist-Keeps dec dec_value r now value v)
  step-Reaches r (call_clear_expired now) v = reaches r _ _ (reverse_clear_expired-Keeps r now v)

  run-Reaches :
      (r : ReverseLru K V) (cs : List (ReverseCall K V))
      → ValidReverse dec dec_value r
      → Reaches (reverse_run r cs)
  unfolding reverse_run
  run-Reaches r [] v = record { after = r; returns = refl; valid = v }
  run-Reaches r (c ∷ cs) v =
      let s = step-Reaches r c v in
      let t = run-Reaches s.after cs s.valid in
      rw (s.returns, reverse_run) (record { after = t.after; returns = t.returns; valid = t.valid })

  pub new_reverse_lru-ValidReverse :
      (capacity timeout : ℕ) → ValidReverse dec dec_value (new_reverse_lru capacity timeout)
  unfolding new_reverse_lru new_lru entries
  new_reverse_lru-ValidReverse capacity timeout = record {
    cache = new_lru-Valid dec capacity timeout;
    inverse = Inverse-new dec_value;
  }

  inverse_of :
      (r : ReverseLru K V)
      → ValidReverse dec dec_value r
      → (k : K) (v : V)
      → (lookup dec_value v r.reverse_map ≡ some k)
        ↔ ((e : LruEntry K V) × (find_key dec k (entries r.lru.list) ≡ some e) × (e.value ≡ v))
  inverse_of r valid k v = (
    λ held.
        key_of-find_key dec dec_value v k (entries r.lru.list) valid.cache.keys
          (sym (valid.inverse.agree v) ∙ held),
    λ (e, found, is_value).
        valid.inverse.agree v
        ∙ ap (λ w. key_of dec_value w (entries r.lru.list)) (sym is_value)
        ∙ key_of-found dec dec_value k e (entries r.lru.list) valid.inverse.distinct found
        ∙ ap some (find_key-key dec k e (entries r.lru.list) found),
  )

  -- Any sequence of calls on a new cache with a reverse map returns, and the reverse map is then the
  -- inverse of the cache: it leads a value to a key exactly if the cache's entry for the key has the value.
  -- Two keys therefore never share a value.
  pub reverse_run-inverse :
      (capacity timeout : ℕ) (cs : List (ReverseCall K V))
      → (r : ReverseLru K V) × (reverse_run (new_reverse_lru capacity timeout) cs ≡ some r)
        × ((k : K) (v : V)
            → (lookup dec_value v r.reverse_map ≡ some k) ↔ (
                (e : LruEntry K V) × (find_key dec k (entries r.lru.list) ≡ some e)
                × (e.value ≡ v)))
  reverse_run-inverse capacity timeout cs =
      let start = new_reverse_lru-ValidReverse capacity timeout in
      let t = run-Reaches (new_reverse_lru capacity timeout) cs start in
      (t.after, t.returns, λ k v. inverse_of t.after t.valid k v)
