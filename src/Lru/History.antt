-- ===== src/Lru/History.antt =====
-- Any sequence of calls on a new cache, against the same calls on the reference.
use yuhaiin.Prelude.{
  ℕ, ◌+◌, ◌≡◌, refl, ◌∙◌, Bool, not, ◌&&◌, Option, none, some, List, [], ◌∷◌, ◌==◌, if◌then◌else◌,
}
use yuhaiin.Lru.{LruEntry, Lru, new_lru, with_timeouts, new_entry, add, load, delete, clear_expired}
use yuhaiin.Lru.Recency.{erase_key, put, touch}
use yuhaiin.Lru.Elements.{entries}
use yuhaiin.Lru.Valid.{Valid, new_lru-Valid}
use yuhaiin.Lru.Refines.{Refines}
use yuhaiin.Lru.Calls.{add_entry-put, load-touch, delete-erase_key}
use yuhaiin.Lru.Alive.{alive}
use yuhaiin.Lru.Sweep.{clear_expired-alive}

-- A call with the clock's reading at it.
pub data Call {ℓ} (K V : Type ℓ) : Type ℓ where
  call_add : ℕ → K → V → List ℕ → Call K V
  call_load : ℕ → K → Bool → Bool → Call K V
  call_delete : K → Call K V
  call_clear_expired : ℕ → Call K V

module _ {ℓ} {K V : Type ℓ} (dec : Discrete K) where
  unfoldable pub forget : {R : Type ℓ} → Option (Lru K V × R) → Option (Lru K V)
  forget none = none
  forget (some (l, r)) = some l

  unfoldable pub step : Lru K V → Call K V → Option (Lru K V)
  unfolding forget add load delete clear_expired
  step l (call_add now key value opts) = forget (add dec l now key value opts)
  step l (call_load now key refresh optimistic) = forget (load dec l now key refresh optimistic)
  step l (call_delete key) = forget (delete dec l key)
  step l (call_clear_expired now) = forget (clear_expired dec l now)

  unfoldable pub run : Lru K V → List (Call K V) → Option (Lru K V)
  unfolding step
  run l [] = some l
  run l (c ∷ cs) = elim (step l c) [ none ↦ none | some l' ↦ run l' cs ]

  -- The entry of an Add: the last option's expiry, or the cache's own.
  unfoldable pub entry_for : ℕ → ℕ → K → V → List ℕ → LruEntry K V
  unfolding with_timeouts
  entry_for timeout now key value opts =
      let expire = with_timeouts now opts 0 in
      record {
        key = key;
        value = value;
        expire = if not (timeout == 0) && expire == 0 then now + timeout else expire;
      }

  unfoldable pub step_ref : ℕ → ℕ → List (LruEntry K V) → Call K V → List (LruEntry K V)
  unfolding put touch erase_key alive entry_for
  step_ref capacity timeout es (call_add now key value opts) =
      (put dec capacity (entry_for timeout now key value opts) es).0
  step_ref capacity timeout es (call_load now key refresh optimistic) =
      (touch dec timeout now key refresh optimistic es).0
  step_ref capacity timeout es (call_delete key) = erase_key dec key es
  step_ref capacity timeout es (call_clear_expired now) = alive now es

  unfoldable pub run_ref : ℕ → ℕ → List (LruEntry K V) → List (Call K V) → List (LruEntry K V)
  unfolding step_ref
  run_ref capacity timeout es [] = es
  run_ref capacity timeout es (c ∷ cs) =
      run_ref capacity timeout (step_ref capacity timeout es c) cs

  -- The cache after a call or a run from `l`.
  pub record Ran (l : Lru K V) (r : Option (Lru K V)) (es : List (LruEntry K V)) : Type ℓ where
    pub after : Lru K V
    pub returns : r ≡ some after
    pub valid : Valid dec after
    pub is_entries : entries after.list ≡ es
    pub is_capacity : after.capacity ≡ l.capacity
    pub is_timeout : after.timeout ≡ l.timeout

  ran :
      {R : Type ℓ} (l : Lru K V) (o : Option (Lru K V × R)) (es : List (LruEntry K V)) (x : R)
      → Refines dec l o es x
      → Ran l (forget o) es
  unfolding forget
  ran l o es x r = record {
    after = r.after;
    returns = rw r.returns refl;
    valid = r.valid;
    is_entries = r.is_entries;
    is_capacity = r.is_capacity;
    is_timeout = r.is_timeout;
  }

  step-Ran :
      (l : Lru K V) (c : Call K V)
      → Valid dec l
      → Ran l (step l c) (step_ref l.capacity l.timeout (entries l.list) c)
  unfolding step step_ref add new_entry entry_for
  step-Ran l (call_add now key value opts) v =
      ran l _ _ _ (add_entry-put dec l (new_entry l now key value opts) v)
  step-Ran l (call_load now key refresh optimistic) v =
      ran l _ _ _ (load-touch dec l now key refresh optimistic v)
  step-Ran l (call_delete key) v = ran l _ _ _ (delete-erase_key dec l key v)
  step-Ran l (call_clear_expired now) v = ran l _ _ _ ((clear_expired-alive dec l now v).refines)

  run-Ran :
      (l : Lru K V) (cs : List (Call K V))
      → Valid dec l
      → Ran l (run l cs) (run_ref l.capacity l.timeout (entries l.list) cs)
  unfolding run run_ref
  run-Ran l [] v = record {
    after = l;
    returns = refl;
    valid = v;
    is_entries = refl;
    is_capacity = refl;
    is_timeout = refl;
  }
  run-Ran l (c ∷ cs) v =
      let s = step-Ran l c v in
      let r = run-Ran s.after cs s.valid in
      rw (s.returns, run)
        (record {
          after = r.after;
          returns = r.returns;
          valid = r.valid;
          is_entries = r.is_entries ∙ rw (s.is_capacity, s.is_timeout, s.is_entries) refl;
          is_capacity = r.is_capacity ∙ s.is_capacity;
          is_timeout = r.is_timeout ∙ s.is_timeout;
        })

  -- Any sequence of calls on a new cache, with whatever clock readings, returns: no call meets a nil
  -- pointer or an element that is gone. The entries are then those of the reference after the same calls.
  pub run-run_ref :
      (capacity timeout : ℕ) (cs : List (Call K V))
      → (l : Lru K V) × (run (new_lru capacity timeout) cs ≡ some l)
        × (entries l.list ≡ run_ref capacity timeout [] cs)
  unfolding new_lru entries
  run-run_ref capacity timeout cs =
      let r = run-Ran (new_lru capacity timeout) cs (new_lru-Valid dec capacity timeout) in
      (r.after, r.returns, r.is_entries)

  -- A cache reached from a new one by any calls is valid: its mapping leads each key to the element that
  -- holds it and nowhere else, and no two elements have a key or a number in common.
  pub run-Valid :
      (capacity timeout : ℕ) (cs : List (Call K V)) (l : Lru K V)
      → run (new_lru capacity timeout) cs ≡ some l
      → Valid dec l
  run-Valid capacity timeout cs l h =
      let r = run-Ran (new_lru capacity timeout) cs (new_lru-Valid dec capacity timeout) in
      let same_one : r.after ≡ l = cc (r.returns, h) in rw same_one at r.valid
