-- ===== src/Lru/Bounds.antt =====
-- How many entries the cache holds, and for how long it keeps one.
use yuhaiin.Prelude.{
  ℕ, suc, ◌≤◌, ◌≡◌, ◌≢◌, refl, sym, ap, ◌∙◌, Bool, true, false, not, ◌&&◌, none, some, List, [],
  ◌∷◌, arith, length, same_refl, Option-cases, inl, inr, ◌⊎◌,
}
use yuhaiin.Lru.{LruEntry, Lru, Callback, new_lru, is_expired, new_entry, add, load}
use yuhaiin.Lru.Recency.{find_key, erase_key, last, drop_last, trim, put, touch}
use yuhaiin.Lru.Elements.{entries, length-entries}
use yuhaiin.Lru.Valid.{Valid}
use yuhaiin.Lru.Calls.{add_entry-put, load-touch}
use yuhaiin.Lru.Alive.{alive}
use yuhaiin.Lru.History.{
  Call, call_add, call_load, call_delete, call_clear_expired, run, step_ref, run_ref, run-run_ref,
  entry_for,
}

module _ {ℓ} {A : Type ℓ} where
  length-drop_last : (x : A) (xs : List A) → length (drop_last (x ∷ xs)) ≡ length xs
  unfolding drop_last
  length-drop_last x [] = refl
  length-drop_last x (y ∷ ys) = omega (arith, length-drop_last y ys)

  length-drop_last-some :
      (x : A) (xs : List A) → last xs ≡ some x → suc (length (drop_last xs)) ≡ length xs
  unfolding last
  length-drop_last-some x [] h = cc
  length-drop_last-some x (y ∷ ys) h = omega (arith, length-drop_last y ys)

  length-last-none : (xs : List A) → last xs ≡ none → length xs ≡ 0
  unfolding last
  length-last-none [] h = refl
  length-last-none (x ∷ []) h = cc
  length-last-none (x ∷ y ∷ ys) h = cc (length-last-none (y ∷ ys) h)

module _ {ℓ} {K V : Type ℓ} where
  length-alive : (now : ℕ) (es : List (LruEntry K V)) → length (alive now es) ≤ length es
  unfolding alive
  length-alive now [] = omega arith
  length-alive now (e ∷ es) = ground (arith, length-alive now es)

  length-trim :
      (capacity : ℕ) (es : List (LruEntry K V))
      → capacity ≢ 0
      → length es ≤ suc capacity
      → length ((trim capacity es).0) ≤ capacity
  unfolding trim
  length-trim capacity es positive h = elim (Option-cases (last es)) [
    | inl empty ↦ ground (arith, length-last-none es empty)
    | inr (x, h') ↦ ground (arith, length-drop_last-some x es h')
  ]

module _ {ℓ} {K V : Type ℓ} (dec : Discrete K) where
  length-erase_key : (k : K) (es : List (LruEntry K V)) → length (erase_key dec k es) ≤ length es
  unfolding erase_key
  length-erase_key k [] = omega arith
  length-erase_key k (e ∷ es) = ground (arith, length-erase_key k es)

  length-erase_key_found :
      (k : K) (e : LruEntry K V) (es : List (LruEntry K V))
      → find_key dec k es ≡ some e
      → suc (length (erase_key dec k es)) ≡ length es
  unfolding erase_key find_key
  length-erase_key_found k e [] h = cc
  length-erase_key_found k e (x ∷ xs) h = ground (arith, length-erase_key_found k e xs)

  length-put :
      (capacity : ℕ) (e : LruEntry K V) (es : List (LruEntry K V))
      → capacity ≢ 0
      → length es ≤ capacity
      → length ((put dec capacity e es).0) ≤ capacity
  unfolding put
  length-put capacity e es positive h = elim (Option-cases (find_key dec e.key es)) [
    | inl empty ↦ rw (empty, put) (length-trim capacity (e ∷ es) positive (omega arith))
    | inr (x, h') ↦ rw (h', put) (omega (arith, length-erase_key_found e.key x es h'))
  ]

  length-touch :
      (timeout now : ℕ) (k : K) (refresh optimistic : Bool) (es : List (LruEntry K V))
      → length ((touch dec timeout now k refresh optimistic es).0) ≤ length es
  unfolding touch
  length-touch timeout now k refresh optimistic es = elim (Option-cases (find_key dec k es)) [
    | inl empty ↦ rw (empty, touch) (omega arith)
    | inr (x, h) ↦ ground (arith, length-erase_key_found k x es h)
  ]

  length-step_ref :
      (capacity timeout : ℕ) (es : List (LruEntry K V)) (c : Call K V)
      → capacity ≢ 0
      → length es ≤ capacity
      → length (step_ref dec capacity timeout es c) ≤ capacity
  unfolding step_ref
  length-step_ref capacity timeout es (call_add now key value opts) positive h =
      length-put capacity (entry_for dec timeout now key value opts) es positive h
  length-step_ref capacity timeout es (call_load now key refresh optimistic) positive h =
      omega (arith, length-touch timeout now key refresh optimistic es)
  length-step_ref capacity timeout es (call_delete key) positive h =
      omega (arith, length-erase_key key es)
  length-step_ref capacity timeout es (call_clear_expired now) positive h =
      omega (arith, length-alive now es)

  length-run_ref :
      (capacity timeout : ℕ) (es : List (LruEntry K V)) (cs : List (Call K V))
      → capacity ≢ 0
      → length es ≤ capacity
      → length (run_ref dec capacity timeout es cs) ≤ capacity
  unfolding run_ref
  length-run_ref capacity timeout es [] positive h = h
  length-run_ref capacity timeout es (c ∷ cs) positive h =
      length-run_ref capacity timeout (step_ref dec capacity timeout es c) cs positive
        (length-step_ref capacity timeout es c positive h)

  -- A cache with a capacity other than 0 never holds more elements than its capacity between two calls,
  -- whatever the calls on it have been.
  pub length-run :
      (capacity timeout : ℕ) (cs : List (Call K V)) (l : Lru K V)
      → capacity ≢ 0
      → run dec (new_lru capacity timeout) cs ≡ some l
      → length l.list ≤ capacity
  length-run capacity timeout cs l positive h =
      let r = run-run_ref dec capacity timeout cs in
      let same_one : r.0 ≡ l = cc (r.1, h) in
      let bound = length-run_ref capacity timeout [] cs positive (omega arith) in
      let is_entries : entries l.list ≡ run_ref dec capacity timeout [] cs =
        ap (λ x. entries x.list) (sym same_one) ∙ r.2 in
      omega (arith, length-entries l.list, ap length is_entries)

  -- The first entry stays: it is evicted only from a list of one, which is within any capacity.
  find_key-trim :
      (capacity : ℕ) (e : LruEntry K V) (es : List (LruEntry K V))
      → find_key dec e.key ((trim capacity (e ∷ es)).0) ≡ some e
  unfolding trim find_key drop_last last
  find_key-trim capacity e [] = ground (arith, same_refl dec e.key)
  find_key-trim capacity e (x ∷ xs) = elim (Option-cases (last (x ∷ xs))) [
    | inl h ↦ ground (arith, same_refl dec e.key)
    | inr (o, h) ↦ ground (arith, same_refl dec e.key)
  ]

  pub find_key-put :
      (capacity : ℕ) (e : LruEntry K V) (es : List (LruEntry K V))
      → find_key dec e.key ((put dec capacity e es).0) ≡ some e
  unfolding put find_key
  find_key-put capacity e es = elim (Option-cases (find_key dec e.key es)) [
    | inl h ↦ rw (h, put) (find_key-trim capacity e es)
    | inr (o, h) ↦ rw (h, put, same_refl dec e.key) refl
  ]

  pub touch-live :
      (timeout now : ℕ) (k : K) (refresh optimistic : Bool) (e : LruEntry K V)
      (es : List (LruEntry K V))
      → find_key dec k es ≡ some e
      → (is_expired now e && not optimistic) ≡ false
      → (touch dec timeout now k refresh optimistic es).1
        ≡ ([], record { found = some e.value; expired = is_expired now e })
  unfolding touch
  touch-live timeout now k refresh optimistic e es h live = rw (h, touch, live) refl

  -- A value that is added is there: on a valid cache an Add returns, and a load of the key in what it
  -- leaves gives the value, when the clock is not past the entry's expiry (or it has none) or the
  -- load takes expired entries.
  pub add-load :
      (l : Lru K V) (now later : ℕ) (key : K) (value : V) (opts : List ℕ)
      (refresh optimistic : Bool)
      → Valid dec l
      → ((is_expired later (new_entry l now key value opts) ≡ false) ⊎ (optimistic ≡ true))
      → (a : Lru K V) × (b : Lru K V) × (ca : List (Callback K V)) × (e : Bool) × (add dec l now key
            value opts
          ≡ some (a, ca))
        × (load dec a later key refresh optimistic
            ≡ some (b, ([], record { found = some value; expired = e })))
  unfolding add new_entry
  add-load l now later key value opts refresh optimistic v h =
      let entry = new_entry l now key value opts in
      let r = add_entry-put dec l entry v in
      let t = load-touch dec r.after later key refresh optimistic r.valid in
      let there : find_key dec key (entries r.after.list) ≡ some entry =
        rw r.is_entries (find_key-put l.capacity entry (entries l.list)) in
      let live : (is_expired later entry && not optimistic) ≡ false = elim h [
        | inl fresh ↦ ground arith
        | inr taken ↦ rw taken (ground arith)
      ] in
      (
        r.after,
        t.after,
        _,
        is_expired later entry,
        r.returns,
        t.returns
            ∙ ap (λ x. some (t.after, x))
                (touch-live r.after.timeout later key refresh optimistic entry _ there live),
      )
