-- ===== src/Lru/LoadOrAdd.antt =====
-- LoadOrAdd of sync.go: the value that it returns is the one that the cache then has.
use yuhaiin.Prelude.{
  ℕ, ◌+◌, ◌≡◌, refl, ap, ◌∙◌, Bool, true, false, not, ◌&&◌, none, some, List, [], ◌++◌, ◌==◌,
  if◌then◌else◌, same_refl, Bool-cases, Option-cases, inl, inr,
}
use yuhaiin.Lru.{LruEntry, Lru, Callback, Loaded, is_expired, add, load, load_or_add}
use yuhaiin.Lru.Recency.{find_key, find_key-key, touch, kept_key, kept_value}
use yuhaiin.Lru.Elements.{entries}
use yuhaiin.Lru.Valid.{Valid}
use yuhaiin.Lru.Calls.{load-touch}
use yuhaiin.Lru.Bounds.{touch-live, add-load}

optimistic-live : (b : Bool) → (b && not true) ≡ false
optimistic-live true = refl
optimistic-live false = refl

module _ {ℓ} {K V : Type ℓ} (dec : Discrete K) where
  -- A value that a load finds is the key's after it.
  pub touch-found :
      (timeout now : ℕ) (k : K) (refresh : Bool) (es : List (LruEntry K V)) (v : V)
      → (touch dec timeout now k refresh false es).1.1.found ≡ some v
      → (e : LruEntry K V) × (find_key dec k ((touch dec timeout now k refresh false es).0)
          ≡ some e)
        × (e.value ≡ v)
  unfolding touch find_key
  touch-found timeout now k refresh es v h = elim (Option-cases (find_key dec k es)) [
    | inl missing ↦ cc (rw (missing, touch) at h)
    | inr (e, found) ↦ elim (Bool-cases (is_expired now e && not false)) [
      | inl old ↦ cc (rw (found, touch, old) at h)
      | inr live ↦
          let entry : LruEntry K V =
            if refresh && not (timeout == 0) then record e { expire = now + timeout } else e in
          let is_key : entry.key ≡ k =
            kept_key (refresh && not (timeout == 0)) (now + timeout) e
            ∙ find_key-key dec k e es found in
          rw (found, touch, live)
            (
              entry,
              rw (is_key, same_refl dec k) refl,
              kept_value (refresh && not (timeout == 0)) (now + timeout) e
                  ∙ cc (rw (found, touch, live) at h),
            )
    ]
  ]

  loads_it :
      (l a : Lru K V) (now : ℕ) (key : K) (value v : V) (opts : List ℕ) (cs : List (Callback K V))
      (x : Loaded V)
      → load dec l now key false false ≡ some (a, (cs, x))
      → x.found ≡ some v
      → load_or_add dec l now key value opts ≡ some (a, cs, v, true)
  unfolding load_or_add
  loads_it l a now key value v opts cs x h found = rw (load_or_add, h, found) refl

  adds_it :
      (l a b : Lru K V) (now : ℕ) (key : K) (value : V) (opts : List ℕ)
      (cs cs' : List (Callback K V)) (x : Loaded V)
      → load dec l now key false false ≡ some (a, (cs, x))
      → x.found ≡ none
      → add dec a now key value opts ≡ some (b, cs')
      → load_or_add dec l now key value opts ≡ some (b, cs ++ cs', value, false)
  unfolding load_or_add
  adds_it l a b now key value opts cs cs' x h missing added =
      rw (load_or_add, h, missing, added) refl

  -- On a valid cache LoadOrAdd returns. If it says that it added, the value is the caller's; and in the
  -- cache after it a load of the key that takes expired entries gives the value that it returned.
  pub load_or_add-load :
      (l : Lru K V) (now later : ℕ) (key : K) (value : V) (opts : List ℕ)
      → Valid dec l
      → (a : Lru K V) × (b : Lru K V) × (cs : List (Callback K V)) × (v : V) × (ok : Bool)
        × (e : Bool) × (load_or_add dec l now key value opts ≡ some (a, cs, v, ok))
        × (ok ≡ false → v ≡ value)
        × (load dec a later key false true ≡ some (b, ([], record { found = some v; expired = e })))
  load_or_add-load l now later key value opts valid =
      let r = load-touch dec l now key false false valid in
      let result = (touch dec l.timeout now key false false (entries l.list)).1 in
      elim (Option-cases (result.1.found)) [
        | inl missing ↦
            let (a, b, cs, e, added, loaded) =
              add-load dec r.after now later key value opts false true r.valid (inr refl) in
            (
              a,
              b,
              result.0 ++ cs,
              value,
              false,
              e,
              adds_it l r.after a now key value opts result.0 cs result.1 r.returns missing added,
              λ h. refl,
              loaded,
            )
        | inr (v, hit) ↦
            let (e, found, is_v) = touch-found l.timeout now key false (entries l.list) v hit in
            let t = load-touch dec r.after later key false true r.valid in
            let there : find_key dec key (entries r.after.list) ≡ some e = rw r.is_entries found in
            let live =
              touch-live dec r.after.timeout later key false true e (entries r.after.list) there
                (optimistic-live (is_expired later e)) in
            (
              r.after,
              t.after,
              result.0,
              v,
              true,
              is_expired later e,
              loads_it l r.after now key value v opts result.0 result.1 r.returns hit,
              λ h. absurd (cc h),
              t.returns
                  ∙ ap (λ x. some (t.after, x)) live
                  ∙ ap
                      (λ w.
                        some
                          (t.after, ([], record { found = some w; expired = is_expired later e })))
                      is_v,
            )
      ]
