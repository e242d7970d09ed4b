-- ===== src/ReverseLru.antt =====
-- pkg/utils/lru/reverse.go: the cache with a second map from its values to their keys, which the cache's
-- callbacks keep. What the options' own callbacks are told is the last result of an operation, in the
-- order of the calls: `on_remove` for the cache's, `on_value_update` for `onValueChanged`. `none` is what
-- it is for the cache. The mutex makes each call one step.
pub mod Inverse
pub mod Calls
pub mod Adds
pub mod Lookups
pub mod Values
pub mod History
use yuhaiin.Prelude.{
  ℕ, Bool, true, false, Option, none, some, List, [], ◌∷◌, ◌++◌, if◌then◌else◌, same, Map, lookup,
  erase, assign,
}
use yuhaiin.Lru.{
  LruEntry, Lru, Callback, on_remove, on_value_update, Loaded, new_lru, add, load, delete,
  clear_expired,
}

pub record ReverseLru {ℓ} (K V : Type ℓ) : Type ℓ where
  pub lru : Lru K V
  pub reverse_map : Map V K

module _ {ℓ} {K V : Type ℓ} where
  unfoldable pub new_reverse_lru : ℕ → ℕ → ReverseLru K V
  unfolding new_lru
  new_reverse_lru capacity timeout = record { lru = new_lru capacity timeout; reverse_map = [] }

  -- `LastPopValue`
  unfoldable pub last_pop_value : ReverseLru K V → Option V
  last_pop_value r = elim r.lru.last_pop_entry [ none ↦ none | some e ↦ some e.value ]

module _ {ℓ} {K V : Type ℓ} (dec_value : Discrete V) where
  -- The cache's callback on the second map, and what it tells the options' callbacks.
  unfoldable pub notify_one : Map V K → Callback K V → Map V K × List (Callback K V)
  notify_one m (on_remove k v) = (erase dec_value v m, on_remove k v ∷ [])
  notify_one m (on_value_update old new) =
      if same dec_value old new then (m, []) else elim (lookup dec_value old m) [
        | none ↦ (m, [])
        | some k ↦ (assign dec_value new k (erase dec_value old m), on_value_update old new ∷ [])
      ]

  unfoldable pub notify : Map V K → List (Callback K V) → Map V K × List (Callback K V)
  unfolding notify_one
  notify m [] = (m, [])
  notify m (c ∷ cs) =
      let one = notify_one m c in let rest = notify one.0 cs in (rest.0, one.1 ++ rest.1)

module _ {ℓ} {K V : Type ℓ} (dec : Discrete K) (dec_value : Discrete V) where
  -- A call of the cache, with its callbacks run.
  unfoldable pub told :
      {R : Type ℓ}
      → Map V K
      → Option (Lru K V × (List (Callback K V) × R))
      → Option (ReverseLru K V × (List (Callback K V) × R))
  unfolding notify
  told m none = none
  told m (some (l, (cs, x))) =
      let n = notify dec_value m cs in some (record { lru = l; reverse_map = n.0 }, (n.1, x))

  unfoldable pub told_only :
      Map V K
      → Option (Lru K V × List (Callback K V))
      → Option (ReverseLru K V × List (Callback K V))
  unfolding notify
  told_only m none = none
  told_only m (some (l, cs)) =
      let n = notify dec_value m cs in some (record { lru = l; reverse_map = n.0 }, n.1)

  unfoldable pub reverse_delete : ReverseLru K V → K → Option (ReverseLru K V × List (Callback K V))
  unfolding told_only delete
  reverse_delete r key = told_only r.reverse_map (delete dec r.lru key)

  -- The end of `Add`, from `l.lru.Add`.
  unfoldable pub add_value :
      ReverseLru K V → ℕ → K → V → List ℕ → Option (ReverseLru K V × List (Callback K V))
  unfolding told_only add
  add_value r now key value opts =
      elim (told_only r.reverse_map (add dec r.lru now key value opts)) [
        | none ↦ none
        | some (r', es) ↦
            some (record r' { reverse_map = assign dec_value value key r'.reverse_map }, es)
      ]

  unfoldable pub reverse_add :
      ReverseLru K V → ℕ → K → V → List ℕ → Option (ReverseLru K V × List (Callback K V))
  unfolding reverse_delete add_value
  reverse_add r now key value opts = elim (lookup dec_value value r.reverse_map) [
    | none ↦ add_value r now key value opts
    | some k ↦ elim (reverse_delete r k) [
      | none ↦ none
      | some (r', es) ↦ elim (add_value r' now key value opts) [
        | none ↦ none
        | some (r'', es') ↦ some (r'', es ++ es')
      ]
    ]
  ]

  -- `Load`, `LoadOptimistic` and `LoadRefreshExpire`
  unfoldable pub reverse_load_key :
      ReverseLru K V
      → ℕ
      → K
      → Bool
      → Bool
      → Option (ReverseLru K V × (List (Callback K V) × Loaded V))
  unfolding told load
  reverse_load_key r now key refresh optimistic =
      told r.reverse_map (load dec r.lru now key refresh optimistic)

  -- `ReverseLoad`: the key where the source says `ok`.
  unfoldable pub reverse_load :
      ReverseLru K V → ℕ → V → Option (ReverseLru K V × (List (Callback K V) × Option K))
  unfolding reverse_load_key
  reverse_load r now value = elim (lookup dec_value value r.reverse_map) [
    | none ↦ some (r, ([], none))
    | some k ↦ elim (reverse_load_key r now k false false) [
      | none ↦ none
      | some (r', (es, x)) ↦ some (r', (es, elim x.found [ none ↦ none | some v ↦ some k ]))
    ]
  ]

  -- `ReverseLoadRefreshExpire`
  unfoldable pub reverse_load_refresh_expire :
      ReverseLru K V → ℕ → V → Option (ReverseLru K V × (List (Callback K V) × Option K))
  unfolding reverse_load_key
  reverse_load_refresh_expire r now value = elim (lookup dec_value value r.reverse_map) [
    | none ↦ some (r, ([], none))
    | some k ↦ elim (reverse_load_key r now k true false) [
      | none ↦ none
      | some (r', (es, x)) ↦ some (r', (es, some k))
    ]
  ]

  -- `ValueExist`
  unfoldable pub value_exist :
      ReverseLru K V → ℕ → V → Option (ReverseLru K V × (List (Callback K V) × Bool))
  unfolding reverse_load_key
  value_exist r now value = elim (lookup dec_value value r.reverse_map) [
    | none ↦ some (r, ([], false))
    | some k ↦ elim (reverse_load_key r now k false false) [
      | none ↦ none
      | some (r', (es, x)) ↦ some (r', (es, elim x.found [ none ↦ false | some v ↦ true ]))
    ]
  ]

  unfoldable pub reverse_clear_expired :
      ReverseLru K V → ℕ → Option (ReverseLru K V × List (Callback K V))
  unfolding told_only clear_expired
  reverse_clear_expired r now = told_only r.reverse_map (clear_expired dec r.lru now)
