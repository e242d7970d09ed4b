-- ===== src/Lru.antt =====
-- pkg/utils/lru/lru.go, with LoadOrAdd of sync.go: the cache that the resolvers and the fake addresses
-- are kept in. A list element is a number and its value: the mapping holds the numbers, as the source's
-- holds pointers, and the list's methods act on the element with the number. `none` is a panic on a
-- nil pointer, or a mapped element that the list does not hold. The callbacks of an operation are its
-- second result, in their order. Times are nanoseconds, with 0 for no expiry; sums of the clock and a
-- timeout are taken to stay below 2^63. The locks of sync.go make each call one step.
pub mod Recency
pub mod Elements
pub mod Valid
pub mod Refines
pub mod Calls
pub mod Alive
pub mod Sweep
pub mod History
pub mod Bounds
pub mod LoadOrAdd
pub mod Values
use yuhaiin.Prelude.{
  ℕ, suc, ◌+◌, Bool, true, false, not, ◌&&◌, Option, none, some, List, [], ◌∷◌, ◌++◌, ◌==◌,
  if◌then◌else◌, ltb, length, Map, lookup, erase, assign,
}

pub record LruEntry {ℓ} (K V : Type ℓ) : Type ℓ where
  pub key : K
  pub value : V
  pub expire : ℕ

pub record Element {ℓ} (K V : Type ℓ) : Type ℓ where
  pub id : ℕ
  pub entry : LruEntry K V

-- The list has the most recently used element first; `next` is the number of the next element.
pub record Lru {ℓ} (K V : Type ℓ) : Type ℓ where
  pub list : List (Element K V)
  pub mapping : Map K ℕ
  pub next : ℕ
  pub last_pop_entry : Option (LruEntry K V)
  pub capacity : ℕ
  pub timeout : ℕ

pub data Callback {ℓ} (K V : Type ℓ) : Type ℓ where
  on_remove : K → V → Callback K V
  on_value_update : V → V → Callback K V

-- What `load` returns: the value where the source says `ok`.
pub record Loaded {ℓ} (V : Type ℓ) : Type ℓ where
  pub found : Option V
  pub expired : Bool

-- The options, each a `WithTimeout`, from the expiry so far.
unfoldable pub with_timeouts : ℕ → List ℕ → ℕ → ℕ
with_timeouts now [] expire = expire
with_timeouts now (t ∷ ts) expire = with_timeouts now ts (now + t)

module _ {ℓ} {K V : Type ℓ} where
  unfoldable pub is_expired : ℕ → LruEntry K V → Bool
  is_expired now e = not (e.expire == 0) && ltb e.expire now

  unfoldable pub new_lru : ℕ → ℕ → Lru K V
  new_lru capacity timeout = record {
    list = [];
    mapping = [];
    next = 0;
    last_pop_entry = none;
    capacity = capacity;
    timeout = timeout;
  }

  -- The element that a pointer leads to.
  unfoldable pub find_id : ℕ → List (Element K V) → Option (Element K V)
  find_id i [] = none
  find_id i (x ∷ xs) = if x.id == i then some x else find_id i xs

  -- `list.Remove`
  unfoldable pub remove_id : ℕ → List (Element K V) → List (Element K V)
  remove_id i [] = []
  remove_id i (x ∷ xs) = let rest = remove_id i xs in if x.id == i then xs else x ∷ rest

  -- `list.Back`
  unfoldable pub back : List (Element K V) → Option (Element K V)
  back [] = none
  back (x ∷ []) = some x
  back (x ∷ y ∷ ys) = back (y ∷ ys)

  -- `elem.Value = entry` and `MoveToFront`
  unfoldable pub put_in_front : Element K V → LruEntry K V → List (Element K V) → List (Element K V)
  unfolding remove_id
  put_in_front x entry xs = record { id = x.id; entry = entry } ∷ remove_id x.id xs

  unfoldable pub new_entry : Lru K V → ℕ → K → V → List ℕ → LruEntry K V
  unfolding with_timeouts
  new_entry l now key value opts =
      let expire = with_timeouts now opts 0 in
      record {
        key = key;
        value = value;
        expire = if not (l.timeout == 0) && expire == 0 then now + l.timeout else expire;
      }

module _ {ℓ} {K V : Type ℓ} (dec : Discrete K) where
  unfoldable pub remove_element : Lru K V → Element K V → Lru K V × List (Callback K V)
  unfolding remove_id
  remove_element l x = (
    record l {
      last_pop_entry = some x.entry;
      list = remove_id x.id l.list;
      mapping = erase dec x.entry.key l.mapping;
    },
    on_remove x.entry.key x.entry.value ∷ [],
  )

  -- `l.mapping[key] = l.list.PushFront(entry)`
  unfoldable pub push_front : Lru K V → LruEntry K V → Lru K V
  push_front l entry = record l {
    list = record { id = l.next; entry = entry } ∷ l.list;
    mapping = assign dec entry.key l.next l.mapping;
    next = suc l.next;
  }

  -- The end of `Add`: over its capacity the cache loses its last element.
  unfoldable pub evict : Lru K V → Option (Lru K V × List (Callback K V))
  unfolding remove_element back
  evict l =
      if not (l.capacity == 0) && ltb l.capacity (length l.list)
      then elim (back l.list) [ none ↦ none | some x ↦ some (remove_element l x) ]
      else some (l, [])

  -- `Add` with the entry made.
  unfoldable pub add_entry : Lru K V → LruEntry K V → Option (Lru K V × List (Callback K V))
  unfolding find_id put_in_front push_front evict
  add_entry l entry = elim (lookup dec entry.key l.mapping) [
    | none ↦ evict (push_front l entry)
    | some i ↦ elim (find_id i l.list) [
      | none ↦ none
      | some x ↦ some (
        record l { list = put_in_front x entry l.list },
        on_value_update x.entry.value entry.value ∷ [],
      )
    ]
  ]

  unfoldable pub add : Lru K V → ℕ → K → V → List ℕ → Option (Lru K V × List (Callback K V))
  unfolding add_entry new_entry
  add l now key value opts = add_entry l (new_entry l now key value opts)

  -- `load` once the element is found.
  unfoldable pub load_element :
      Lru K V → ℕ → Bool → Bool → Element K V → Lru K V × (List (Callback K V) × Loaded V)
  unfolding is_expired remove_element put_in_front
  load_element l now refresh optimistic x =
      let r = remove_element l x in
      let entry =
        if refresh && not (l.timeout == 0)
        then record x.entry { expire = now + l.timeout }
        else x.entry in
      if is_expired now x.entry && not optimistic
      then (r.0, (r.1, record { found = none; expired = true }))
      else (
        record l { list = put_in_front x entry l.list },
        ([], record { found = some x.entry.value; expired = is_expired now x.entry }),
      )

  unfoldable pub load :
      Lru K V → ℕ → K → Bool → Bool → Option (Lru K V × (List (Callback K V) × Loaded V))
  unfolding load_element find_id
  load l now key refresh optimistic = elim (lookup dec key l.mapping) [
    | none ↦ some (l, ([], record { found = none; expired = false }))
    | some i ↦ elim (find_id i l.list) [
      | none ↦ none
      | some x ↦ some (load_element l now refresh optimistic x)
    ]
  ]

  -- `Delete`
  unfoldable pub delete : Lru K V → K → Option (Lru K V × List (Callback K V))
  unfolding remove_element find_id
  delete l key = elim (lookup dec key l.mapping) [
    | none ↦ some (l, [])
    | some i ↦ elim (find_id i l.list) [ none ↦ none | some x ↦ some (remove_element l x) ]
  ]

  -- The loop of `ClearExpired` over the mapping.
  unfoldable pub clear_expired_from : ℕ → Map K ℕ → Lru K V → Option (Lru K V × List (Callback K V))
  unfolding is_expired remove_element find_id
  clear_expired_from now [] l = some (l, [])
  clear_expired_from now ((k, i) ∷ m) l = elim (find_id i l.list) [
    | none ↦ none
    | some x ↦
        let r = if is_expired now x.entry then remove_element l x else (l, []) in
        elim (clear_expired_from now m r.0) [ none ↦ none | some (l', cs) ↦ some (l', r.1 ++ cs) ]
  ]

  unfoldable pub clear_expired : Lru K V → ℕ → Option (Lru K V × List (Callback K V))
  unfolding clear_expired_from
  clear_expired l now = clear_expired_from now l.mapping l

  -- `LoadOrAdd` of `SyncLru`; `value` is what the callback would give.
  unfoldable pub load_or_add :
      Lru K V → ℕ → K → V → List ℕ → Option (Lru K V × List (Callback K V) × V × Bool)
  unfolding load add
  load_or_add l now key value opts = elim (load l now key false false) [
    | none ↦ none
    | some (l', (cs, r)) ↦ elim r.found [
      | some v ↦ some (l', cs, v, true)
      | none ↦ elim (add l' now key value opts) [
        | none ↦ none
        | some (l'', cs') ↦ some (l'', cs ++ cs', value, false)
      ]
    ]
  ]
