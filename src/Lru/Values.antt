-- ===== src/Lru/Values.antt =====
-- A test that every value of the cache passes, and that of the entry evicted last with them.
use yuhaiin.Prelude.{
  ℕ, ◌+◌, ◌≡◌, Bool, true, not, ◌&&◌, Option, none, some, List, [], ◌∷◌, ◌==◌, ltb, length, same,
  Bool-cases, Option-cases, inl, inr,
}
use yuhaiin.Lru.{
  LruEntry, Element, Lru, Callback, Loaded, is_expired, back, remove_element, push_front, evict,
  add_entry, load_element, load, delete,
}
use yuhaiin.Lru.Recency.{kept_value, find_key, erase_key, last, drop_last, trim, put, touch}
use yuhaiin.Lru.Elements.{entries}
use yuhaiin.Lru.Valid.{Valid}
use yuhaiin.Lru.Calls.{mapped-cases}

module _ {ℓ} {K V : Type ℓ} (test : V → Bool) where
  abbrev pub AllValues : List (LruEntry K V) → Type 0
  AllValues [] = Unit
  AllValues (e ∷ es) = (test e.value ≡ true) × AllValues es

  abbrev pub PopPasses : Option (LruEntry K V) → Type 0
  PopPasses none = Unit
  PopPasses (some e) = test e.value ≡ true

  back-AllValues :
      (x : Element K V) (xs : List (Element K V))
      → AllValues (entries xs)
      → back xs ≡ some x
      → test x.entry.value ≡ true
  unfolding back entries
  back-AllValues x [] a h = absurd (cc h)
  back-AllValues x (y ∷ []) (p, a) h = let is_it : y ≡ x = cc in rw is_it at p
  back-AllValues x (y ∷ z ∷ zs) (p, a) h = back-AllValues x (z ∷ zs) a h

  drop_last-AllValues : (es : List (LruEntry K V)) → AllValues es → AllValues (drop_last es)
  unfolding drop_last
  drop_last-AllValues [] a = tt
  drop_last-AllValues (x ∷ []) a = tt
  drop_last-AllValues (x ∷ y ∷ ys) (p, a) = (p, drop_last-AllValues (y ∷ ys) a)

  pub trim-AllValues :
      (capacity : ℕ) (es : List (LruEntry K V)) → AllValues es → AllValues ((trim capacity es).0)
  unfolding trim
  trim-AllValues capacity es a =
      elim (Bool-cases (not (capacity == 0) && ltb capacity (length es))) [
        | inr within ↦ rw within a
        | inl over ↦ elim (Option-cases (last es)) [
          | inl empty ↦ rw (over, empty) a
          | inr (o, is_last) ↦ rw (over, is_last) (drop_last-AllValues es a)
        ]
      ]

  pub same_state :
      {R : Type ℓ} (l a : Lru K V) (x y : R)
      → ◌≡◌ {A = Option (Lru K V × R)} (some (l, x)) (some (a, y))
      → l ≡ a
  same_state l a x y h = cc

  pub evict-pop :
      (dec : Discrete K) (l a : Lru K V) (cs : List (Callback K V))
      → AllValues (entries l.list)
      → PopPasses l.last_pop_entry
      → evict dec l ≡ some (a, cs)
      → PopPasses a.last_pop_entry
  unfolding evict remove_element
  evict-pop dec l a cs all pop h =
      elim (Bool-cases (not (l.capacity == 0) && ltb l.capacity (length l.list))) [
        | inr within ↦ let is_a : l ≡ a = cc (rw (evict, within) at h) in rw is_a at pop
        | inl over ↦ elim (Option-cases (back l.list)) [
          | inl empty ↦ absurd (cc (rw (evict, over, empty) at h))
          | inr (x, is_back) ↦
              let is_a = same_state _ a _ _ (rw (evict, over, is_back) at h) in
              rw (← is_a) (back-AllValues x l.list all is_back)
        ]
      ]

module _ {ℓ} {K V : Type ℓ} (dec : Discrete K) (test : V → Bool) where
  pub erase_key-AllValues :
      (k : K) (es : List (LruEntry K V)) → AllValues test es → AllValues test (erase_key dec k es)
  unfolding erase_key
  erase_key-AllValues k [] a = tt
  erase_key-AllValues k (x ∷ xs) (p, a) = elim (Bool-cases (same dec x.key k)) [
    | inl hit ↦ rw hit a
    | inr miss ↦ rw miss ((p, erase_key-AllValues k xs a))
  ]

  pub find_key-AllValues :
      (k : K) (e : LruEntry K V) (es : List (LruEntry K V))
      → AllValues test es
      → find_key dec k es ≡ some e
      → test e.value ≡ true
  unfolding find_key
  find_key-AllValues k e [] a h = absurd (cc h)
  find_key-AllValues k e (x ∷ xs) (p, a) h = elim (Bool-cases (same dec x.key k)) [
    | inl hit ↦ let is_it : x ≡ e = cc (rw hit at h) in rw is_it at p
    | inr miss ↦ find_key-AllValues k e xs a (rw miss at h)
  ]

  pub put-AllValues :
      (capacity : ℕ) (e : LruEntry K V) (es : List (LruEntry K V))
      → AllValues test es
      → test e.value ≡ true
      → AllValues test ((put dec capacity e es).0)
  unfolding put
  put-AllValues capacity e es a p = elim (Option-cases (find_key dec e.key es)) [
    | inl empty ↦ rw (empty, put) (trim-AllValues test capacity (e ∷ es) (p, a))
    | inr (o, found) ↦ rw (found, put) ((p, erase_key-AllValues e.key es a))
  ]

  pub touch-AllValues :
      (timeout now : ℕ) (k : K) (refresh optimistic : Bool) (es : List (LruEntry K V))
      → AllValues test es
      → AllValues test ((touch dec timeout now k refresh optimistic es).0)
  unfolding touch
  touch-AllValues timeout now k refresh optimistic es a = elim (Option-cases (find_key dec k es)) [
    | inl empty ↦ rw (empty, touch) a
    | inr (e, found) ↦ elim (Bool-cases (is_expired now e && not optimistic)) [
      | inl old ↦ rw (found, touch, old) (erase_key-AllValues k es a)
      | inr live ↦
          rw (found, touch, live)
            ((
              rw (kept_value (refresh && not (timeout == 0)) (now + timeout) e)
                  (find_key-AllValues k e es a found),
              erase_key-AllValues k es a,
            ))
    ]
  ]

  module _ (l a : Lru K V) (v : Valid dec l) (all : AllValues test (entries l.list))
      (pop : PopPasses test l.last_pop_entry) where
    pub add_entry-pop :
        (e : LruEntry K V) (cs : List (Callback K V))
        → test e.value ≡ true
        → add_entry dec l e ≡ some (a, cs)
        → PopPasses test a.last_pop_entry
    unfolding add_entry push_front entries
    add_entry-pop e cs p h = elim (mapped-cases dec l e.key v) [
      | inl (missing, new) ↦
          evict-pop test dec (push_front dec l e) a cs (p, all) pop (rw (add_entry, missing) at h)
      | inr (i, there, id, f) ↦
          let is_a = same_state test _ a _ _ (rw (add_entry, there, f.found) at h) in
          rw (← is_a) pop
    ]

    pub delete-pop :
        (k : K) (cs : List (Callback K V))
        → delete dec l k ≡ some (a, cs)
        → PopPasses test a.last_pop_entry
    unfolding delete remove_element
    delete-pop k cs h = elim (mapped-cases dec l k v) [
      | inl (missing, new) ↦
          let is_a = same_state test _ a _ _ (rw (delete, missing) at h) in rw (← is_a) pop
      | inr (i, there, id, f) ↦
          let is_a = same_state test _ a _ _ (rw (delete, there, f.found) at h) in
          rw (← is_a) (find_key-AllValues k f.element.entry (entries l.list) all f.entry)
    ]

    pub load-pop :
        (now : ℕ) (k : K) (refresh optimistic : Bool) (x : List (Callback K V) × Loaded V)
        → load dec l now k refresh optimistic ≡ some (a, x)
        → PopPasses test a.last_pop_entry
    unfolding load load_element remove_element
    load-pop now k refresh optimistic x h = elim (mapped-cases dec l k v) [
      | inl (missing, new) ↦
          let is_a = same_state test _ a _ _ (rw (load, missing) at h) in rw (← is_a) pop
      | inr (i, there, id, f) ↦
          elim (Bool-cases (is_expired now f.element.entry && not optimistic)) [
            | inl old ↦
                let is_a =
                  same_state test _ a _ _ (rw (load, there, f.found, load_element, old) at h) in
                rw (← is_a) (find_key-AllValues k f.element.entry (entries l.list) all f.entry)
            | inr live ↦
                let is_a =
                  same_state test _ a _ _ (rw (load, there, f.found, load_element, live) at h) in
                rw (← is_a) pop
          ]
    ]
