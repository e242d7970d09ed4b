-- ===== src/Lru/Calls.antt =====
-- Add, load and Delete of the cache against the reference, on every branch.
use yuhaiin.Prelude.{
  ℕ, ◌+◌, ◌≡◌, refl, sym, ap, ◌∙◌, Bool, true, not, ◌&&◌, none, some, List, [], ◌∷◌, ◌==◌,
  if◌then◌else◌, Bool-cases, Option-cases, inl, inr, lookup, ◌⊎◌,
}
use yuhaiin.Lru.{
  LruEntry, Lru, Callback, Loaded, on_remove, is_expired, remove_id, put_in_front, push_front,
  add_entry, load_element, load, delete,
}
use yuhaiin.Lru.Recency.{kept_key, find_key, erase_key, put, touch, erase_key-missing}
use yuhaiin.Lru.Elements.{entries, id_of, id_of-none, Found, id_of-Found}
use yuhaiin.Lru.Valid.{Valid, push_front-Valid, put_in_front-Valid}
use yuhaiin.Lru.Refines.{Refines, evict-trim, removes}

module _ {ℓ} {K V : Type ℓ} (dec : Discrete K) where
  -- What the mapping has for a key: nothing, and no entry has the key, or its element.
  pub mapped-cases :
      (l : Lru K V) (k : K)
      → Valid dec l
      → ((lookup dec k l.mapping ≡ none) × (find_key dec k (entries l.list) ≡ none))
        ⊎ ((i : ℕ) × (lookup dec k l.mapping ≡ some i)
            × (id_of dec k l.list ≡ some i)
            × Found dec k i l.list)
  mapped-cases l k v = elim (Option-cases (lookup dec k l.mapping)) [
    | inl h ↦ inl (h, id_of-none dec k l.list (sym (v.agree k) ∙ h))
    | inr (i, h) ↦
        let h' = sym (v.agree k) ∙ h in inr (i, h, h', id_of-Found dec k i l.list v.ids h')
  ]

  and_loaded :
      (l a : Lru K V) (cs : List (Callback K V)) (es : List (LruEntry K V)) (x : Loaded V)
      → Refines dec l {R = List (Callback K V)} (some (a, cs)) es cs
      → Refines dec l {R = List (Callback K V) × Loaded V} (some (a, (cs, x))) es (cs, x)
  and_loaded l a cs es x r = record {
    after = r.after;
    returns = cc (r.returns);
    valid = r.valid;
    is_entries = r.is_entries;
    is_capacity = r.is_capacity;
    is_timeout = r.is_timeout;
  }

  front-entries :
      (l : Lru K V) (k : K) (i : ℕ) (f : Found dec k i l.list) (e : LruEntry K V)
      → entries (put_in_front f.element e l.list) ≡ e ∷ erase_key dec k (entries l.list)
  unfolding put_in_front entries
  front-entries l k i f e =
      ap (λ es. e ∷ es) (ap (λ j. entries (remove_id j l.list)) f.is_id ∙ f.removed)

  -- Add, with the entry made, is the reference's `put`.
  pub add_entry-put :
      (l : Lru K V) (e : LruEntry K V)
      → Valid dec l
      → Refines dec l
          (add_entry dec l e)
          ((put dec l.capacity e (entries l.list)).0)
          ((put dec l.capacity e (entries l.list)).1)
  unfolding add_entry put put_in_front entries
  add_entry-put l e v = elim (mapped-cases l e.key v) [
    | inl (h, new) ↦
        let r = evict-trim dec (push_front dec l e) (push_front-Valid dec l e v h) in
        rw (h, new, add_entry, put)
          (record {
            after = r.after;
            returns = r.returns;
            valid = r.valid;
            is_entries = r.is_entries;
            is_capacity = r.is_capacity;
            is_timeout = r.is_timeout;
          })
    | inr (i, h, h', f) ↦
        rw (h, f.found, f.entry, add_entry, put)
          (record {
            after = record l { list = put_in_front f.element e l.list };
            returns = refl;
            valid = put_in_front-Valid dec l e.key i v h' f e refl;
            is_entries = front-entries l e.key i f e;
            is_capacity = refl;
            is_timeout = refl;
          })
  ]

  -- Delete removes the entry of the key.
  pub delete-erase_key :
      (l : Lru K V) (k : K)
      → Valid dec l
      → Refines dec l
          (delete dec l k)
          (erase_key dec k (entries l.list))
          (elim (find_key dec k (entries l.list)) [
            | none ↦ []
            | some e ↦ on_remove e.key e.value ∷ []
          ])
  unfolding delete
  delete-erase_key l k v = elim (mapped-cases l k v) [
    | inl (h, new) ↦
        rw (h, new, delete)
          (record {
            after = l;
            returns = refl;
            valid = v;
            is_entries = sym (erase_key-missing dec k (entries l.list) new);
            is_capacity = refl;
            is_timeout = refl;
          })
    | inr (i, h, h', f) ↦ rw (h, f.found, f.entry, delete) (removes dec l k i v h' f)
  ]

  load_element-touch :
      (l : Lru K V) (now : ℕ) (k : K) (i : ℕ) (refresh optimistic : Bool)
      → Valid dec l
      → id_of dec k l.list ≡ some i
      → (f : Found dec k i l.list)
      → Refines dec l
          (some (load_element dec l now refresh optimistic f.element))
          ((touch dec l.timeout now k refresh optimistic (entries l.list)).0)
          ((touch dec l.timeout now k refresh optimistic (entries l.list)).1)
  unfolding load_element touch
  load_element-touch l now k i refresh optimistic v h f =
      let stay =
        if refresh && not (l.timeout == 0)
        then record f.element.entry { expire = now + l.timeout }
        else f.element.entry in
      elim (Bool-cases (is_expired now f.element.entry && not optimistic)) [
        | inl old ↦
            rw (f.entry, old, load_element, touch)
              (and_loaded l _ _ _ (record { found = none; expired = true })
                (removes dec l k i v h f))
        | inr live ↦
            rw (f.entry, live, load_element, touch)
              (record {
                after = record l { list = put_in_front f.element stay l.list };
                returns = refl;
                valid = put_in_front-Valid dec l k i v h f stay (
                    kept_key (refresh && not (l.timeout == 0)) (now + l.timeout) f.element.entry
                    ∙ f.is_key);
                is_entries = front-entries l k i f stay;
                is_capacity = refl;
                is_timeout = refl;
              })
      ]

  -- A load of any kind is the reference's `touch`.
  pub load-touch :
      (l : Lru K V) (now : ℕ) (k : K) (refresh optimistic : Bool)
      → Valid dec l
      → Refines dec l
          (load dec l now k refresh optimistic)
          ((touch dec l.timeout now k refresh optimistic (entries l.list)).0)
          ((touch dec l.timeout now k refresh optimistic (entries l.list)).1)
  unfolding load touch
  load-touch l now k refresh optimistic v = elim (mapped-cases l k v) [
    | inl (h, new) ↦
        rw (h, new, load, touch)
          (record {
            after = l;
            returns = refl;
            valid = v;
            is_entries = refl;
            is_capacity = refl;
            is_timeout = refl;
          })
    | inr (i, h, h', f) ↦
        rw (h, f.found, load) (load_element-touch l now k i refresh optimistic v h' f)
  ]
