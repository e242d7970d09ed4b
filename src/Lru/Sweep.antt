-- ===== src/Lru/Sweep.antt =====
-- ClearExpired of the cache: what the loop over the mapping leaves is what has not expired.
use yuhaiin.Prelude.{
  ℕ, ◌≡◌, refl, sym, ap, ◌∙◌, true, false, none, some, List, [], ◌∷◌, arith, same, same→eq,
  same_refl, Bool-cases, inl, inr, Map, lookup, IsMap,
}
use yuhaiin.Lru.{
  LruEntry, Element, Lru, Callback, on_remove, is_expired, find_id, remove_id, remove_element,
  clear_expired_from, clear_expired,
}
use yuhaiin.Lru.Recency.{find_key, erase_key, has_key-erase_key_self, find_key-has_key}
use yuhaiin.Lru.Elements.{entries, id_of, Found, id_of-Found, id_of-remove_id}
use yuhaiin.Lru.Valid.{Valid, remove_element-Valid}
use yuhaiin.Lru.Refines.{Refines}
use yuhaiin.Lru.Calls.{mapped-cases}
use yuhaiin.Lru.Alive.{alive, alive-erase_key, find_key-erase_key, alive-all, removals, AreRemovals}

module _ {ℓ} {K V : Type ℓ} (dec : Discrete K) where
  -- What the loop over the rest `m` of the mapping makes of `l`.
  record Swept (now : ℕ) (m : Map K ℕ) (l : Lru K V) : Type ℓ where
    after : Lru K V
    callbacks : List (Callback K V)
    returns : clear_expired_from dec now m l ≡ some (after, callbacks)
    valid : Valid dec after
    is_alive : alive now (entries after.list) ≡ alive now (entries l.list)
    is_kept :
        (j : K) (e : LruEntry K V)
        → find_key dec j (entries after.list) ≡ some e
        → find_key dec j (entries l.list) ≡ some e
    is_swept :
        (j : K) (i : ℕ) (e : LruEntry K V)
        → lookup dec j m ≡ some i
        → find_key dec j (entries after.list) ≡ some e
        → is_expired now e ≡ false
    are_removals : AreRemovals dec (entries l.list) callbacks
    is_left : entries after.list ≡ removals dec (entries l.list) callbacks
    is_capacity : after.capacity ≡ l.capacity
    is_timeout : after.timeout ≡ l.timeout

  shorter :
      (l : Lru K V) (k : K) (i : ℕ) (f : Found dec k i l.list)
      → entries (remove_id f.element.id l.list) ≡ erase_key dec k (entries l.list)
  shorter l k i f = rw f.is_id f.removed

  gone_after :
      (l : Lru K V) (k : K) (i : ℕ)
      → Valid dec l
      → (f : Found dec k i l.list) → find_key dec k (entries (remove_id f.element.id l.list)) ≡ none
  gone_after l k i v f =
      rw (shorter l k i f)
        (find_key-has_key dec k _ (has_key-erase_key_self dec k (entries l.list) v.keys))

  there :
      (j k : K) (i i' : ℕ) (l : Lru K V)
      → Valid dec l
      → id_of dec k l.list ≡ some i
      → same dec k j ≡ false
      → id_of dec j l.list ≡ some i'
      → (f : Found dec k i l.list) → id_of dec j (remove_id f.element.id l.list) ≡ some i'
  there j k i i' l v here apart at_j f =
      rw (f.is_id, id_of-remove_id dec k j i l.list v.ids v.keys here, apart) at_j

  skips :
      (now : ℕ) (k : K) (i : ℕ) (m : Map K ℕ) (l : Lru K V) (x : Element K V) (a : Lru K V)
      (cs : List (Callback K V))
      → find_id i l.list ≡ some x
      → is_expired now x.entry ≡ false
      → clear_expired_from dec now m l ≡ some (a, cs)
      → clear_expired_from dec now ((k, i) ∷ m) l ≡ some (a, cs)
  unfolding clear_expired_from
  skips now k i m l x a cs h b r = rw (h, clear_expired_from, b, r, b) refl

  drops :
      (now : ℕ) (k : K) (i : ℕ) (m : Map K ℕ) (l : Lru K V) (x : Element K V) (a : Lru K V)
      (cs : List (Callback K V))
      → find_id i l.list ≡ some x
      → is_expired now x.entry ≡ true
      → clear_expired_from dec now m ((remove_element dec l x).0) ≡ some (a, cs)
      → clear_expired_from dec now ((k, i) ∷ m) l
        ≡ some (a, on_remove x.entry.key x.entry.value ∷ cs)
  unfolding clear_expired_from remove_element
  drops now k i m l x a cs h b r = rw (h, clear_expired_from, b, r, b) refl

  sweeps :
      (now : ℕ) (m : Map K ℕ) (l : Lru K V)
      → IsMap dec m
      → Valid dec l
      → ((j : K) (i : ℕ) → lookup dec j m ≡ some i → id_of dec j l.list ≡ some i)
      → Swept now m l
  unfolding remove_element lookup clear_expired_from removals
  sweeps now [] l ok v h = record {
    after = l;
    callbacks = [];
    returns = refl;
    valid = v;
    is_alive = refl;
    is_kept = λ j e k. k;
    is_swept = λ j i e no. cc;
    are_removals = tt;
    is_left = refl;
    is_capacity = refl;
    is_timeout = refl;
  }
  sweeps now ((k, i) ∷ m) l (new, ok) v h =
      let here : id_of dec k l.list ≡ some i = h k i (ground (arith, same_refl dec k)) in
      let f = id_of-Found dec k i l.list v.ids here in
      let apart : (j : K) (i' : ℕ) → lookup dec j m ≡ some i' → same dec k j ≡ false =
        (λ j i' at_j. ground (arith, same→eq dec k j)) in
      elim (Bool-cases (is_expired now f.element.entry)) [
        | inr live ↦
            let r = sweeps now m l ok v (λ j i' at_j. h j i' (rw (apart j i' at_j) at_j)) in
            record {
              after = r.after;
              callbacks = r.callbacks;
              returns = skips now k i m l f.element r.after r.callbacks f.found live r.returns;
              valid = r.valid;
              is_alive = r.is_alive;
              is_kept = r.is_kept;
              is_swept = λ j i' e at_j kept. elim (Bool-cases (same dec k j)) [
                | inl hit ↦ cc (r.is_kept j e kept, f.entry, live, same→eq dec k j hit)
                | inr miss ↦ r.is_swept j i' e (rw miss at at_j) kept
              ];
              are_removals = r.are_removals;
              is_left = r.is_left;
              is_capacity = r.is_capacity;
              is_timeout = r.is_timeout;
            }
        | inl old ↦
            let l' = (remove_element dec l f.element).0 in
            let r = sweeps now m l' ok (remove_element-Valid dec l k i v here f) (λ j i' at_j.
              there j k i i' l v here (apart j i' at_j) (h j i' (rw (apart j i' at_j) at_j)) f) in
            let gone : find_key dec k (entries l'.list) ≡ none = gone_after l k i v f in
            record {
              after = r.after;
              callbacks = on_remove f.element.entry.key f.element.entry.value ∷ r.callbacks;
              returns = drops now k i m l f.element r.after r.callbacks f.found old r.returns;
              valid = r.valid;
              is_alive =
                  r.is_alive
                  ∙ ap (alive now) (shorter l k i f)
                  ∙ alive-erase_key dec now k f.element.entry (entries l.list) f.entry old;
              is_kept = λ j e kept.
                  find_key-erase_key dec j k e (entries l.list) v.keys
                    (ap (find_key dec j) (sym (shorter l k i f)) ∙ r.is_kept j e kept);
              is_swept = λ j i' e at_j kept. elim (Bool-cases (same dec k j)) [
                | inl hit ↦ cc (r.is_kept j e kept, gone, same→eq dec k j hit)
                | inr miss ↦ r.is_swept j i' e (rw miss at at_j) kept
              ];
              are_removals = (
                (f.element.entry, rw f.is_key f.entry, refl),
                rw (f.is_key, sym (shorter l k i f)) r.are_removals,
              );
              is_left = r.is_left ∙ rw (f.is_key, shorter l k i f) refl;
              is_capacity = r.is_capacity;
              is_timeout = r.is_timeout;
            }
      ]

  pub record Cleared (l : Lru K V) (now : ℕ) : Type ℓ where
    pub callbacks : List (Callback K V)
    pub refines : Refines dec l (clear_expired dec l now) (alive now (entries l.list)) callbacks
    pub are_removals : AreRemovals dec (entries l.list) callbacks
    pub is_left : entries refines.after.list ≡ removals dec (entries l.list) callbacks

  -- Every key of the entries is in the mapping, so that the loop leaves no expired entry.
  pub clear_expired-alive : (l : Lru K V) (now : ℕ) → Valid dec l → Cleared l now
  unfolding clear_expired
  clear_expired-alive l now v =
      let r = sweeps now l.mapping l v.one_each v (λ j i at_j. sym (v.agree j) ∙ at_j) in
      record {
        callbacks = r.callbacks;
        refines = record {
          after = r.after;
          returns = r.returns;
          valid = r.valid;
          is_entries =
              sym (
                alive-all dec now (entries r.after.list) r.valid.keys (λ j e kept.
                  elim (mapped-cases dec l j v) [
                    | inl (missing, none_there) ↦ cc (r.is_kept j e kept)
                    | inr (i, at_j, id, f) ↦ r.is_swept j i e at_j kept
                  ]))
              ∙ r.is_alive;
          is_capacity = r.is_capacity;
          is_timeout = r.is_timeout;
        };
        are_removals = r.are_removals;
        is_left = r.is_left;
      }
