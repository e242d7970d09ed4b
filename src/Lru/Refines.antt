-- ===== src/Lru/Refines.antt =====
-- The cache's calls against the reference: on a valid cache no call faults, and the entries become
-- what the reference makes of them.
use yuhaiin.Prelude.{
  ℕ, ◌≡◌, refl, ap, false, not, ◌&&◌, Option, none, some, List, [], ◌∷◌, arith, ◌==◌, ltb, length,
  same, same→eq, same_refl, Bool-cases, Option-cases, inl, inr,
}
use yuhaiin.Lru.{LruEntry, Element, Lru, on_remove, back, remove_element, evict}
use yuhaiin.Lru.Recency.{find_key, erase_key, DistinctKeys, last, drop_last, trim}
use yuhaiin.Lru.Elements.{entries, length-entries, id_of, has_key-id_of, Found, id_of-Found}
use yuhaiin.Lru.Valid.{Valid, remove_element-Valid}

module _ {ℓ} {K V : Type ℓ} (dec : Discrete K) where
  -- The last element is the one its key leads to, and removing its key drops it.
  record Last (x : Element K V) (xs : List (Element K V)) : Type ℓ where
    mapped : id_of dec x.entry.key xs ≡ some x.id
    kept : find_key dec x.entry.key (entries xs) ≡ some x.entry
    is_last : last (entries xs) ≡ some x.entry
    dropped : erase_key dec x.entry.key (entries xs) ≡ drop_last (entries xs)

  one-Last : (x : Element K V) → Last x (x ∷ [])
  unfolding entries id_of find_key erase_key last drop_last
  one-Last x = record {
    mapped = ground (arith, same_refl dec x.entry.key);
    kept = ground (arith, same_refl dec x.entry.key);
    is_last = refl;
    dropped = ground (arith, same_refl dec x.entry.key);
  }

  back-Last :
      (x : Element K V) (xs : List (Element K V))
      → DistinctKeys dec (entries xs)
      → back xs ≡ some x
      → Last x xs
  unfolding back entries id_of find_key erase_key last drop_last
  back-Last x [] d h = cc
  back-Last x (y ∷ []) d h = let is_it : y ≡ x = cc in rw is_it (one-Last x)
  back-Last x (y ∷ z ∷ zs) (new, d) h =
      let r = back-Last x (z ∷ zs) d h in
      let other : same dec y.entry.key x.entry.key ≡ false = ground (
        arith,
        same→eq dec y.entry.key x.entry.key,
        has_key-id_of dec y.entry.key (z ∷ zs) new,
        r.mapped,
      ) in
      record {
        mapped = rw other r.mapped;
        kept = rw other r.kept;
        is_last = r.is_last;
        dropped = rw other (ap (λ es. y.entry ∷ es) r.dropped);
      }

  back-none : (xs : List (Element K V)) → back xs ≡ none → length xs ≡ 0
  unfolding back
  back-none [] h = refl
  back-none (x ∷ []) h = cc
  back-none (x ∷ y ∷ ys) h = cc (back-none (y ∷ ys) h)

  -- A call's result on `l`: it does not fault, it returns `cs`, and the entries after it are `es`.
  pub record Refines (l : Lru K V) {R : Type ℓ} (r : Option (Lru K V × R))
      (es : List (LruEntry K V)) (cs : R) : Type ℓ where
    pub after : Lru K V
    pub returns : r ≡ some (after, cs)
    pub valid : Valid dec after
    pub is_entries : entries after.list ≡ es
    pub is_capacity : after.capacity ≡ l.capacity
    pub is_timeout : after.timeout ≡ l.timeout

  pub removes :
      (l : Lru K V) (k : K) (i : ℕ)
      → Valid dec l
      → id_of dec k l.list ≡ some i
      → (f : Found dec k i l.list)
      → Refines l
          (some (remove_element dec l f.element))
          (erase_key dec k (entries l.list))
          (on_remove f.element.entry.key f.element.entry.value ∷ [])
  unfolding remove_element
  removes l k i v h f = record {
    after = (remove_element dec l f.element).0;
    returns = refl;
    valid = remove_element-Valid dec l k i v h f;
    is_entries = rw f.is_id f.removed;
    is_capacity = refl;
    is_timeout = refl;
  }

  evicts :
      (l : Lru K V) (x : Element K V)
      → Valid dec l
      → Last x l.list
      → Refines l
          (some (remove_element dec l x))
          (drop_last (entries l.list))
          (on_remove x.entry.key x.entry.value ∷ [])
  evicts l x v r =
      let f = id_of-Found dec x.entry.key x.id l.list v.ids r.mapped in
      let is_entry : f.element.entry ≡ x.entry = cc (f.entry, r.kept) in
      let is_it : f.element ≡ x = (λ j. record { id = f.is_id j; entry = is_entry j }) in
      let done = removes l x.entry.key x.id v r.mapped f in rw (is_it, r.dropped) at done

  pub evict-trim :
      (l : Lru K V)
      → Valid dec l
      → Refines l
          (evict dec l)
          ((trim l.capacity (entries l.list)).0)
          ((trim l.capacity (entries l.list)).1)
  unfolding evict trim
  evict-trim l v =
      rw (length-entries l.list)
        (elim (Bool-cases (not (l.capacity == 0) && ltb l.capacity (length l.list))) [
          | inr within ↦ rw within (record {
            after = l;
            returns = refl;
            valid = v;
            is_entries = refl;
            is_capacity = refl;
            is_timeout = refl;
          })
          | inl over ↦ elim (Option-cases (back l.list)) [
            | inl empty ↦ ground (arith, back-none l.list empty)
            | inr (x, h) ↦
                let r = back-Last x l.list v.keys h in rw (over, h, r.is_last) (evicts l x v r)
          ]
        ])
