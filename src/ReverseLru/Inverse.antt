-- ===== src/ReverseLru/Inverse.antt =====
-- A map from values to keys as the inverse of the cache's entries.
use yuhaiin.Prelude.{
  ◌≡◌, ◌≢◌, refl, sym, ap, ◌∙◌, false, Option, none, some, List, [], ◌∷◌, arith, if◌then◌else◌,
  same, same→eq, same_refl, Bool-cases, inl, inr, Map, lookup, erase, assign, lookup-erase,
  lookup-assign,
}
use yuhaiin.Lru.{LruEntry}
use yuhaiin.Lru.Recency.{find_key, erase_key}

module _ {ℓ} {K V : Type ℓ} (dec_value : Discrete V) where
  -- The key of the first entry with a value.
  unfoldable pub key_of : V → List (LruEntry K V) → Option K
  key_of v [] = none
  key_of v (e ∷ es) = if same dec_value e.value v then some e.key else key_of v es

  abbrev pub DistinctValues : List (LruEntry K V) → Type ℓ
  DistinctValues [] = Unit
  DistinctValues (e ∷ es) = (key_of e.value es ≡ none) × DistinctValues es

  -- Every entry's value leads to its key, no other value to any, and no two entries have one value.
  pub record Inverse (m : Map V K) (es : List (LruEntry K V)) : Type ℓ where
    pub agree : (v : V) → lookup dec_value v m ≡ key_of v es
    pub distinct : DistinctValues es

  pub Inverse-new : Inverse [] []
  unfolding lookup key_of
  Inverse-new = record { agree = λ v. refl; distinct = tt }

  -- A new first entry, with a value that no entry has, whatever the map had for the value.
  pub Inverse-set :
      (m : Map V K) (e : LruEntry K V) (es : List (LruEntry K V))
      → ((w : V) → same dec_value e.value w ≡ false → lookup dec_value w m ≡ key_of w es)
      → DistinctValues es
      → key_of e.value es ≡ none
      → Inverse (assign dec_value e.value e.key m) (e ∷ es)
  unfolding key_of
  Inverse-set m e es h d new = record {
    agree = λ w. elim (Bool-cases (same dec_value e.value w)) [
      | inl hit ↦ lookup-assign dec_value e.value w e.key m ∙ rw hit refl
      | inr miss ↦ lookup-assign dec_value e.value w e.key m ∙ rw miss (h w miss)
    ];
    distinct = (new, d);
  }

  pub Inverse-assign :
      (m : Map V K) (e : LruEntry K V) (es : List (LruEntry K V))
      → Inverse m es
      → key_of e.value es ≡ none
      → Inverse (assign dec_value e.value e.key m) (e ∷ es)
  Inverse-assign m e es h new = Inverse-set m e es (λ w miss. h.agree w) h.distinct new

module _ {ℓ} {K V : Type ℓ} (dec : Discrete K) (dec_value : Discrete V) where
  pub find_key-key_of :
      (k : K) (e : LruEntry K V) (es : List (LruEntry K V))
      → find_key dec k es ≡ some e
      → key_of dec_value e.value es ≢ none
  unfolding find_key key_of
  find_key-key_of k e [] h = λ no_key. cc
  find_key-key_of k e (x ∷ xs) h =
      ground (arith, find_key-key_of k e xs, same_refl dec_value e.value)

  pub key_of-erase_key :
      (k : K) (e : LruEntry K V) (w : V) (es : List (LruEntry K V))
      → DistinctValues dec_value es
      → find_key dec k es ≡ some e
      → key_of dec_value w (erase_key dec k es)
        ≡ (if same dec_value e.value w then none else key_of dec_value w es)
  unfolding key_of find_key erase_key
  key_of-erase_key k e w [] d h = cc
  key_of-erase_key k e w (x ∷ xs) (new, d) h = elim (Bool-cases (same dec x.key k)) [
    | inl hit ↦
        let is_it : x ≡ e = cc (rw hit at h) in
        rw (hit, sym is_it) (ground (arith, new, same→eq dec_value x.value w))
    | inr miss ↦
        let h' : find_key dec k xs ≡ some e = rw miss at h in
        let there = find_key-key_of k e xs h' in
        rw miss (
          ground (
            arith,
            key_of-erase_key k e w xs d h',
            there,
            new,
            same→eq dec_value x.value w,
            same→eq dec_value e.value w,
          ))
  ]

  pub key_of-erase_key-none :
      (k : K) (w : V) (es : List (LruEntry K V))
      → key_of dec_value w es ≡ none
      → key_of dec_value w (erase_key dec k es) ≡ none
  unfolding key_of erase_key
  key_of-erase_key-none k w [] h = refl
  key_of-erase_key-none k w (x ∷ xs) h = ground (arith, key_of-erase_key-none k w xs)

  DistinctValues-erase_key :
      (k : K) (es : List (LruEntry K V))
      → DistinctValues dec_value es
      → DistinctValues dec_value (erase_key dec k es)
  unfolding erase_key
  DistinctValues-erase_key k [] d = tt
  DistinctValues-erase_key k (x ∷ xs) (new, d) = elim (Bool-cases (same dec x.key k)) [
    | inl hit ↦ rw hit d
    | inr miss ↦ rw miss ((key_of-erase_key-none k x.value xs new, DistinctValues-erase_key k xs d))
  ]

  -- The entry of a key goes, and its value with it.
  pub Inverse-erase :
      (m : Map V K) (k : K) (e : LruEntry K V) (es : List (LruEntry K V))
      → Inverse dec_value m es
      → find_key dec k es ≡ some e
      → Inverse dec_value (erase dec_value e.value m) (erase_key dec k es)
  Inverse-erase m k e es h found = record {
    agree = λ w.
        lookup-erase dec_value e.value w m
        ∙ ap (λ o. if same dec_value e.value w then none else o) (h.agree w)
        ∙ sym (key_of-erase_key k e w es h.distinct found);
    distinct = DistinctValues-erase_key k es h.distinct;
  }

  -- The value of the erased entry is free.
  pub key_of-erase_key_self :
      (k : K) (e : LruEntry K V) (es : List (LruEntry K V))
      → DistinctValues dec_value es
      → find_key dec k es ≡ some e
      → key_of dec_value e.value (erase_key dec k es) ≡ none
  key_of-erase_key_self k e es d found =
      key_of-erase_key k e e.value es d found ∙ rw (same_refl dec_value e.value) refl

  pub key_of-found :
      (k : K) (e : LruEntry K V) (es : List (LruEntry K V))
      → DistinctValues dec_value es
      → find_key dec k es ≡ some e
      → key_of dec_value e.value es ≡ some e.key
  unfolding key_of find_key
  key_of-found k e [] d h = cc
  key_of-found k e (x ∷ xs) (new, d) h = elim (Bool-cases (same dec x.key k)) [
    | inl hit ↦ let is_it : x ≡ e = cc (rw hit at h) in rw (is_it, same_refl dec_value e.value) refl
    | inr miss ↦
        let h' : find_key dec k xs ≡ some e = rw miss at h in
        ground (arith, key_of-found k e xs d h', new, same→eq dec_value x.value e.value)
  ]

  -- The entry of a key, with another expiry, in front.
  pub Inverse-front :
      (m : Map V K) (k : K) (e e' : LruEntry K V) (es : List (LruEntry K V))
      → Inverse dec_value m es
      → find_key dec k es ≡ some e
      → e'.key ≡ e.key
      → e'.value ≡ e.value
      → Inverse dec_value m (e' ∷ erase_key dec k es)
  unfolding key_of
  Inverse-front m k e e' es h found is_key is_value = record {
    agree = λ w.
        h.agree w
        ∙ rw (is_key, is_value)
            (ground (
              arith,
              key_of-erase_key k e w es h.distinct found,
              key_of-found k e es h.distinct found,
              same→eq dec_value e.value w,
            ));
    distinct = (
      rw is_value (key_of-erase_key_self k e es h.distinct found),
      DistinctValues-erase_key k es h.distinct,
    );
  }
