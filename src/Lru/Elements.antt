-- ===== src/Lru/Elements.antt =====
-- The list's elements, found by their numbers, against the entries, found by their keys.
use yuhaiin.Prelude.{
  ℕ, suc, ◌<◌, ◌≡◌, refl, ap, Bool, true, false, ◌||◌, Option, none, some, List, [], ◌∷◌, arith,
  ◌==◌, if◌then◌else◌, length, same, same→eq, same_refl, Bool-cases, inl, inr,
}
use yuhaiin.Lru.{LruEntry, Element, find_id, remove_id}
use yuhaiin.Lru.Recency.{find_key, has_key, erase_key, DistinctKeys}

module _ {ℓ} {K V : Type ℓ} where
  unfoldable pub entries : List (Element K V) → List (LruEntry K V)
  entries [] = []
  entries (x ∷ xs) = x.entry ∷ entries xs

  pub length-entries : (xs : List (Element K V)) → length (entries xs) ≡ length xs
  unfolding entries
  length-entries [] = refl
  length-entries (x ∷ xs) = omega (arith, length-entries xs)

  unfoldable pub has_id : ℕ → List (Element K V) → Bool
  has_id i [] = false
  has_id i (x ∷ xs) = (x.id == i) || has_id i xs

  abbrev pub DistinctIds : List (Element K V) → Type 0
  DistinctIds [] = Unit
  DistinctIds (x ∷ xs) = (has_id x.id xs ≡ false) × DistinctIds xs

  abbrev pub AllBelow : ℕ → List (Element K V) → Type 0
  AllBelow n [] = Unit
  AllBelow n (x ∷ xs) = (x.id < n) × AllBelow n xs

  pub AllBelow-suc : (n : ℕ) (xs : List (Element K V)) → AllBelow n xs → AllBelow (suc n) xs
  AllBelow-suc n [] h = tt
  AllBelow-suc n (x ∷ xs) (lt, h) = (omega arith, AllBelow-suc n xs h)

  pub AllBelow-fresh : (n : ℕ) (xs : List (Element K V)) → AllBelow n xs → has_id n xs ≡ false
  unfolding has_id
  AllBelow-fresh n [] h = refl
  AllBelow-fresh n (x ∷ xs) (lt, h) = ground (arith, AllBelow-fresh n xs h)

  pub AllBelow-remove_id :
      (n i : ℕ) (xs : List (Element K V)) → AllBelow n xs → AllBelow n (remove_id i xs)
  unfolding remove_id
  AllBelow-remove_id n i [] h = tt
  AllBelow-remove_id n i (x ∷ xs) (lt, h) = elim (Bool-cases (x.id == i)) [
    | inl hit ↦ rw hit h
    | inr miss ↦ rw miss ((lt, AllBelow-remove_id n i xs h))
  ]

  pub has_id-remove_id :
      (i j : ℕ) (xs : List (Element K V)) → has_id j xs ≡ false → has_id j (remove_id i xs) ≡ false
  unfolding has_id remove_id
  has_id-remove_id i j [] h = refl
  has_id-remove_id i j (x ∷ xs) h = ground (arith, has_id-remove_id i j xs)

  pub has_id-remove_id_self :
      (i : ℕ) (xs : List (Element K V)) → DistinctIds xs → has_id i (remove_id i xs) ≡ false
  unfolding has_id remove_id
  has_id-remove_id_self i [] d = refl
  has_id-remove_id_self i (x ∷ xs) (h, d) = ground (arith, has_id-remove_id_self i xs d)

  pub remove_id-DistinctIds :
      (i : ℕ) (xs : List (Element K V)) → DistinctIds xs → DistinctIds (remove_id i xs)
  unfolding remove_id
  remove_id-DistinctIds i [] d = tt
  remove_id-DistinctIds i (x ∷ xs) (h, d) = elim (Bool-cases (x.id == i)) [
    | inl hit ↦ rw hit d
    | inr miss ↦ rw miss ((has_id-remove_id i x.id xs h, remove_id-DistinctIds i xs d))
  ]

  elsewhere :
      (x : Element K V) (i : ℕ) (xs : List (Element K V))
      → has_id x.id xs ≡ false
      → has_id i xs ≡ true
      → (x.id == i) ≡ false
  elsewhere x i xs fresh there = ground arith

module _ {ℓ} {K V : Type ℓ} (dec : Discrete K) where
  -- The number of the element with a key.
  unfoldable pub id_of : K → List (Element K V) → Option ℕ
  id_of k [] = none
  id_of k (x ∷ xs) = if same dec x.entry.key k then some x.id else id_of k xs

  pub id_of-none :
      (k : K) (xs : List (Element K V)) → id_of k xs ≡ none → find_key dec k (entries xs) ≡ none
  unfolding id_of find_key entries
  id_of-none k [] h = refl
  id_of-none k (x ∷ xs) h = ground (arith, id_of-none k xs)

  pub has_key-id_of :
      (k : K) (xs : List (Element K V)) → has_key dec k (entries xs) ≡ false → id_of k xs ≡ none
  unfolding id_of has_key entries
  has_key-id_of k [] h = refl
  has_key-id_of k (x ∷ xs) h = ground (arith, has_key-id_of k xs)

  has_id-id_of :
      (k : K) (i : ℕ) (xs : List (Element K V)) → id_of k xs ≡ some i → has_id i xs ≡ true
  unfolding id_of has_id
  has_id-id_of k i [] h = cc
  has_id-id_of k i (x ∷ xs) h = ground (arith, has_id-id_of k i xs)

  -- The element that a key's number leads to is the key's, and its removal is that of the key.
  pub record Found (k : K) (i : ℕ) (xs : List (Element K V)) : Type ℓ where
    pub element : Element K V
    pub found : find_id i xs ≡ some element
    pub is_id : element.id ≡ i
    pub is_key : element.entry.key ≡ k
    pub entry : find_key dec k (entries xs) ≡ some element.entry
    pub removed : entries (remove_id i xs) ≡ erase_key dec k (entries xs)

  pub id_of-Found :
      (k : K) (i : ℕ) (xs : List (Element K V))
      → DistinctIds xs
      → id_of k xs ≡ some i
      → Found k i xs
  unfolding id_of find_id remove_id find_key erase_key entries
  id_of-Found k i [] d h = cc
  id_of-Found k i (x ∷ xs) (fresh, d) h = elim (Bool-cases (same dec x.entry.key k)) [
    | inl hit ↦
        let is_it : x.id ≡ i = cc (rw hit at h) in
        let here : (x.id == i) ≡ true = ground arith in
        record {
          element = x;
          found = rw here refl;
          is_id = is_it;
          is_key = same→eq dec x.entry.key k hit;
          entry = rw hit refl;
          removed = rw (hit, here) refl;
        }
    | inr miss ↦
        let h' : id_of k xs ≡ some i = rw miss at h in
        let f = id_of-Found k i xs d h' in
        let other : (x.id == i) ≡ false = elsewhere x i xs fresh (has_id-id_of k i xs h') in
        record {
          element = f.element;
          found = rw other f.found;
          is_id = f.is_id;
          is_key = f.is_key;
          entry = rw miss f.entry;
          removed = rw (miss, other) (ap (λ es. x.entry ∷ es) f.removed);
        }
  ]

  pub id_of-remove_id :
      (k j : K) (i : ℕ) (xs : List (Element K V))
      → DistinctIds xs
      → DistinctKeys dec (entries xs)
      → id_of k xs ≡ some i
      → id_of j (remove_id i xs) ≡ (if same dec k j then none else id_of j xs)
  unfolding id_of remove_id entries
  id_of-remove_id k j i [] d e h = cc
  id_of-remove_id k j i (x ∷ xs) (fresh, d) (new, e) h =
      elim (Bool-cases (same dec x.entry.key k)) [
        | inl hit ↦
            let is_it : x.id ≡ i = cc (rw hit at h) in
            let here : (x.id == i) ≡ true = ground arith in
            let gone : id_of x.entry.key xs ≡ none = has_key-id_of x.entry.key xs new in
            rw here (
              ground (
                arith,
                gone,
                same→eq dec x.entry.key k hit,
                same→eq dec k j,
                same→eq dec x.entry.key j,
                same_refl dec k,
              ))
        | inr miss ↦
            let h' : id_of k xs ≡ some i = rw miss at h in
            let other : (x.id == i) ≡ false = elsewhere x i xs fresh (has_id-id_of k i xs h') in
            rw other (
              ground (
                arith,
                id_of-remove_id k j i xs d e h',
                same→eq dec k j,
                same→eq dec x.entry.key j,
                same_refl dec k,
              ))
      ]
