-- ===== src/Domain/Labels.antt =====
-- The reader yields the parts of the name between the separators, last one first.
use mathlib.Core.List.{reverse, reverse-append}
use yuhaiin.Prelude.{
  ℕ, zero, suc, ◌+◌, ◌≤◌, ◌<◌, ◌≡◌, refl, sym, ap, ◌∙◌, inl, inr, true, false, none, some, List, [],
  ◌∷◌, ◌++◌, map, arith, ◌==◌, if◌then◌else◌, Bool-cases, length, take, drop, length-append,
  length-take, take_of_length-le, take_append, take-take_of_le, drop-append_past,
}
use yuhaiin.Bytes.{Bytes, split}
use yuhaiin.Domain.{Reader, after_last, new_reader, next, value_empty, str, labels, domain_labels}

-- An empty part reads as the byte 3.
unfoldable pub or_empty : Bytes → Bytes
or_empty [] = value_empty
or_empty (x ∷ xs) = x ∷ xs

-- Either there is no separator, or the last one parts the name.
data Parted (c : ℕ) (s : Bytes) : Type 0 where
  whole : after_last c s ≡ 0 → split c s ≡ s ∷ [] → Parted c s
  parted :
      (p q : Bytes)
      → s ≡ p ++ c ∷ q
      → after_last c s ≡ suc (length p)
      → split c s ≡ split c p ++ q ∷ []
      → Parted c s

split_cons : (c : ℕ) (s : Bytes) → (p : Bytes) × (ps : List Bytes) × (split c s ≡ p ∷ ps)
unfolding split
split_cons c [] = ([], [], refl)
split_cons c (x ∷ xs) = elim (Bool-cases (x == c)) [
  | inl hit ↦ ([], split c xs, rw hit)
  | inr miss ↦ let (p, ps, e) = split_cons c xs in (x ∷ p, ps, rw (miss, e))
]

part : (c : ℕ) (s : Bytes) → Parted c s
unfolding after_last split
part c [] = whole refl refl
part c (x ∷ xs) = extend (part c xs)
  where
    extend : Parted c xs → Parted c (x ∷ xs)
    extend (whole none_later one) = elim (Bool-cases (x == c)) [
      | inl hit ↦
          parted [] xs (ap (λ z. z ∷ xs) (ground arith)) (rw none_later (rw hit)) (rw hit (rw one))
      | inr miss ↦ whole (rw none_later (rw miss)) (rw miss (rw one))
    ]
    extend (parted p q e later parts) = elim (Bool-cases (x == c)) [
      | inl hit ↦ parted (x ∷ p) q (ap (◌∷◌ x) e) (ground (arith, later)) (rw hit (rw parts))
      | inr miss ↦
          let (r, rs, first) = split_cons c p in
          parted (x ∷ p) q (ap (◌∷◌ x) e) (ground (arith, later)) (rw miss (rw (parts, first)))
    ]

-- A reader that stands at the end `a` of what is still to be read.
record At (r : Reader) (a : ℕ) : Type 0 where
  stands : r.aft ≡ some a
  parted_there : r.pre ≡ after_last r.separate (take a r.domain)
  inside : a ≤ length r.domain

labels_end : (f : ℕ) (r : Reader) → r.aft ≡ none → labels f r ≡ []
unfolding labels
labels_end zero r e = refl
labels_end (suc f) r e = rw (e, labels)

str_lem :
    (pre a : ℕ) (s q : Bytes)
    → drop pre s ≡ q
    → length q + pre ≡ a
    → (if pre == a then value_empty else drop pre s) ≡ or_empty q
unfolding or_empty
str_lem pre a s [] e size = let met : (pre == a) ≡ true = ground arith in rw met
str_lem pre a s (x ∷ q) e size = let apart : (pre == a) ≡ false = ground arith in rw (apart, e)

module _ (r : Reader) (a : ℕ) (h : At r a) where
  length-rest : length (take a r.domain) ≡ a
  length-rest = omega (arith, length-take a r.domain, h.inside)

  unroll : (f : ℕ) → labels (suc f) r ≡ str r a ∷ labels f (next r)
  unfolding labels
  unroll f = rw (h.stands, labels)

  str_whole : after_last r.separate (take a r.domain) ≡ 0 → str r a ≡ or_empty (take a r.domain)
  unfolding str
  str_whole z =
      let start : r.pre ≡ 0 = h.parted_there ∙ z in
      str_lem r.pre a (take a r.domain) (take a r.domain) (ap (λ n. drop n (take a r.domain)) start)
        (omega (arith, length-rest))

  next_whole : after_last r.separate (take a r.domain) ≡ 0 → (next r).aft ≡ none
  unfolding next
  next_whole z = let start : (r.pre == 0) ≡ true = ground (arith, h.parted_there) in rw start

  module _ (p q : Bytes) (e : take a r.domain ≡ p ++ r.separate ∷ q)
      (z : after_last r.separate (take a r.domain) ≡ suc (length p)) where
    length-parts : length p + suc (length q) ≡ a
    length-parts = omega (arith, ap length e, length-append p (r.separate ∷ q), length-rest)

    str_parted : str r a ≡ or_empty q
    unfolding str
    str_parted =
        let start : r.pre ≡ suc (length p) = h.parted_there ∙ z in
        str_lem r.pre a (take a r.domain) q
          (rw (start, e) (drop-append_past p (r.separate ∷ q) 1 (suc (length p)) (omega arith)))
          (omega (arith, length-parts))

    rest : take (length p) r.domain ≡ p
    rest =
        sym (take-take_of_le (length p) a r.domain (omega (arith, length-parts)))
        ∙ ap (take (length p)) e
        ∙ take_append p (r.separate ∷ q)

    next_parted : At (next r) (length p)
    next_parted = record {
      stands = unfold next in rw there (ap some (ground (arith, h.parted_there)));
      parted_there =
          unfold next in
          rw there
            (ap (λ n. after_last r.separate (take n r.domain)) (ground (arith, h.parted_there)));
      inside = unfold next in rw there (omega (arith, length-parts, h.inside));
    }
      where
        there : (r.pre == 0) ≡ false
        there = ground (arith, h.parted_there)

    separate_next : (next r).separate ≡ r.separate
    unfolding next
    separate_next = ground arith

    domain_next : (next r).domain ≡ r.domain
    unfolding next
    domain_next = ground arith

reverse-snoc : (xs : List Bytes) (x : Bytes) → reverse (xs ++ x ∷ []) ≡ x ∷ reverse xs
reverse-snoc xs x = reverse-append xs (x ∷ [])

labels_rest :
    (f : ℕ) (r : Reader) (a : ℕ)
    → At r a
    → a < f
    → labels f r ≡ map or_empty (reverse (split r.separate (take a r.domain)))
labels_rest zero r a h lt = absurd (omega arith)
labels_rest (suc f) r a h lt =
    unroll r a h f ∙ go (part r.separate (take a r.domain)) (labels_rest f (next r))
  where
    go :
        Parted r.separate (take a r.domain)
        → ((b : ℕ)
            → At (next r) b
            → b < f
            → labels f (next r)
              ≡ map or_empty (reverse (split (next r).separate (take b (next r).domain))))
        → str r a ∷ labels f (next r) ≡ map or_empty (reverse (split r.separate (take a r.domain)))
    go (whole z one) ih = rw (str_whole r a h z, labels_end f (next r) (next_whole r a h z), one)
    go (parted p q e z parts) ih = rw (
      str_parted r a h p q e z,
      ih (length p) (next_parted r a h p q e z) (omega (arith, length-parts r a h p q e z)),
      separate_next r a h p q e z,
      domain_next r a h p q e z,
      rest r a h p q e z,
      parts,
      reverse-snoc (split r.separate p) q,
    )

-- The labels that the trie is given are the parts of the name between its separators (an empty part
-- as the byte 3), in reverse: the reader neither stops early nor runs past the start of the name.
pub domain_labels_lem :
    (domain : Bytes) (separate : ℕ)
    → domain_labels domain separate ≡ map or_empty (reverse (split separate domain))
unfolding domain_labels new_reader
domain_labels_lem domain separate =
    labels_rest (length domain + 1) (new_reader domain separate) (length domain) start (omega arith)
    ∙ ap (λ s. map or_empty (reverse (split separate s))) all
  where
    all : take (length domain) domain ≡ domain
    all = take_of_length-le (length domain) domain (omega arith)

    start : At (new_reader domain separate) (length domain)
    start =
        unfold new_reader in
        record {
          stands = refl;
          parted_there = ap (after_last separate) (sym all);
          inside = omega arith;
        }
