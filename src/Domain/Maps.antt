-- ===== src/Domain/Maps.antt =====
-- The laws of the map of children, and where the values of a trie stand.
use yuhaiin.Prelude.{
  ◌≡◌, refl, sym, ap, ◌∙◌, Bool, true, false, ◌&&◌, ◌||◌, Option, none, some, List, [], ◌∷◌, arith,
  contains, same, contains-add_new, inl, inr, same_refl, same→eq, Bool-cases, or_false, and_assoc,
}
use yuhaiin.Bytes.{bytes_discrete, Bytes}
use yuhaiin.Domain.{
  Trie, node, Children, end, entry, same_label, find, assign, child, or_new, insert_labels,
}

module _ {ℓ} {A : Type ℓ} where
  pub find-assign_self :
      (k : Bytes) (t : Trie A) (cs : Children A) → find k (assign k t cs) ≡ some t
  unfolding find assign
  find-assign_self k t end = ground (arith, same_refl bytes_discrete k)
  find-assign_self k t (entry i u cs) = ground (arith, find-assign_self k t cs)

  pub find-assign_ne :
      (k j : Bytes) (t : Trie A) (cs : Children A)
      → same_label j k ≡ false
      → find k (assign j t cs) ≡ find k cs
  unfolding find assign
  find-assign_ne k j t end h = ground arith
  find-assign_ne k j t (entry i u cs) h =
      ground (arith, find-assign_ne k j t cs h, same→eq bytes_discrete i j)

-- Equality of two paths.
unfoldable pub eq_path : List Bytes → List Bytes → Bool
eq_path [] [] = true
eq_path [] (l ∷ ls) = false
eq_path (k ∷ ks) [] = false
eq_path (k ∷ ks) (l ∷ ls) = same_label k l && eq_path ks ls

module _ {ℓ} {A : Type ℓ} where
  -- The values at the end of a path.
  unfoldable pub values_at : List Bytes → Trie A → List A
  values_at [] (node vs cs) = vs
  values_at (l ∷ ls) (node vs cs) = elim (find l cs) [ none ↦ [] | some t ↦ values_at ls t ]

  -- The same below a child that may be missing.
  unfoldable pub values_under : List Bytes → Option (Trie A) → List A
  unfolding values_at
  values_under ls none = []
  values_under ls (some t) = values_at ls t

  pub values_at_cons :
      (l : Bytes) (ls : List Bytes) (t : Trie A)
      → values_at (l ∷ ls) t ≡ values_under ls (child l t)
  unfolding values_at values_under child
  values_at_cons l ls (node vs cs) =
      elim (find l cs)
        as (λ o.
          (elim o as (λ _. List A) [ none ↦ [] | some t ↦ values_at ls t ]) ≡ values_under ls o) [
            | none ↦ refl
            | some t ↦ refl
          ]

module _ {ℓ} {A : Type ℓ} (dec : Discrete A) where
  pub values_at-new : (qs : List Bytes) → values_at {A = A} qs (node [] end) ≡ []
  unfolding values_at find
  values_at-new [] = refl
  values_at-new (q ∷ qs) = refl

  under-or_new :
      (qs : List Bytes) (o : Option (Trie A)) → values_at qs (or_new o) ≡ values_under qs o
  unfolding values_under
  under-or_new qs none = values_at-new qs
  under-or_new qs (some t) = refl

  -- What a new assignment shows under a label.
  under-assign :
      (l q : Bytes) (qs : List Bytes) (t' : Trie A) (cs : Children A) (x : A) (b : Bool)
      → contains dec (values_at qs t') x ≡ (contains dec (values_at qs (or_new (find l cs))) x || b)
      → contains dec (values_under qs (find q (assign l t' cs))) x
        ≡ (contains dec (values_under qs (find q cs)) x || (same_label l q && b))
  under-assign l q qs t' cs x b ih = elim (Bool-cases (same_label l q)) [
    | inl hit ↦
        let e : l ≡ q = same→eq bytes_discrete l q hit in
        rw (hit, ← e, find-assign_self l t' cs)
          (unfold values_under in
            ih ∙ ap (λ vs. contains dec vs x || b) (under-or_new qs (find l cs)))
    | inr miss ↦ rw (miss, find-assign_ne q l t' cs miss) (sym (or_false _))
  ]

  -- Inserting changes the values at the end of the rule's own path, and nowhere else.
  pub values_at-insert :
      (ls : List Bytes) (m : A) (t : Trie A) (qs : List Bytes) (x : A)
      → contains dec (values_at qs (insert_labels dec ls m t)) x
        ≡ (contains dec (values_at qs t) x || (eq_path ls qs && same dec m x))
  unfolding insert_labels eq_path child
  values_at-insert [] m (node vs cs) [] x = unfold values_at in contains-add_new dec m vs x
  values_at-insert [] m (node vs cs) (q ∷ qs) x = unfold values_at in ground arith
  values_at-insert (l ∷ ls) m (node vs cs) [] x = unfold values_at in ground arith
  values_at-insert (l ∷ ls) m (node vs cs) (q ∷ qs) x =
      rw (values_at_cons q qs (node vs cs), values_at_cons q qs (node vs (assign l _ cs)))
        (under-assign l q qs _ cs x _ (values_at-insert ls m (or_new (find l cs)) qs x)
          ∙ ap (λ b. contains dec (values_under qs (find q cs)) x || b)
              (sym (and_assoc (same_label l q) (eq_path ls qs) (same dec m x))))
