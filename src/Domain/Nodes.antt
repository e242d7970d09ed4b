-- ===== src/Domain/Nodes.antt =====
-- Which paths lead to a node of the trie.
use yuhaiin.Prelude.{
  ◌≡◌, refl, sym, ap, ◌∙◌, Bool, true, false, ◌&&◌, ◌||◌, Option, none, some, List, [], ◌∷◌,
  same→eq, Bool-cases, inl, inr, or_false, or_true,
}
use yuhaiin.Bytes.{bytes_discrete, Bytes}
use yuhaiin.Domain.{Trie, node, Children, same_label, find, assign, child, or_new, insert_labels}
use yuhaiin.Domain.Maps.{find-assign_self, find-assign_ne}
use yuhaiin.Domain.Rules.{begins}

module _ {ℓ} {A : Type ℓ} where
  -- Whether a path leads to a node.
  unfoldable pub node_at : List Bytes → Trie A → Bool
  node_at [] t = true
  node_at (l ∷ ls) (node vs cs) = elim (find l cs) [ none ↦ false | some t ↦ node_at ls t ]

  unfoldable pub node_under : List Bytes → Option (Trie A) → Bool
  unfolding node_at
  node_under ls none = false
  node_under ls (some t) = node_at ls t

  pub node_at_cons :
      (l : Bytes) (ls : List Bytes) (t : Trie A) → node_at (l ∷ ls) t ≡ node_under ls (child l t)
  unfolding node_at node_under child
  node_at_cons l ls (node vs cs) =
      elim (find l cs)
        as (λ o.
          (elim o as (λ _. Bool) [ none ↦ false | some t ↦ node_at ls t ]) ≡ node_under ls o) [
            | none ↦ refl
            | some t ↦ refl
          ]

module _ {ℓ} {A : Type ℓ} (dec : Discrete A) where
  node_under-or_new :
      (q : Bytes) (qs : List Bytes) (o : Option (Trie A))
      → node_at (q ∷ qs) (or_new o) ≡ node_under (q ∷ qs) o
  unfolding node_under node_at find
  node_under-or_new q qs none = refl
  node_under-or_new q qs (some t) = refl

  step_under :
      (l q : Bytes) (qs ls : List Bytes) (m : A) (cs : Children A)
      → (t' : Trie A)
      → ((r : Bytes) (rs : List Bytes)
          → node_at (r ∷ rs) t' ≡ (node_at (r ∷ rs) (or_new (find l cs)) || begins (r ∷ rs) ls))
      → node_under qs (find q (assign l t' cs))
        ≡ (node_under qs (find q cs) || (same_label l q && begins qs ls))
  step_under l q qs ls m cs t' ih = elim (Bool-cases (same_label l q)) [
    | inl hit ↦
        let e : l ≡ q = same→eq bytes_discrete l q hit in
        rw (hit, ← e, find-assign_self l t' cs) (met qs)
    | inr miss ↦ rw (miss, find-assign_ne q l t' cs miss) (sym (or_false _))
  ]
    where
      met :
          (rs : List Bytes) → node_under rs (some t') ≡ (node_under rs (find l cs) || begins rs ls)
      met [] = unfold node_under node_at begins in or_true _
      met (r ∷ rs) =
          unfold node_under in
          ih r rs ∙ ap (λ b. b || begins (r ∷ rs) ls) (node_under-or_new r rs (find l cs))

  -- Inserting makes the nodes on the rule's path, and no other.
  pub node_at-insert :
      (ls : List Bytes) (m : A) (t : Trie A) (q : Bytes) (qs : List Bytes)
      → node_at (q ∷ qs) (insert_labels dec ls m t) ≡ (node_at (q ∷ qs) t || begins (q ∷ qs) ls)
  unfolding insert_labels begins child
  node_at-insert [] m (node vs cs) q qs = unfold node_at in sym (or_false _)
  node_at-insert (l ∷ ls) m (node vs cs) q qs =
      rw (node_at_cons q qs (node vs cs), node_at_cons q qs (node vs (assign l _ cs)))
        (step_under l q qs ls m cs _ (node_at-insert ls m (or_new (find l cs))))
