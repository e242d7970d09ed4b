-- ===== src/Domain/Queries.antt =====
-- What a query finds after a batch of insertions.
use mathlib.Core.List.{reverse}
use yuhaiin.Prelude.{◌≡◌, refl, sym, ap, ◌∙◌, subst, ℕ, List, [], ◌∷◌, contains, map}
use yuhaiin.Bytes.{Bytes, split}
use yuhaiin.Domain.{
  Fqdn, new_fqdn, insert_labels, insert, batch, search_string, domain_labels, search,
}
use yuhaiin.Domain.Labels.{or_empty, domain_labels_lem}
use yuhaiin.Domain.Rules.{Table, lookup}
use yuhaiin.Domain.Lookup.{Stands, new_trie-Stands, insert-Stands, search-lookup}

-- A name's labels from the top: its parts between the dots, last one first.
pub path : Bytes → List Bytes
path name = map or_empty (reverse (split b'.' name))

labels_path :
    (name : Bytes) (separate : ℕ) → separate ≡ b'.' → domain_labels name separate ≡ path name
unfolding path
labels_path name separate dot = ap (domain_labels name) dot ∙ domain_labels_lem name b'.'

module _ {ℓ} {A : Type ℓ} where
  -- The rules of a batch, after those there are; an empty name is no rule.
  unfoldable pub rules : List (Bytes × A) → Table A → Table A
  unfolding path
  rules [] es = es
  rules (([], v) ∷ items) es = rules items es
  rules ((x ∷ xs, v) ∷ items) es = rules items ((path (x ∷ xs), v) ∷ es)

module _ {ℓ} {A : Type ℓ} (dec : Discrete A) where
  insert-root :
      (d : Fqdn A) (es : Table A) (k : ℕ) (ks : Bytes) (v : A)
      → d.separate ≡ b'.'
      → Stands dec d.root es
      → (Stands dec (insert dec d (k ∷ ks) v).root ((path (k ∷ ks), v) ∷ es))
        × ((insert dec d (k ∷ ks) v).separate ≡ b'.')
  unfolding insert path
  insert-root d es k ks v dot s = (
    subst (λ p. Stands dec (insert_labels dec p v d.root) ((path (k ∷ ks), v) ∷ es))
        (sym (labels_path (k ∷ ks) d.separate dot))
        (insert-Stands dec (path (k ∷ ks)) v d.root es s),
    dot,
  )

  batch-Stands :
      (items : List (Bytes × A)) (d : Fqdn A) (es : Table A)
      → d.separate ≡ b'.'
      → Stands dec d.root es
      → (Stands dec (batch dec d items).root (rules items es))
        × ((batch dec d items).separate ≡ b'.')
  unfolding batch rules
  batch-Stands [] d es dot s = (s, dot)
  batch-Stands (([], v) ∷ items) d es dot s = unfold insert in batch-Stands items d es dot s
  batch-Stands ((k ∷ ks, v) ∷ items) d es dot s =
      let one = insert-root d es k ks v dot s in
      batch-Stands items (insert dec d (k ∷ ks) v) ((path (k ∷ ks), v) ∷ es) one.1 one.0

  -- After a batch of insertions into a new matcher, a search for a name finds a mark exactly when the
  -- lookup of the name's labels in the list of the batch's rules finds it: among the rules with the
  -- name's last label, if there is one, some rule with the mark covers the name; if there is none, the
  -- rules that begin with `*` are tried from the name's first suffix that one of them goes on with.
  pub batch-lookup :
      (items : List (Bytes × A)) (name : Bytes) (x : A)
      → contains dec (search_string (batch dec new_fqdn items) name) x
        ≡ lookup dec (rules items []) (path name) x
  unfolding search_string path
  batch-lookup items name x =
      let all = batch-Stands items new_fqdn [] new_dot new_stands in
      ap (λ p. contains dec (search (batch dec new_fqdn items).root p) x)
        (labels_path name (batch dec new_fqdn items).separate all.1)
      ∙ (search-lookup dec (path name) (batch dec new_fqdn items).root (rules items []) x all.0)
    where
      new_dot : (new_fqdn {A = A}).separate ≡ b'.'
      new_dot = unfold new_fqdn in refl

      new_stands : Stands dec (new_fqdn {A = A}).root []
      new_stands = unfold new_fqdn in new_trie-Stands dec
