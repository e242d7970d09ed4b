-- ===== src/Domain/Lookup.antt =====
-- A name is looked up in the trie as in the list of rules.
use yuhaiin.Prelude.{
  ◌≡◌, refl, sym, ap, ◌∙◌, false, ◌&&◌, Option, none, some, List, [], ◌∷◌, ◌++◌, contains,
  contains-append, same, if◌then◌else◌, or_comm,
}
use yuhaiin.Bytes.{Bytes}
use yuhaiin.Domain.{
  Trie, node, asterisk, new_trie, value, child, value_of, search_second, search_wildcard, search,
  insert_labels, find,
}
use yuhaiin.Domain.Maps.{
  values_at, values_under, values_at_cons, values_at-new, values_at-insert, eq_path,
}
use yuhaiin.Domain.Nodes.{node_at, node_under, node_at_cons, node_at-insert}
use yuhaiin.Domain.Rules.{
  Table, starts, below, starts-below, has, scan, wild, lookup, has-below, scan_cons, scan-nil,
  begins,
}

module _ {ℓ} {A : Type ℓ} (dec : Discrete A) where
  -- A child, or its absence, stands for a table: its values and its nodes are those of the table.
  record Under (o : Option (Trie A)) (es : Table A) : Type ℓ where
    values : (qs : List Bytes) (x : A) → contains dec (values_under qs o) x ≡ has dec es qs x
    nodes : (qs : List Bytes) → node_under qs o ≡ starts es qs

  -- So does a trie, but for its root, which is always there.
  pub record Stands (t : Trie A) (es : Table A) : Type ℓ where
    pub values : (qs : List Bytes) (x : A) → contains dec (values_at qs t) x ≡ has dec es qs x
    pub nodes : (q : Bytes) (qs : List Bytes) → node_at (q ∷ qs) t ≡ starts es (q ∷ qs)

  child-Under :
      (l : Bytes) (t : Trie A) (es : Table A) → Stands t es → Under (child l t) (below l es)
  child-Under l t es s = record {
    values = λ qs x.
        ap (λ vs. contains dec vs x) (sym (values_at_cons l qs t))
        ∙ s.values (l ∷ qs) x
        ∙ sym (has-below dec l es qs x);
    nodes = λ qs. sym (node_at_cons l qs t) ∙ s.nodes l qs ∙ sym (starts-below l es qs);
  }

  Under-Stands : (t : Trie A) (es : Table A) → Under (some t) es → Stands t es
  Under-Stands t es u = record {
    values = unfold values_under in u.values;
    nodes = λ q qs. unfold node_under in u.nodes (q ∷ qs);
  }

  second_under : Option (Trie A) → List Bytes → List A
  unfolding search_second
  second_under none ls = []
  second_under (some t) ls = search_second t ls

  value_of-values : (o : Option (Trie A)) → value_of o ≡ values_under [] o
  unfolding value_of values_under values_at value
  value_of-values none = refl
  value_of-values (some (node vs cs)) = refl

  second_cons :
      (t : Trie A) (l : Bytes) (ls : List Bytes)
      → search_second t (l ∷ ls) ≡ value_of (child asterisk t) ++ second_under (child l t) ls
  unfolding search_second second_under
  second_cons t l ls =
      elim (child l t)
        as (λ o.
          value_of (child asterisk t)
            ++ (elim o as (λ _. List A) [ none ↦ [] | some r ↦ search_second r ls ])
          ≡ value_of (child asterisk t) ++ second_under o ls) [ none ↦ refl | some r ↦ refl ]

  unrolled :
      (t : Trie A) (l : Bytes) (ls : List Bytes)
      → second_under (some t) (l ∷ ls) ≡ value_of (child asterisk t) ++ second_under (child l t) ls
  unfolding second_under
  unrolled t l ls = second_cons t l ls

  asterisk-has :
      (t : Trie A) (es : Table A) (x : A)
      → Under (some t) es
      → contains dec (value_of (child asterisk t)) x ≡ has dec es (asterisk ∷ []) x
  asterisk-has t es x u =
      ap (λ vs. contains dec vs x)
        (value_of-values (child asterisk t) ∙ sym (values_at_cons asterisk [] t))
      ∙ (Under-Stands t es u).values (asterisk ∷ []) x

  value-has :
      (t : Trie A) (es : Table A) (x : A)
      → Under (some t) es
      → contains dec (value t) x ≡ has dec es [] x
  unfolding value value_of
  value-has t es x u = ap (λ vs. contains dec vs x) (value_of-values (some t)) ∙ u.values [] x

  scan_nothing :
      (ls : List Bytes) (es : Table A) (x : A)
      → ((qs : List Bytes) → has dec es qs x ≡ false)
      → scan dec es ls x ≡ false
  scan_nothing [] es x h = rw (scan-nil dec es x, h [], h (asterisk ∷ []))
  scan_nothing (l ∷ ls) es x h =
      rw (scan_cons dec l es ls x, h (asterisk ∷ []))
        (scan_nothing ls (below l es) x (λ qs. has-below dec l es qs x ∙ h (l ∷ qs)))

  -- The walk down gives what a scan of the table gives.
  second-scan :
      (ls : List Bytes) (o : Option (Trie A)) (es : Table A) (x : A)
      → Under o es
      → contains dec (second_under o ls) x ≡ scan dec es ls x
  second-scan ls none es x u =
      unfold second_under contains in
      sym (scan_nothing ls es x (λ qs. sym (unfold values_under contains in u.values qs x)))
  second-scan [] (some t) es x u =
      unfold second_under search_second in
      contains-append dec (value t) (value_of (child asterisk t)) x
      ∙ rw (value-has t es x u, asterisk-has t es x u) (sym (scan-nil dec es x))
  second-scan (l ∷ ls) (some t) es x u =
      ap (λ vs. contains dec vs x) (unrolled t l ls)
      ∙ contains-append dec (value_of (child asterisk t)) (second_under (child l t) ls) x
      ∙ rw
          (
            asterisk-has t es x u,
            second-scan ls (child l t) (below l es) x (child-Under l t es (Under-Stands t es u)),
          )
          (sym (scan_cons dec l es ls x))

  -- A choice by whether a child is there is a choice by whether a rule goes on.
  some_or :
      (o : Option (Trie A)) (es : Table A) (ls : List Bytes) (other : List A) (x : A)
      → Under o es
      → contains dec (elim o [ none ↦ other | some r ↦ search_second r ls ]) x
        ≡ (if starts es [] then scan dec es ls x else contains dec other x)
  some_or none es ls other x u = rw (sym (u.nodes [])) (unfold node_under in refl)
  some_or (some r) es ls other x u = rw (sym (u.nodes [])) (unfold node_under node_at in below_lem)
    where
      below_lem : contains dec (search_second r ls) x ≡ scan dec es ls x
      below_lem = unfold second_under in second-scan ls (some r) es x u

  child_or :
      (l : Bytes) (t : Trie A) (es : Table A) (ls : List Bytes) (other : List A) (x : A)
      → Stands t es
      → contains dec (elim (child l t) [ none ↦ other | some r ↦ search_second r ls ]) x
        ≡ (if starts es (l ∷ []) then scan dec (below l es) ls x else contains dec other x)
  child_or l t es ls other x s =
      some_or (child l t) (below l es) ls other x (child-Under l t es s)
      ∙ ap (λ b. if b then scan dec (below l es) ls x else contains dec other x)
          (starts-below l es [])

  no_wild :
      (ls : List Bytes) (es : Table A) (x : A)
      → ((qs : List Bytes) → starts es qs ≡ false)
      → wild dec es ls x ≡ false
  unfolding wild
  no_wild [] es x h = refl
  no_wild (l ∷ ls) es x h = rw (h (l ∷ [])) (no_wild ls es x h)

  -- The search under the asterisk takes the first label that goes on.
  wildcard-wild :
      (ls : List Bytes) (t : Trie A) (es : Table A) (x : A)
      → Stands t es
      → contains dec (search_wildcard t ls) x ≡ wild dec es ls x
  unfolding search_wildcard wild
  wildcard-wild [] t es x s = unfold contains in refl
  wildcard-wild (l ∷ ls) t es x s =
      child_or l t es ls (search_wildcard t ls) x s
      ∙ ap (λ b. if starts es (l ∷ []) then scan dec (below l es) ls x else b)
          (wildcard-wild ls t es x s)

  asterisk-wild :
      (ls : List Bytes) (o : Option (Trie A)) (es : Table A) (x : A)
      → Under o es
      → contains dec (elim o [ none ↦ [] | some r ↦ search_wildcard r ls ]) x ≡ wild dec es ls x
  asterisk-wild ls none es x u =
      unfold contains in sym (no_wild ls es x (λ qs. sym (unfold node_under in u.nodes qs)))
  asterisk-wild ls (some r) es x u = wildcard-wild ls r es x (Under-Stands r es u)

  -- A trie that stands for a table finds what the table's lookup finds.
  pub search-lookup :
      (ls : List Bytes) (t : Trie A) (es : Table A) (x : A)
      → Stands t es
      → contains dec (search t ls) x ≡ lookup dec es ls x
  unfolding search lookup
  search-lookup [] t es x s = unfold contains in refl
  search-lookup (l ∷ ls) t es x s =
      child_or l t es ls _ x s
      ∙ ap (λ b. if starts es (l ∷ []) then scan dec (below l es) ls x else b)
          (asterisk-wild (l ∷ ls) (child asterisk t) (below asterisk es) x
            (child-Under asterisk t es s))

  pub new_trie-Stands : Stands new_trie []
  unfolding new_trie has starts node_at find contains
  new_trie-Stands = record {
    values = λ qs x. ap (λ vs. contains dec vs x) (values_at-new dec qs);
    nodes = λ q qs. refl;
  }

  -- Inserting a rule puts it on the table.
  pub insert-Stands :
      (ls : List Bytes) (m : A) (t : Trie A) (es : Table A)
      → Stands t es
      → Stands (insert_labels dec ls m t) ((ls, m) ∷ es)
  unfolding has starts
  insert-Stands ls m t es s = record {
    values = λ qs x.
        values_at-insert dec ls m t qs x
        ∙ rw (s.values qs x) (or_comm (has dec es qs x) (eq_path ls qs && same dec m x));
    nodes = λ q qs.
        node_at-insert dec ls m t q qs
        ∙ rw (s.nodes q qs) (or_comm (starts es (q ∷ qs)) (begins (q ∷ qs) ls));
  }
