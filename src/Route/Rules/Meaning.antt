-- ===== src/Route/Rules/Meaning.antt =====
-- The compiled matcher against what the rule means.
use text.Mathlib.Text.{◌==◌ as ◌≟◌}
use Prim.Native.String.{String}
use yuhaiin.Prelude.{
  ◌≡◌, refl, sym, ap, ◌∙◌, Bool, true, false, ◌&&◌, Option, none, some, List, [], ◌∷◌,
  if◌then◌else◌, Bool-cases, inl, inr, leb, or_false, arith,
}
use yuhaiin.Route.{
  Leaf, RuleExpr, rule_expr, RuleExprs, no_exprs, exprs, RouteRule, Matcher, MatcherList,
  no_matchers, matchers, matches, Context, Known, Address,
}
use yuhaiin.Route.Rules.Parts.{inbound_holds-asked, parse_port_list-asked, parse_country_list-asked}
use yuhaiin.Route.Rules.Stated.{given, satisfied, each_satisfied, expr_satisfied, some_satisfied}
use yuhaiin.Route.Rules.{
  ListCall, present, to_list, leaf, flatten_rule_expr, get_no, insert_sorted, sort_rule, condition,
  and_matchers, and_of, or_of, or_matchers, parse_matcher,
}
use yuhaiin.Route.Rules.Semantics.{holds, all_hold, any_holds, matches-Decides}

unfoldable all_satisfied : List RuleExpr → Known → Address → Bool
unfolding satisfied
all_satisfied [] k a = true
all_satisfied (e ∷ es) k a = satisfied (leaf e) k a && all_satisfied es k a

and_swap : (x y z : Bool) → (y && (x && z)) ≡ (x && (y && z))
and_swap x y z = ground arith

and_true : (x : Bool) → (x && true) ≡ x
and_true x = ground arith

module _ (k : Known) (a : Address) where
  unfoldable optional : Option Matcher → Bool
  optional none = true
  optional (some m) = holds m k a

  -- One step through the tests of `condition`.
  tested :
      {A : Type 0} (f : A → Bool) (b : Bool) (x y : A) (p q : Bool)
      → f x ≡ p
      → f y ≡ q
      → f (if b then x else y) ≡ (if b then p else q)
  tested f true x y p q e g = e
  tested f false x y p q e g = g

  present-given :
      {A : Type 0} (o : Option A) (f : A → Matcher × List ListCall)
      → optional (present o f).0 ≡ given o (λ x. holds (f x).0 k a)
  unfolding present optional given
  present-given none f = refl
  present-given (some x) f = refl

  given-same :
      {A : Type 0} (o : Option A) {p q : A → Bool} → ((x : A) → p x ≡ q x) → given o p ≡ given o q
  unfolding given
  given-same none same = refl
  given-same (some x) same = same x

  condition-satisfied : (l : Leaf) → optional (condition l).0 ≡ satisfied l k a
  unfolding condition satisfied holds optional
  condition-satisfied l =
      let step = tested (λ (c : Option Matcher × List ListCall). optional c.0) in
      step (l.type ≟ "host") _ _ _ _ (present-given l.host _) (
        step (l.type ≟ "process") _ _ _ _ (present-given l.process _) (
          step (l.type ≟ "inbound") _ _ _ _
            (present-given l.inbound _ ∙ given-same l.inbound (λ i. inbound_holds-asked i k))
            (step (l.type ≟ "network") _ _ _ _ (present-given l.network _) (
              step (l.type ≟ "port") _ _ _ _
                (present-given l.port _ ∙ given-same l.port (λ ps. parse_port_list-asked ps a.port))
                (step (l.type ≟ "geoip") _ _ _ _
                  (present-given l.geoip _
                    ∙ given-same l.geoip (λ cs. parse_country_list-asked cs k.geo))
                  refl)))))

  and_matchers-satisfied :
      (es : List RuleExpr) → all_hold (and_matchers es).0 k a ≡ all_satisfied es k a
  unfolding and_matchers all_hold all_satisfied
  and_matchers-satisfied [] = refl
  and_matchers-satisfied (e ∷ es) =
      rw (← condition-satisfied (leaf e), ← and_matchers-satisfied es) (head (condition (leaf e)).0)
    where
      head :
          (o : Option Matcher)
          → all_hold
              (elim o [ none ↦ (and_matchers es).0 | some m ↦ matchers m (and_matchers es).0 ])
              k
              a
            ≡ (optional o && all_hold (and_matchers es).0 k a)
      head none = unfold optional in refl
      head (some m) = unfold optional in refl

  insert_sorted-satisfied :
      (e : RuleExpr) (es : List RuleExpr)
      → all_satisfied (insert_sorted e es) k a ≡ (satisfied (leaf e) k a && all_satisfied es k a)
  unfolding insert_sorted all_satisfied
  insert_sorted-satisfied e [] = refl
  insert_sorted-satisfied e (d ∷ ds) = elim (Bool-cases (leb (get_no e) (get_no d))) [
    | inl first ↦ rw first refl
    | inr later ↦
        rw (later, insert_sorted-satisfied e ds)
          (and_swap (satisfied (leaf e) k a) (satisfied (leaf d) k a) (all_satisfied ds k a))
  ]

  sort_rule-satisfied :
      (es : List RuleExpr) → all_satisfied (sort_rule es) k a ≡ all_satisfied es k a
  unfolding sort_rule all_satisfied
  sort_rule-satisfied [] = refl
  sort_rule-satisfied (e ∷ es) =
      insert_sorted-satisfied e (sort_rule es)
      ∙ ap (λ b. satisfied (leaf e) k a && b) (sort_rule-satisfied es)

  and_of-holds : (ms : MatcherList) → holds (and_of ms) k a ≡ all_hold ms k a
  unfolding and_of holds all_hold
  and_of-holds no_matchers = refl
  and_of-holds (matchers m no_matchers) = sym (and_true (holds m k a))
  and_of-holds (matchers m (matchers n ms)) = refl

  or_of-holds : (name : String) (ms : MatcherList) → holds (or_of name ms) k a ≡ any_holds ms k a
  unfolding or_of holds any_holds
  or_of-holds name no_matchers = refl
  or_of-holds name (matchers m no_matchers) = sym (or_false (holds m k a))
  or_of-holds name (matchers m (matchers n ms)) = refl

  to_list-satisfied : (es : RuleExprs) → all_satisfied (to_list es) k a ≡ each_satisfied es k a
  unfolding to_list all_satisfied each_satisfied leaf
  to_list-satisfied no_exprs = refl
  to_list-satisfied (exprs (rule_expr l all any n) es) =
      ap (λ b. satisfied l k a && b) (to_list-satisfied es)

  flatten_rule_expr-satisfied :
      (e : RuleExpr) → all_satisfied (flatten_rule_expr e) k a ≡ expr_satisfied e k a
  unfolding flatten_rule_expr expr_satisfied
  flatten_rule_expr-satisfied (rule_expr l all any n) = elim (Bool-cases (l.type ≟ "all")) [
    | inl is ↦ rw is (to_list-satisfied all)
    | inr other ↦ rw other (unfold all_satisfied leaf in and_true (satisfied l k a))
  ]

  or_matchers-satisfied :
      (es : List RuleExpr) → any_holds (or_matchers es).0 k a ≡ some_satisfied es k a
  unfolding or_matchers any_holds some_satisfied
  or_matchers-satisfied [] = refl
  or_matchers-satisfied (e ∷ es) =
      rw
        (
          ← flatten_rule_expr-satisfied e,
          ← sort_rule-satisfied (flatten_rule_expr e),
          ← and_matchers-satisfied (sort_rule (flatten_rule_expr e)),
          ← and_of-holds (and_matchers (sort_rule (flatten_rule_expr e))).0,
          ← or_matchers-satisfied es,
        )
        refl

  pub parse_matcher-holds :
      (r : RouteRule) → holds (parse_matcher r).0 k a ≡ some_satisfied r.rules k a
  unfolding parse_matcher
  parse_matcher-holds r = or_of-holds r.name (or_matchers r.rules).0 ∙ or_matchers-satisfied r.rules

-- The matcher that a rule is compiled to matches a connection, whatever was recorded for it before,
-- exactly when some expression of the rule is satisfied: one of type "all" when each condition of
-- its field `all` is, another when its own condition is. A condition that is not there restricts
-- nothing, nor does an expression of a type that has no condition, such as "any" or "not", and an
-- "all" below another.
pub parse_matcher-satisfied :
    (r : RouteRule) (c : Context) (a : Address)
    → (matches (parse_matcher r).0 c a).0 ≡ some_satisfied r.rules c.known a
parse_matcher-satisfied r c a =
    (matches-Decides (parse_matcher r).0 c a c.known refl).0 ∙ parse_matcher-holds c.known a r
