-- ===== src/Route/Rules/Named.antt =====
-- The calls on the lists that compiling makes, against the lists that the enabled rules name.
use text.Mathlib.Text.{◌==◌ as ◌≟◌}
use Prim.Native.String.{String}
use yuhaiin.Prelude.{
  ◌≡◌, refl, sym, ap, ◌∙◌, Bool, true, false, ◌||◌, Option, none, some, List, [], ◌∷◌, ◌++◌,
  if◌then◌else◌, leb, Bool-cases, inl, inr, or_false, arith,
}
use yuhaiin.Route.{
  Leaf, RuleExpr, rule_expr, RuleExprs, no_exprs, exprs, RouteRule, Matcher, in_list,
}
use yuhaiin.Route.Rules.{
  ListCall, reset_host_trie, reset_process_trie, add_new_host_list, add_new_process_list, present,
  to_list, leaf, flatten_rule_expr, get_no, insert_sorted, sort_rule, condition, and_matchers,
  or_matchers, parse_matcher,
}
use text.Mathlib.TextEquality.{eq_iff}
use yuhaiin.Route.Rules.Asked.{calls_of}
use yuhaiin.Route.Rules.Stated.{
  is_given, host_condition, process_condition, some_expr, some_condition, some_in_rule,
  some_enabled,
}

unfoldable pub some_call : (ListCall → Bool) → List ListCall → Bool
some_call q [] = false
some_call q (c ∷ calls) = q c || some_call q calls

some_call-append :
    (q : ListCall → Bool) (cs ds : List ListCall)
    → some_call q (cs ++ ds) ≡ (some_call q cs || some_call q ds)
unfolding some_call
some_call-append q [] ds = refl
some_call-append q (c ∷ cs) ds = ground (arith, some_call-append q cs ds)

or_swap_head : (x y z : Bool) → (y || (x || z)) ≡ (x || (y || z))
or_swap_head x y z = ground arith

-- The calls of a kind that compiling makes, where it is known which conditions make them.
module _ (q : ListCall → Bool) (p : Leaf → Bool)
    (same : (l : Leaf) → some_call q (condition l).1 ≡ p l) where
  unfoldable some_leaf : List RuleExpr → Bool
  some_leaf [] = false
  some_leaf (e ∷ es) = p (leaf e) || some_leaf es

  and_matchers-calls : (es : List RuleExpr) → some_call q (and_matchers es).1 ≡ some_leaf es
  unfolding and_matchers some_leaf
  and_matchers-calls [] = unfold some_call in refl
  and_matchers-calls (e ∷ es) =
      some_call-append q (condition (leaf e)).1 (and_matchers es).1
      ∙ rw (same (leaf e), and_matchers-calls es) refl

  insert_sorted-leaf :
      (e : RuleExpr) (es : List RuleExpr)
      → some_leaf (insert_sorted e es) ≡ (p (leaf e) || some_leaf es)
  unfolding insert_sorted some_leaf
  insert_sorted-leaf e [] = refl
  insert_sorted-leaf e (d ∷ ds) = elim (Bool-cases (leb (get_no e) (get_no d))) [
    | inl first ↦ rw first refl
    | inr later ↦
        rw (later, insert_sorted-leaf e ds) (or_swap_head (p (leaf e)) (p (leaf d)) (some_leaf ds))
  ]

  sort_rule-leaf : (es : List RuleExpr) → some_leaf (sort_rule es) ≡ some_leaf es
  unfolding sort_rule some_leaf
  sort_rule-leaf [] = refl
  sort_rule-leaf (e ∷ es) =
      insert_sorted-leaf e (sort_rule es) ∙ ap (λ b. p (leaf e) || b) (sort_rule-leaf es)

  to_list-leaf : (es : RuleExprs) → some_leaf (to_list es) ≡ some_expr p es
  unfolding to_list some_leaf some_expr leaf
  to_list-leaf no_exprs = refl
  to_list-leaf (exprs (rule_expr l all any n) es) = ap (λ b. p l || b) (to_list-leaf es)

  flatten_rule_expr-leaf : (e : RuleExpr) → some_leaf (flatten_rule_expr e) ≡ some_condition p e
  unfolding flatten_rule_expr some_condition
  flatten_rule_expr-leaf (rule_expr l all any n) = elim (Bool-cases (l.type ≟ "all")) [
    | inl is ↦ rw is (to_list-leaf all)
    | inr other ↦ rw other (unfold some_leaf leaf in or_false (p l))
  ]

  or_matchers-calls : (es : List RuleExpr) → some_call q (or_matchers es).1 ≡ some_in_rule p es
  unfolding or_matchers some_in_rule
  or_matchers-calls [] = unfold some_call in refl
  or_matchers-calls (e ∷ es) =
      some_call-append q (and_matchers (sort_rule (flatten_rule_expr e))).1 (or_matchers es).1
      ∙ rw
          (
            and_matchers-calls (sort_rule (flatten_rule_expr e)),
            sort_rule-leaf (flatten_rule_expr e),
            flatten_rule_expr-leaf e,
            or_matchers-calls es,
          )
          refl

  pub calls_of-enabled :
      (rules : List RouteRule) → some_call q (calls_of rules) ≡ some_enabled p rules
  unfolding calls_of some_enabled parse_matcher
  calls_of-enabled [] = unfold some_call in refl
  calls_of-enabled (r ∷ rules) = elim (Bool-cases r.disabled) [
    | inl off ↦ rw off (calls_of-enabled rules)
    | inr on ↦ rw on (
        some_call-append q (or_matchers r.rules).1 (calls_of rules)
        ∙ rw (or_matchers-calls r.rules, calls_of-enabled rules) refl)
  ]

unfoldable pub loads_host : String → ListCall → Bool
loads_host x (add_new_host_list y) = y ≟ x
loads_host x (add_new_process_list y) = false
loads_host x reset_host_trie = false
loads_host x reset_process_trie = false

unfoldable pub loads_process : String → ListCall → Bool
loads_process x (add_new_process_list y) = y ≟ x
loads_process x (add_new_host_list y) = false
loads_process x reset_host_trie = false
loads_process x reset_process_trie = false

unfoldable pub resets : ListCall → Bool
resets reset_host_trie = true
resets reset_process_trie = true
resets (add_new_host_list y) = false
resets (add_new_process_list y) = false

-- The branches of `condition`: what the calls of each come to, and those that make no call.
branches :
    (q : ListCall → Bool) (b : Bool) (x y : Option Matcher × List ListCall) (g h : Bool)
    → some_call q x.1 ≡ g
    → some_call q y.1 ≡ h
    → some_call q (if b then x else y).1 ≡ (if b then g else h)
branches q true x y g h e f = e
branches q false x y g h e f = f

no_call :
    (q : ListCall → Bool) (b : Bool) {A : Type 0} (o : Option A) (f : A → Matcher)
    (y : Option Matcher × List ListCall)
    → some_call q y.1 ≡ false
    → some_call q (if b then present o (λ x. (f x, [])) else y).1 ≡ false
unfolding present some_call
no_call q true none f y e = refl
no_call q true (some x) f y e = refl
no_call q false o f y e = e

nothing : (q : ListCall → Bool) → some_call q [] ≡ false
unfolding some_call
nothing q = refl

condition-calls :
    (q : ListCall → Bool) (l : Leaf) (g h : Bool)
    → some_call q (present l.host (λ x. (in_list x, add_new_host_list x ∷ []))).1 ≡ g
    → some_call q (present l.process (λ x. (in_list x, add_new_process_list x ∷ []))).1 ≡ h
    → some_call q (condition l).1
      ≡ (if l.type ≟ "host" then g else if l.type ≟ "process" then h else false)
unfolding condition
condition-calls q l g h eg eh = branches q (l.type ≟ "host") _ _ _ _ eg (
    branches q (l.type ≟ "process") _ _ _ _ eh (
      no_call q (l.type ≟ "inbound") l.inbound _ _ (
        no_call q (l.type ≟ "network") l.network _ _ (
          no_call q (l.type ≟ "port") l.port _ _
            (no_call q (l.type ≟ "geoip") l.geoip _ _ (nothing q))))))

asked_given :
    (q : ListCall → Bool) (o : Option String) (c : String → ListCall) (b : Option String → Bool)
    → b none ≡ false
    → ((y : String) → q (c y) ≡ b (some y))
    → some_call q (present o (λ x. (in_list x, c x ∷ []))).1 ≡ b o
unfolding present some_call
asked_given q none c b e f = sym e
asked_given q (some y) c b e f = or_false (q (c y)) ∙ f y

host_condition-calls :
    (x : String) (l : Leaf) → some_call (loads_host x) (condition l).1 ≡ host_condition x l
unfolding host_condition is_given loads_host
host_condition-calls x l =
    condition-calls (loads_host x) l (is_given l.host x) false
      (asked_given (loads_host x) l.host add_new_host_list (λ o. is_given o x) refl (λ y. refl))
      (asked_given (loads_host x) l.process add_new_process_list (λ o. false) refl (λ y. refl))
    ∙ ground arith

process_condition-calls :
    (x : String) (l : Leaf) → some_call (loads_process x) (condition l).1 ≡ process_condition x l
unfolding process_condition is_given loads_process
process_condition-calls x l =
    condition-calls (loads_process x) l false (is_given l.process x)
      (asked_given (loads_process x) l.host add_new_host_list (λ o. false) refl (λ y. refl))
      (asked_given (loads_process x) l.process add_new_process_list (λ o. is_given o x) refl
        (λ y. refl))
    ∙ elim (Bool-cases (l.type ≟ "host")) [
      | inl is ↦ rw ((eq_iff l.type "host").0 is) refl
      | inr other ↦ rw other (ground arith)
    ]

no_resets : (l : Leaf) → some_call resets (condition l).1 ≡ false
unfolding resets
no_resets l =
    condition-calls resets l false false
      (asked_given resets l.host add_new_host_list (λ o. false) refl (λ y. refl))
      (asked_given resets l.process add_new_process_list (λ o. false) refl (λ y. refl))
    ∙ ground arith

some_expr-never : (es : RuleExprs) → some_expr (λ l. false) es ≡ false
unfolding some_expr
some_expr-never no_exprs = refl
some_expr-never (exprs (rule_expr l all any n) es) = some_expr-never es

some_in_rule-never : (es : List RuleExpr) → some_in_rule (λ l. false) es ≡ false
unfolding some_in_rule some_condition
some_in_rule-never [] = refl
some_in_rule-never (rule_expr l all any n ∷ es) =
    ground (arith, some_expr-never all, some_in_rule-never es)

some_enabled-never : (rules : List RouteRule) → some_enabled (λ l. false) rules ≡ false
unfolding some_enabled
some_enabled-never [] = refl
some_enabled-never (r ∷ rules) =
    ground (arith, some_in_rule-never r.rules, some_enabled-never rules)

-- The host lists that compiling loads are those that an enabled rule names, the process lists
-- likewise, and it resets nothing.
pub calls_of-hosts :
    (x : String) (rules : List RouteRule)
    → some_call (loads_host x) (calls_of rules) ≡ some_enabled (host_condition x) rules
calls_of-hosts x rules =
    calls_of-enabled (loads_host x) (host_condition x) (host_condition-calls x) rules

pub calls_of-processes :
    (x : String) (rules : List RouteRule)
    → some_call (loads_process x) (calls_of rules) ≡ some_enabled (process_condition x) rules
calls_of-processes x rules =
    calls_of-enabled (loads_process x) (process_condition x) (process_condition-calls x) rules

pub calls_of-resets : (rules : List RouteRule) → some_call resets (calls_of rules) ≡ false
calls_of-resets rules =
    calls_of-enabled resets (λ l. false) no_resets rules ∙ some_enabled-never rules
