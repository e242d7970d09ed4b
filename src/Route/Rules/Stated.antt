-- ===== src/Route/Rules/Stated.antt =====
-- What a rule means and which lists it names, read off its expressions alone: nothing here uses how a
-- rule is compiled.
use text.Mathlib.Text.{◌==◌ as ◌≟◌}
use Prim.Native.String.{String}
use yuhaiin.Prelude.{
  ℕ, Bool, true, false, not, ◌&&◌, ◌||◌, Option, none, some, List, [], ◌∷◌, if◌then◌else◌, same,
  ℕ_discrete,
}
use yuhaiin.Bytes.{Bytes, bytes_discrete, split}
use yuhaiin.Route.{
  SourceRef, Leaf, RuleExpr, rule_expr, RuleExprs, no_exprs, exprs, RouteRule, Known, Address,
}
use yuhaiin.Route.Texts.{has_name, trim_space, parse_uint16}
use yuhaiin.Route.Rules.Semantics.{network_holds}

-- What a condition asks, if it is there.
unfoldable pub given {ℓ} : {A : Type ℓ} → Option A → (A → Bool) → Bool
given none p = true
given (some x) p = p x

-- The connection has an inbound with a name, which is the condition's name or one of its names.
unfoldable pub inbound_asked : SourceRef → Known → Bool
inbound_asked i k =
    not (k.inbound_name ≟ "") && (has_name i.names k.inbound_name || (i.name ≟ k.inbound_name))

unfoldable pub is_port : Option ℕ → ℕ → Bool
is_port none p = false
is_port (some q) p = same ℕ_discrete q p

-- Some part of the text is the port.
unfoldable pub port_asked : List Bytes → ℕ → Bool
unfolding is_port
port_asked [] p = false
port_asked (v ∷ vs) p = is_port (parse_uint16 (trim_space v)) p || port_asked vs p

unfoldable pub is_country : Bytes → Bytes → Bool
is_country [] c = false
is_country (b ∷ bs) c = same bytes_discrete (b ∷ bs) c

-- Some part of the text is the country; no part is the empty one.
unfoldable pub country_asked : List Bytes → Bytes → Bool
unfolding is_country
country_asked [] c = false
country_asked (v ∷ vs) c = is_country (trim_space v) c || country_asked vs c

-- A condition that is not there restricts nothing, nor does an expression of another type, such as
-- "any", "not", or an "all" below another.
unfoldable pub satisfied : Leaf → Known → Address → Bool
unfolding given inbound_asked port_asked country_asked
satisfied l k a =
    if l.type ≟ "host"
    then given l.host (has_name k.lists)
    else if l.type ≟ "process"
    then given l.process (has_name k.lists)
    else if l.type ≟ "inbound"
    then given l.inbound (λ i. inbound_asked i k)
    else if l.type ≟ "network"
    then given l.network (λ n. network_holds n a)
    else if l.type ≟ "port"
    then given l.port (λ ps. port_asked (split b',' ps) a.port)
    else if l.type ≟ "geoip"
    then given l.geoip (λ cs. country_asked (split b',' cs) k.geo)
    else true

-- Each of the expressions is satisfied, as a condition.
unfoldable pub each_satisfied : RuleExprs → Known → Address → Bool
unfolding satisfied
each_satisfied no_exprs k a = true
each_satisfied (exprs (rule_expr l all any n) es) k a = satisfied l k a && each_satisfied es k a

-- An expression of type "all" asks each condition of its field `all`, and another its own.
unfoldable pub expr_satisfied : RuleExpr → Known → Address → Bool
unfolding each_satisfied
expr_satisfied (rule_expr l all any n) k a =
    if l.type ≟ "all" then each_satisfied all k a else satisfied l k a

-- Some expression of the rule is satisfied.
unfoldable pub some_satisfied : List RuleExpr → Known → Address → Bool
unfolding expr_satisfied
some_satisfied [] k a = false
some_satisfied (e ∷ es) k a = expr_satisfied e k a || some_satisfied es k a

unfoldable pub is_given : Option String → String → Bool
is_given none x = false
is_given (some y) x = y ≟ x

-- A condition of type "host" that names the list, and one of type "process".
unfoldable pub host_condition : String → Leaf → Bool
unfolding is_given
host_condition x l = (l.type ≟ "host") && is_given l.host x

unfoldable pub process_condition : String → Leaf → Bool
unfolding is_given
process_condition x l = (l.type ≟ "process") && is_given l.process x

module _ (p : Leaf → Bool) where
  unfoldable pub some_expr : RuleExprs → Bool
  some_expr no_exprs = false
  some_expr (exprs (rule_expr l all any n) es) = p l || some_expr es

  -- An expression of type "all" has the conditions of its field `all`, and another its own.
  unfoldable pub some_condition : RuleExpr → Bool
  unfolding some_expr
  some_condition (rule_expr l all any n) = if l.type ≟ "all" then some_expr all else p l

  unfoldable pub some_in_rule : List RuleExpr → Bool
  unfolding some_condition
  some_in_rule [] = false
  some_in_rule (e ∷ es) = some_condition e || some_in_rule es

  -- Some rule that is not disabled has such a condition.
  unfoldable pub some_enabled : List RouteRule → Bool
  unfolding some_in_rule
  some_enabled [] = false
  some_enabled (r ∷ rules) = (not r.disabled && some_in_rule r.rules) || some_enabled rules
