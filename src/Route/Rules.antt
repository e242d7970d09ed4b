-- ===== src/Route/Rules.antt =====
-- How rules are compiled to matchers, and the list of compiled rules that picks a mode: `nested.go`
-- and `modeEnumFromRule`. The compiled rules and tags are a record that the operations return anew;
-- the locks around them are not modelled. `sortRule` is a stable sort here; Go's does not fix the
-- order of equal elements.
pub mod Semantics
pub mod Stated
pub mod Parts
pub mod Meaning
pub mod Asked
pub mod Named
pub mod Choice
use text.Mathlib.Text.{◌==◌ as ◌≟◌}
use Prim.Native.String.{String}
use yuhaiin.Prelude.{
  ℕ, zero, suc, Bool, true, false, ◌||◌, Option, none, some, List, [], ◌∷◌, ◌++◌, if◌then◌else◌,
  leb, length, get_elem?, set,
}
use yuhaiin.Route.{
  SourceRef, Leaf, RuleExpr, rule_expr, RuleExprs, no_exprs, exprs, RouteRule, Matcher, inbound,
  network, port, geoip, in_list, and, or, MatcherList, no_matchers, matchers, Context, Address,
  new_match, matches,
}
use yuhaiin.Route.Texts.{parse_port_list, parse_country_list, inbound_names, add_name}
use yuhaiin.Route.Modes.{
  ModeEnum, proxy_mode, parse_mode, parse_resolve_strategy, parse_udp_proxy_fqdn_strategy,
}

pub data ListCall : Type 0 where
  reset_host_trie : ListCall
  reset_process_trie : ListCall
  add_new_host_list : String → ListCall
  add_new_process_list : String → ListCall

unfoldable pub mode_enum_from_rule : RouteRule → ModeEnum
mode_enum_from_rule r = record {
  tag = r.tag;
  resolver = r.resolver;
  mode = parse_mode r.mode;
  resolve_strategy = parse_resolve_strategy r.resolve_strategy;
  udp_proxy_fqdn = parse_udp_proxy_fqdn_strategy r.udp_proxy_fqdn_strategy;
}

pub to_list : RuleExprs → List RuleExpr
to_list no_exprs = []
to_list (exprs e es) = e ∷ to_list es

pub leaf : RuleExpr → Leaf
leaf (rule_expr l all any n) = l

pub flatten_rule_expr : RuleExpr → List RuleExpr
unfolding to_list
flatten_rule_expr (rule_expr l all any n) =
    if l.type ≟ "all" then to_list all else (rule_expr l all any n) ∷ []

-- `getNo`; `math.MaxInt` is that of 64 bits.
pub get_no : RuleExpr → ℕ
unfolding leaf
get_no e =
    let t = (leaf e).type in
    if (t ≟ "port") || (t ≟ "network")
    then 1
    else if t ≟ "process"
    then 2
    else if t ≟ "inbound"
    then 3
    else if t ≟ "geoip"
    then 4
    else if t ≟ "host"
    then 5
    else 9223372036854775807

pub insert_sorted : RuleExpr → List RuleExpr → List RuleExpr
unfolding get_no
insert_sorted e [] = e ∷ []
insert_sorted e (d ∷ ds) =
    let later = insert_sorted e ds in if leb (get_no e) (get_no d) then e ∷ d ∷ ds else d ∷ later

pub sort_rule : List RuleExpr → List RuleExpr
unfolding insert_sorted
sort_rule [] = []
sort_rule (e ∷ es) = insert_sorted e (sort_rule es)

-- `if rule.X != nil { … }`
pub present {ℓ} :
    {A : Type ℓ} → Option A → (A → Matcher × List ListCall) → Option Matcher × List ListCall
present none f = (none, [])
present (some x) f = (some (f x).0, (f x).1)

pub source_names : SourceRef → List String
source_names i = if i.name ≟ "" then i.names else i.names ++ (i.name ∷ [])

-- The matcher of one condition, if it is one, and the list that it loads.
pub condition : Leaf → Option Matcher × List ListCall
unfolding present source_names
condition l =
    if l.type ≟ "host"
    then present l.host (λ h. (in_list h, add_new_host_list h ∷ []))
    else if l.type ≟ "process"
    then present l.process (λ p. (in_list p, add_new_process_list p ∷ []))
    else if l.type ≟ "inbound"
    then present l.inbound (λ i. (inbound (inbound_names (source_names i)), []))
    else if l.type ≟ "network"
    then present l.network (λ n. (network n, []))
    else if l.type ≟ "port"
    then present l.port (λ ps. (port (parse_port_list ps), []))
    else if l.type ≟ "geoip"
    then present l.geoip (λ cs. (geoip (parse_country_list cs), []))
    else (none, [])

pub and_matchers : List RuleExpr → MatcherList × List ListCall
unfolding condition leaf
and_matchers [] = (no_matchers, [])
and_matchers (e ∷ es) =
    let c = condition (leaf e) in
    let rest = and_matchers es in
    (elim c.0 [ none ↦ rest.0 | some m ↦ matchers m rest.0 ], c.1 ++ rest.1)

-- A single matcher stands for itself.
pub and_of : MatcherList → Matcher
and_of no_matchers = and no_matchers
and_of (matchers m no_matchers) = m
and_of (matchers m (matchers n ms)) = and (matchers m (matchers n ms))

pub or_of : String → MatcherList → Matcher
or_of name no_matchers = or name no_matchers
or_of name (matchers m no_matchers) = m
or_of name (matchers m (matchers n ms)) = or name (matchers m (matchers n ms))

pub or_matchers : List RuleExpr → MatcherList × List ListCall
unfolding and_matchers and_of sort_rule flatten_rule_expr
or_matchers [] = (no_matchers, [])
or_matchers (e ∷ es) =
    let ands = and_matchers (sort_rule (flatten_rule_expr e)) in
    let rest = or_matchers es in (matchers (and_of ands.0) rest.0, ands.1 ++ rest.1)

pub parse_matcher : RouteRule → Matcher × List ListCall
unfolding or_matchers or_of
parse_matcher r = let ors = or_matchers r.rules in (or_of r.name ors.0, ors.1)

pub record MatchEntry : Type 0 where
  pub matcher : Matcher
  pub name : String
  pub mode : ModeEnum

-- `calls` are the calls on the lists so far.
pub record Matchers : Type 0 where
  pub calls : List ListCall
  pub tags : List String
  pub matchers : List MatchEntry

pub new_matchers : Matchers
new_matchers = record { calls = []; tags = []; matchers = [] }

-- The entries of the rules that are not disabled, with the tags and calls that come with them.
pub append_rule : List MatchEntry × Matchers → RouteRule → List MatchEntry × Matchers
unfolding parse_matcher mode_enum_from_rule
append_rule (ms, s) r = if r.disabled then (ms, s) else (
  ms
      ++ (record { matcher = (parse_matcher r).0; name = r.name; mode = mode_enum_from_rule r }
          ∷ []),
  record s {
    calls = s.calls ++ (parse_matcher r).1;
    tags = if r.tag ≟ "" then s.tags else add_name r.tag s.tags;
  },
)

pub append_rules : List MatchEntry × Matchers → List RouteRule → List MatchEntry × Matchers
unfolding append_rule
append_rules p [] = p
append_rules p (r ∷ rs) = append_rules (append_rule p r) rs

pub add : Matchers → List RouteRule → Matchers
unfolding append_rules
add s rules = let p = append_rules ([], s) rules in record p.1 { matchers = p.1.matchers ++ p.0 }

pub update : Matchers → List RouteRule → Matchers
unfolding append_rules
update s rules =
    let p =
      append_rules
        ([], record s { calls = s.calls ++ (reset_host_trie ∷ reset_process_trie ∷ []); tags = [] })
        rules in
    record p.1 { matchers = p.0 }

pub match_entries : List MatchEntry → Context → Address → ModeEnum × Context
match_entries [] c a = (proxy_mode, c)
match_entries (e ∷ es) c a =
    let r = matches e.matcher (new_match c e.name) a in
    let rest = match_entries es r.1 a in if r.0 then (e.mode, r.1) else rest

pub match : Matchers → Context → Address → ModeEnum × Context
unfolding match_entries
match s c a = match_entries s.matchers c a
