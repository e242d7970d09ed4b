-- ===== src/Route.antt =====
-- pkg/route: the rules that choose a connection's mode. This file has the rules as they are stored
-- (`contract/route/types.go`), the parsed modes (`runtime_types.go`), the matchers that a rule is
-- compiled to and how they match a connection (`nested.go`), with the context they read and record
-- their results in (`netapi/context.go`). The calls on the lists that compiling makes are values of
-- `ListCall`, in their order. A text whose bytes are read (a list of ports or countries) is its bytes.
pub mod Texts
pub mod Modes
pub mod Rules
pub mod Order
pub mod Settings
use text.Mathlib.Text.{◌==◌ as ◌≟◌, starts_with}
use Prim.Native.String.{String}
use yuhaiin.Prelude.{
  ℕ, zero, suc, ◌+◌, Bool, true, false, not, ◌&&◌, ◌||◌, Option, none, some, List, [], ◌∷◌, ◌++◌,
  ◌==◌, if◌then◌else◌, leb, contains, add_new, ℕ_discrete,
}
use yuhaiin.Bytes.{Bytes, bytes_discrete}
use yuhaiin.Route.Texts.{parse_port_list, parse_country_list, has_name, add_name}
use yuhaiin.Route.Modes.{ModeEnum, proxy_mode}

pub record SourceRef : Type 0 where
  pub name : String
  pub names : List String

-- The fields of a `RuleExpr` that hold no further expression. A nil pointer is `none`.
pub record Leaf : Type 0 where
  pub type : String
  pub host : Option String
  pub process : Option String
  pub inbound : Option SourceRef
  pub network : Option String
  pub port : Option Bytes
  pub geoip : Option Bytes

-- The fields `all`, `any` and `not` of an expression.
mutual
  pub data RuleExpr : Type 0 where
    rule_expr : Leaf → RuleExprs → RuleExprs → Negated → RuleExpr

  pub data RuleExprs : Type 0 where
    no_exprs : RuleExprs
    exprs : RuleExpr → RuleExprs → RuleExprs

  pub data Negated : Type 0 where
    not_set : Negated
    negated : RuleExpr → Negated

pub record RouteRule : Type 0 where
  pub name : String
  pub mode : String
  pub tag : String
  pub resolve_strategy : String
  pub udp_proxy_fqdn_strategy : String
  pub resolver : String
  pub rules : List RuleExpr
  pub disabled : Bool

mutual
  pub data Matcher : Type 0 where
    inbound : List String → Matcher
    network : String → Matcher
    port : List ℕ → Matcher
    geoip : List Bytes → Matcher
    in_list : String → Matcher
    and : MatcherList → Matcher
    or : String → MatcherList → Matcher

  pub data MatcherList : Type 0 where
    no_matchers : MatcherList
    matchers : Matcher → MatcherList → MatcherList

-- What a history entry's text is formatted from.
pub data ListName : Type 0 where
  inbound_name : String → ListName
  net_tcp : ListName
  net_udp : ListName
  port_number : ℕ → ListName
  geoip_country : Bytes → ListName
  list_name : String → ListName

pub record MatchResult : Type 0 where
  pub list_name : ListName
  pub matched : Bool

pub record MatchHistoryEntry : Type 0 where
  pub rule_name : String
  pub history : List MatchResult

-- What the matchers read of a connection.
pub record Known : Type 0 where
  pub inbound_name : String
  pub geo : Bytes
  pub lists : List String

pub record Context : Type 0 where
  pub known : Known
  pub rule_chain : List MatchHistoryEntry

pub record Address : Type 0 where
  pub network : String
  pub port : ℕ

pub new_match : Context → String → Context
new_match c rule_name = record c {
  rule_chain = c.rule_chain ++ (record { rule_name = rule_name; history = [] } ∷ []);
}

pub add_to_last : List MatchHistoryEntry → MatchResult → List MatchHistoryEntry
add_to_last [] r = []
add_to_last (e ∷ []) r = record e { history = e.history ++ (r ∷ []) } ∷ []
add_to_last (e ∷ d ∷ es) r = e ∷ add_to_last (d ∷ es) r

pub add_match_history : Context → ListName → Bool → Context
unfolding add_to_last
add_match_history c name ok = record c {
  rule_chain = add_to_last c.rule_chain (record { list_name = name; matched = ok });
}

-- `recordMatch` and the result that goes with it.
pub recorded : Context → ListName → Bool → Bool × Context
unfolding add_match_history
recorded c name ok = (ok, add_match_history c name ok)

pub match_inbound : List String → Context → Bool × Context
unfolding recorded has_name
match_inbound store c =
    let name = c.known.inbound_name in
    recorded c (inbound_name name) (if name ≟ "" then false else has_name store name)

pub match_network : String → Context → Address → Bool × Context
unfolding recorded
match_network n c a =
    if (n ≟ "tcp") || (n ≟ "network_tcp")
    then recorded c net_tcp (starts_with a.network "tcp")
    else if (n ≟ "udp") || (n ≟ "network_udp")
    then recorded c net_udp (starts_with a.network "udp")
    else (false, c)

unfoldable mutual
  unfolding recorded match_inbound match_network has_name contains

  -- `Match` of each matcher.
  pub matches : Matcher → Context → Address → Bool × Context
  matches (inbound store) c a = match_inbound store c
  matches (network n) c a = match_network n c a
  matches (port ps) c a = recorded c (port_number a.port) (contains ℕ_discrete ps a.port)
  matches (geoip cs) c a =
      recorded c (geoip_country c.known.geo) (contains bytes_discrete cs c.known.geo)
  matches (in_list l) c a = recorded c (list_name l) (has_name c.known.lists l)
  matches (and ms) c a = match_all ms c a
  matches (or name ms) c a = match_any ms c a

  pub match_all : MatcherList → Context → Address → Bool × Context
  match_all no_matchers c a = (true, c)
  match_all (matchers m ms) c a =
      let r = matches m c a in let rest = match_all ms r.1 a in if r.0 then rest else (false, r.1)

  pub match_any : MatcherList → Context → Address → Bool × Context
  match_any no_matchers c a = (false, c)
  match_any (matchers m ms) c a =
      let r = matches m c a in let rest = match_any ms r.1 a in if r.0 then (true, r.1) else rest
