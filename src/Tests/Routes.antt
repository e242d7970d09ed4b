-- ===== src/Tests/Routes.antt =====
-- The theorems on the rules at concrete inputs.
use yuhaiin.Prelude.{◌+◌, ℕ, true, refl}
use yuhaiin.Route.Modes.{Mode, ModeEnum, UdpProxyFqdnStrategy, plain_mode, unspecified}
use yuhaiin.Route.Settings.{Config, RouteConfig, pick_mode}
use Prim.Native.String.{String}
use yuhaiin.Prelude.{ℕ, ◌≡◌, false, none, some, [], ◌∷◌}
use yuhaiin.Route.{
  RuleExpr, rule_expr, no_exprs, exprs, not_set, RouteRule, Known, Address, matches,
}
use yuhaiin.Route.Rules.{parse_matcher, new_matchers, update, match}
use yuhaiin.Route.Rules.Stated.{some_satisfied}
use yuhaiin.Route.Rules.Meaning.{parse_matcher-satisfied}
use yuhaiin.Route.Rules.Choice.{chosen, update-match}
use yuhaiin.Route.Order.{insert_before, insert_after}
use yuhaiin.Route.Order.Before.{insert_before_moves}
use yuhaiin.Route.Order.After.{insert_after_moves}

abbrev pub on_list : String → RuleExpr
on_list name =
    rule_expr
      (record {
        type = "host";
        host = some name;
        process = none;
        inbound = none;
        network = none;
        port = none;
        geoip = none;
      })
      no_exprs no_exprs not_set

abbrev pub on_ports : RuleExpr
on_ports =
    rule_expr
      (record {
        type = "port";
        host = none;
        process = none;
        inbound = none;
        network = none;
        port = some (b'5' ∷ b'3' ∷ b',' ∷ b' ' ∷ b'8' ∷ b'0' ∷ []);
        geoip = none;
      })
      no_exprs no_exprs not_set

-- Both of its conditions.
abbrev pub both_conditions : RuleExpr
both_conditions =
    rule_expr
      (record {
        type = "all";
        host = none;
        process = none;
        inbound = none;
        network = none;
        port = none;
        geoip = none;
      })
      (exprs (on_list "ads") (exprs on_ports no_exprs)) no_exprs not_set

abbrev pub block_ads : RouteRule
block_ads = record {
  name = "block ads";
  mode = "block";
  tag = "";
  resolve_strategy = "";
  udp_proxy_fqdn_strategy = "";
  resolver = "";
  rules = both_conditions ∷ [];
  disabled = false;
}

abbrev ads_known : Known
ads_known = record { inbound_name = "tun"; geo = []; lists = "ads" ∷ [] }

abbrev to_port_80 : Address
to_port_80 = record { network = "tcp"; port = 80 }

update-match_example :
    (match
      (update new_matchers (block_ads ∷ []))
      (record { known = ads_known; rule_chain = [] })
      to_port_80).0
    ≡ chosen (block_ads ∷ []) ads_known to_port_80
update-match_example =
    update-match new_matchers (block_ads ∷ []) (record { known = ads_known; rule_chain = [] })
      to_port_80

parse_matcher-satisfied_example :
    (matches
      (parse_matcher block_ads).0
      (record { known = ads_known; rule_chain = [] })
      to_port_80).0
    ≡ some_satisfied (both_conditions ∷ []) ads_known to_port_80
parse_matcher-satisfied_example =
    parse_matcher-satisfied block_ads (record { known = ads_known; rule_chain = [] }) to_port_80

insert_before_moves_example :
    (insert_before {A = ℕ} (1 ∷ 2 ∷ 3 ∷ 4 ∷ []) 1 3 ≡ some (1 ∷ 3 ∷ 2 ∷ 4 ∷ []))
    × (insert_before {A = ℕ} (1 ∷ 2 ∷ 3 ∷ 4 ∷ []) 3 1 ≡ some (1 ∷ 4 ∷ 2 ∷ 3 ∷ []))
    × (insert_before {A = ℕ} (1 ∷ 2 ∷ []) 1 1 ≡ some (1 ∷ []))
insert_before_moves_example = insert_before_moves (1 ∷ []) 2 (3 ∷ []) 4 []

insert_after_moves_example :
    (insert_after {A = ℕ} (1 ∷ 2 ∷ 3 ∷ 4 ∷ []) 1 3 ≡ some (1 ∷ 3 ∷ 4 ∷ 2 ∷ []))
    × (insert_after {A = ℕ} (1 ∷ 2 ∷ 3 ∷ 4 ∷ []) 3 1 ≡ some (1 ∷ 2 ∷ 4 ∷ 3 ∷ []))
    × (insert_after {A = ℕ} (1 ∷ 2 ∷ []) 1 1 ≡ some (1 ∷ []))
insert_after_moves_example = insert_after_moves (1 ∷ []) 2 (3 ∷ []) 4 []

abbrev stored_config : Config
stored_config = record {
  direct_resolver = "local";
  proxy_resolver = "remote";
  resolve_locally = true;
  udp_proxy_fqdn_strategy = "skip_resolve";
}

abbrev skipping : RouteConfig
skipping = record {
  direct_resolver = "";
  proxy_resolver = "";
  resolve_locally = false;
  udp_proxy_fqdn_strategy = UdpProxyFqdnStrategy.skip_resolve;
}

-- A matcher that leaves the choice to the next one and counts that it was asked, and one that decides.
abbrev undecided : ℕ → ModeEnum × ℕ
undecided n = (plain_mode Mode.bypass, n + 1)

abbrev decided : ℕ → ModeEnum × ℕ
decided n = (plain_mode Mode.direct, n + 1)

undecided_first : unspecified (pick_mode (undecided ∷ []) (plain_mode Mode.unset) 0).0.mode ≡ true
unfolding pick_mode unspecified
undecided_first = refl

asked_once : (pick_mode (undecided ∷ []) (plain_mode Mode.unset) 0).1 ≡ 1
unfolding pick_mode unspecified
asked_once = refl

direct_decides : unspecified (decided 1).0.mode ≡ false
unfolding unspecified
direct_decides = refl
