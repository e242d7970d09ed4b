-- ===== src/Route/Settings.antt =====
-- The route's settings: `RouteConfig` (`runtime_types.go`), its forms in the API and in the store
-- (`rule.go`, with `store/types.go`), and what `route.go` decides with it about resolving a name.
pub mod Decisions
use text.Mathlib.Text.{◌==◌ as ◌≟◌}
use Prim.Native.String.{String}
use yuhaiin.Prelude.{ℕ, Bool, true, false, not, ◌&&◌, List, [], ◌∷◌, if◌then◌else◌, ◌==◌}
use yuhaiin.Route.Modes.{
  Mode, ModeEnum, UdpProxyFqdnStrategy, resolve, skip_resolve, unspecified,
  parse_udp_proxy_fqdn_strategy,
}

pub record RouteConfig : Type 0 where
  pub direct_resolver : String
  pub proxy_resolver : String
  pub resolve_locally : Bool
  pub udp_proxy_fqdn_strategy : UdpProxyFqdnStrategy

-- The `Config` of the API.
pub record Config : Type 0 where
  pub direct_resolver : String
  pub proxy_resolver : String
  pub resolve_locally : Bool
  pub udp_proxy_fqdn_strategy : String

pub record RouteSettings : Type 0 where
  pub direct_resolver : String
  pub proxy_resolver : String
  pub resolve_locally : Bool
  pub udp_proxy_fqdn : ℕ

-- The code of a parsed strategy.
pub code : UdpProxyFqdnStrategy → ℕ
code UdpProxyFqdnStrategy.resolve = 1
code UdpProxyFqdnStrategy.skip_resolve = 2
code UdpProxyFqdnStrategy.default = 0
code UdpProxyFqdnStrategy.unset = 0

pub udp_proxy_fqdn_strategy_code : String → ℕ
unfolding code
udp_proxy_fqdn_strategy_code value = code (parse_udp_proxy_fqdn_strategy value)

pub udp_proxy_fqdn_strategy_from_code : ℕ → UdpProxyFqdnStrategy
udp_proxy_fqdn_strategy_from_code value =
    if value == 1
    then UdpProxyFqdnStrategy.resolve
    else if value == 2
    then UdpProxyFqdnStrategy.skip_resolve
    else UdpProxyFqdnStrategy.default

pub route_settings_from_contract : Config → RouteSettings
unfolding udp_proxy_fqdn_strategy_code
route_settings_from_contract c = record {
  direct_resolver = c.direct_resolver;
  proxy_resolver = c.proxy_resolver;
  resolve_locally = c.resolve_locally;
  udp_proxy_fqdn = udp_proxy_fqdn_strategy_code c.udp_proxy_fqdn_strategy;
}

pub route_config_from_store : RouteSettings → RouteConfig
unfolding udp_proxy_fqdn_strategy_from_code
route_config_from_store s = record {
  direct_resolver = s.direct_resolver;
  proxy_resolver = s.proxy_resolver;
  resolve_locally = s.resolve_locally;
  udp_proxy_fqdn_strategy = udp_proxy_fqdn_strategy_from_code s.udp_proxy_fqdn;
}

abbrev pub is_resolve : UdpProxyFqdnStrategy → Bool
is_resolve UdpProxyFqdnStrategy.unset = false
is_resolve UdpProxyFqdnStrategy.default = false
is_resolve UdpProxyFqdnStrategy.resolve = true
is_resolve UdpProxyFqdnStrategy.skip_resolve = false

abbrev pub is_skip_resolve : UdpProxyFqdnStrategy → Bool
is_skip_resolve UdpProxyFqdnStrategy.unset = false
is_skip_resolve UdpProxyFqdnStrategy.default = false
is_skip_resolve UdpProxyFqdnStrategy.resolve = false
is_skip_resolve UdpProxyFqdnStrategy.skip_resolve = true

abbrev pub is_proxy : Mode → Bool
is_proxy Mode.unset = false
is_proxy Mode.bypass = false
is_proxy Mode.proxy = true
is_proxy Mode.direct = false
is_proxy Mode.block = false

-- `skipResolve`
pub skips_resolve : RouteConfig → ModeEnum → Bool
skips_resolve c m =
    if not (is_proxy m.mode)
    then false
    else if is_skip_resolve c.udp_proxy_fqdn_strategy
    then not (is_resolve m.udp_proxy_fqdn)
    else is_skip_resolve m.udp_proxy_fqdn

pub get_resolver_fallback : RouteConfig → Mode → String
get_resolver_fallback c Mode.proxy = c.proxy_resolver
get_resolver_fallback c Mode.direct = c.direct_resolver
get_resolver_fallback c Mode.block = "block"
get_resolver_fallback c Mode.bypass = ""
get_resolver_fallback c Mode.unset = ""

-- The loop of `dispatch` over the route's matchers, which may change what they are given; `mode` is
-- what the last one left.
unfoldable pub pick_mode {ℓ} : {S : Type ℓ} → List (S → ModeEnum × S) → ModeEnum → S → ModeEnum × S
pick_mode [] mode s = (mode, s)
pick_mode (m ∷ ms) mode s =
    let r = m s in let rest = pick_mode ms r.0 r.1 in if unspecified r.0.mode then rest else r
