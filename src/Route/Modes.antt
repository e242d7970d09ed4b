-- ===== src/Route/Modes.antt =====
-- The modes a rule can choose (`runtime_types.go`). Go's texts for them are parsed to the constants
-- that the code uses; `unset` is the empty text of a zero value.
use text.Mathlib.Text.{◌==◌ as ◌≟◌}
use Prim.Native.String.{String}
use yuhaiin.Prelude.{Bool, true, false, ◌||◌, if◌then◌else◌}

pub data Mode : Type 0 where
  unset : Mode
  bypass : Mode
  proxy : Mode
  direct : Mode
  block : Mode

pub data ResolveStrategy : Type 0 where
  unset : ResolveStrategy
  default : ResolveStrategy
  only_ipv4 : ResolveStrategy
  prefer_ipv4 : ResolveStrategy
  only_ipv6 : ResolveStrategy
  prefer_ipv6 : ResolveStrategy

pub data UdpProxyFqdnStrategy : Type 0 where
  unset : UdpProxyFqdnStrategy
  default : UdpProxyFqdnStrategy
  resolve : UdpProxyFqdnStrategy
  skip_resolve : UdpProxyFqdnStrategy

unfoldable pub unspecified : Mode → Bool
unspecified unset = true
unspecified bypass = true
unspecified proxy = false
unspecified direct = false
unspecified block = false

pub record ModeEnum : Type 0 where
  pub tag : String
  pub resolver : String
  pub mode : Mode
  pub resolve_strategy : ResolveStrategy
  pub udp_proxy_fqdn : UdpProxyFqdnStrategy

abbrev pub plain_mode : Mode → ModeEnum
plain_mode m = record {
  tag = "";
  resolver = "";
  mode = m;
  resolve_strategy = ResolveStrategy.default;
  udp_proxy_fqdn = UdpProxyFqdnStrategy.default;
}

-- `ProxyMode`
abbrev pub proxy_mode : ModeEnum
proxy_mode = plain_mode proxy

unfoldable pub parse_mode : String → Mode
parse_mode value =
    if value ≟ "proxy"
    then proxy
    else (if value ≟ "direct" then direct else (if value ≟ "block" then block else bypass))

unfoldable pub parse_resolve_strategy : String → ResolveStrategy
parse_resolve_strategy value =
    if (value ≟ "only_ipv4") || (value ≟ "resolve_strategy_only_ipv4")
    then only_ipv4
    else if (value ≟ "prefer_ipv4") || (value ≟ "resolve_strategy_prefer_ipv4")
    then prefer_ipv4
    else if (value ≟ "only_ipv6") || (value ≟ "resolve_strategy_only_ipv6")
    then only_ipv6
    else if (value ≟ "prefer_ipv6") || (value ≟ "resolve_strategy_prefer_ipv6")
    then prefer_ipv6
    else ResolveStrategy.default

unfoldable pub parse_udp_proxy_fqdn_strategy : String → UdpProxyFqdnStrategy
parse_udp_proxy_fqdn_strategy value =
    if (value ≟ "resolve") || (value ≟ "udp_proxy_fqdn_strategy_resolve")
    then resolve
    else if (value ≟ "skip_resolve") || (value ≟ "udp_proxy_fqdn_strategy_skip_resolve")
    then skip_resolve
    else UdpProxyFqdnStrategy.default
