-- ===== src/Route/Settings/Decisions.antt =====
-- What the settings and the mode decide.
use text.Mathlib.Text.{◌==◌ as ◌≟◌}
use Prim.Native.String.{String}
use yuhaiin.Prelude.{
  ◌≡◌, refl, ap, ◌∙◌, Bool, true, false, not, ◌&&◌, ◌||◌, List, [], ◌∷◌, ◌++◌, if◌then◌else◌,
  Bool-cases, inl, inr, arith,
}
use yuhaiin.Route.Modes.{ModeEnum, UdpProxyFqdnStrategy, unspecified, parse_udp_proxy_fqdn_strategy}
use yuhaiin.Route.Settings.{
  RouteConfig, Config, code, udp_proxy_fqdn_strategy_code, udp_proxy_fqdn_strategy_from_code,
  route_settings_from_contract, route_config_from_store, is_resolve, is_skip_resolve, is_proxy,
  skips_resolve, pick_mode,
}

normal : UdpProxyFqdnStrategy → UdpProxyFqdnStrategy
normal UdpProxyFqdnStrategy.unset = UdpProxyFqdnStrategy.default
normal UdpProxyFqdnStrategy.default = UdpProxyFqdnStrategy.default
normal UdpProxyFqdnStrategy.resolve = UdpProxyFqdnStrategy.resolve
normal UdpProxyFqdnStrategy.skip_resolve = UdpProxyFqdnStrategy.skip_resolve

from_code-code : (s : UdpProxyFqdnStrategy) → udp_proxy_fqdn_strategy_from_code (code s) ≡ normal s
unfolding udp_proxy_fqdn_strategy_from_code code normal
from_code-code UdpProxyFqdnStrategy.unset = refl
from_code-code UdpProxyFqdnStrategy.default = refl
from_code-code UdpProxyFqdnStrategy.resolve = refl
from_code-code UdpProxyFqdnStrategy.skip_resolve = refl

normal-parse :
    (v : String) → normal (parse_udp_proxy_fqdn_strategy v) ≡ parse_udp_proxy_fqdn_strategy v
unfolding normal parse_udp_proxy_fqdn_strategy
normal-parse v = elim (Bool-cases ((v ≟ "resolve") || (v ≟ "udp_proxy_fqdn_strategy_resolve"))) [
  | inl yes_resolve ↦ rw yes_resolve refl
  | inr other ↦
      rw other
        (elim (Bool-cases ((v ≟ "skip_resolve") || (v ≟ "udp_proxy_fqdn_strategy_skip_resolve"))) [
          | inl skip ↦ rw skip refl
          | inr neither ↦ rw neither refl
        ])
]

-- The settings of a request, stored by their codes and read back, are those of the request with its
-- strategy parsed.
pub config-settings :
    (c : Config)
    → route_config_from_store (route_settings_from_contract c) ≡ record {
      direct_resolver = c.direct_resolver;
      proxy_resolver = c.proxy_resolver;
      resolve_locally = c.resolve_locally;
      udp_proxy_fqdn_strategy = parse_udp_proxy_fqdn_strategy c.udp_proxy_fqdn_strategy;
    }
unfolding route_config_from_store route_settings_from_contract
config-settings c =
    ap
      (λ u. record {
        direct_resolver = c.direct_resolver;
        proxy_resolver = c.proxy_resolver;
        resolve_locally = c.resolve_locally;
        udp_proxy_fqdn_strategy = u;
      })
      (unfold udp_proxy_fqdn_strategy_code in
        (from_code-code (parse_udp_proxy_fqdn_strategy c.udp_proxy_fqdn_strategy)
          ∙ normal-parse c.udp_proxy_fqdn_strategy))

-- Resolving the target is skipped exactly for the proxy mode, when the rule says so, or when the
-- settings say so and the rule does not ask to resolve.
pub skips_resolve_lem :
    (c : RouteConfig) (m : ModeEnum)
    → skips_resolve c m ≡ (
        is_proxy m.mode
        && (is_skip_resolve m.udp_proxy_fqdn
            || (is_skip_resolve c.udp_proxy_fqdn_strategy && not (is_resolve m.udp_proxy_fqdn))))
unfolding skips_resolve
skips_resolve_lem c m = ground arith

passed {ℓ} :
    {S : Type ℓ} (b : Bool) (r rest rest' x : ModeEnum × S) (t : S)
    → unspecified r.0.mode ≡ b
    → unspecified (if b then rest else r).0.mode ≡ true
    → (if b then rest else r).1 ≡ t
    → (unspecified rest.0.mode ≡ true → rest.1 ≡ t → rest' ≡ x)
    → (if b then rest' else r) ≡ x
passed true r rest rest' x t d un e next = next un e
passed false r rest rest' x t d un e next = cc

-- The first matcher with a specified mode decides, and those after it are not asked.
pub pick_mode-first {ℓ} :
    {S : Type ℓ} (ms ns : List (S → ModeEnum × S)) (m : S → ModeEnum × S) (mode : ModeEnum)
    (s t : S)
    → unspecified (pick_mode ms mode s).0.mode ≡ true
    → (pick_mode ms mode s).1 ≡ t
    → unspecified (m t).0.mode ≡ false
    → pick_mode (ms ++ (m ∷ ns)) mode s ≡ m t
unfolding pick_mode
pick_mode-first [] ns m mode s t un e specified = rw (e, specified) refl
pick_mode-first (n ∷ ms) ns m mode s t un e specified =
    passed (unspecified (n s).0.mode) (n s) (pick_mode ms (n s).0 (n s).1)
      (pick_mode (ms ++ (m ∷ ns)) (n s).0 (n s).1) (m t) t refl un e
      (λ un' e'. pick_mode-first ms ns m (n s).0 (n s).1 t un' e' specified)
