-- ===== src/Route/Rules/Semantics.antt =====
-- What the matchers decide, apart from the history that they record.
use text.Mathlib.Text.{◌==◌ as ◌≟◌, starts_with}
use Prim.Native.String.{String}
use yuhaiin.Prelude.{
  ◌≡◌, refl, Bool, true, false, ◌&&◌, ◌||◌, List, if◌then◌else◌, contains, ℕ_discrete, Bool-cases,
  inl, inr,
}
use yuhaiin.Bytes.{bytes_discrete}
use yuhaiin.Route.{
  Matcher, inbound, network, port, geoip, in_list, and, or, MatcherList, no_matchers, matchers,
  ListName, Known, Context, Address, recorded, match_inbound, match_network, matches, match_all,
  match_any,
}
use yuhaiin.Route.Texts.{has_name}

-- The decision alone.
unfoldable pub network_holds : String → Address → Bool
network_holds n a =
    if (n ≟ "tcp") || (n ≟ "network_tcp")
    then starts_with a.network "tcp"
    else if (n ≟ "udp") || (n ≟ "network_udp")
    then starts_with a.network "udp"
    else false

unfoldable pub inbound_holds : List String → Known → Bool
inbound_holds names k = if k.inbound_name ≟ "" then false else has_name names k.inbound_name

unfoldable mutual
  unfolding network_holds inbound_holds

  pub holds : Matcher → Known → Address → Bool
  holds (inbound names) k a = inbound_holds names k
  holds (network n) k a = network_holds n a
  holds (port ps) k a = contains ℕ_discrete ps a.port
  holds (geoip cs) k a = contains bytes_discrete cs k.geo
  holds (in_list l) k a = has_name k.lists l
  holds (and ms) k a = all_hold ms k a
  holds (or name ms) k a = any_holds ms k a

  pub all_hold : MatcherList → Known → Address → Bool
  all_hold no_matchers k a = true
  all_hold (matchers m ms) k a = holds m k a && all_hold ms k a

  pub any_holds : MatcherList → Known → Address → Bool
  any_holds no_matchers k a = false
  any_holds (matchers m ms) k a = holds m k a || any_holds ms k a

-- A result and a context are those of a decision: the result is it, and only the history may differ.
abbrev pub Decides : Bool × Context → Bool → Known → Type 0
Decides r b k = (r.0 ≡ b) × (r.1.known ≡ k)

recorded-Decides :
    (c : Context) (name : ListName) (ok : Bool) → Decides (recorded c name ok) ok c.known
unfolding recorded
recorded-Decides c name ok = (refl, refl)

network-Decides :
    (n : String) (c : Context) (a : Address)
    → Decides (match_network n c a) (network_holds n a) c.known
unfolding match_network network_holds recorded
network-Decides n c a = elim (Bool-cases ((n ≟ "tcp") || (n ≟ "network_tcp"))) [
  | inl tcp ↦ rw tcp ((refl, refl))
  | inr other ↦ rw other (elim (Bool-cases ((n ≟ "udp") || (n ≟ "network_udp"))) [
    | inl udp ↦ rw udp ((refl, refl))
    | inr none ↦ rw none ((refl, refl))
  ])
]

and-Decides :
    (r rest : Bool × Context) (b bs : Bool) (k : Known)
    → Decides r b k
    → Decides rest bs k
    → Decides (if r.0 then rest else (false, r.1)) (b && bs) k
and-Decides r rest true bs k d e = rw (d.0) e
and-Decides r rest false bs k d e = rw (d.0) ((refl, d.1))

or-Decides :
    (r rest : Bool × Context) (b bs : Bool) (k : Known)
    → Decides r b k
    → Decides rest bs k
    → Decides (if r.0 then (true, r.1) else rest) (b || bs) k
or-Decides r rest true bs k d e = rw (d.0) ((refl, d.1))
or-Decides r rest false bs k d e = rw (d.0) e

mutual
  unfolding matches match_inbound recorded holds match_all match_any all_hold any_holds

  -- Matching decides what holds of the connection, and changes nothing but the history.
  pub matches-Decides :
      (m : Matcher) (c : Context) (a : Address) (k : Known)
      → c.known ≡ k
      → Decides (matches m c a) (holds m k a) k
  matches-Decides (inbound names) c a k e = rw (← e) ((refl, refl))
  matches-Decides (network n) c a k e = rw (← e) (network-Decides n c a)
  matches-Decides (port ps) c a k e = (refl, e)
  matches-Decides (geoip cs) c a k e = rw (← e) ((refl, refl))
  matches-Decides (in_list l) c a k e = rw (← e) ((refl, refl))
  matches-Decides (and ms) c a k e = match_all-Decides ms c a k e
  matches-Decides (or name ms) c a k e = match_any-Decides ms c a k e

  match_all-Decides :
      (ms : MatcherList) (c : Context) (a : Address) (k : Known)
      → c.known ≡ k
      → Decides (match_all ms c a) (all_hold ms k a) k
  match_all-Decides no_matchers c a k e = (refl, e)
  match_all-Decides (matchers m ms) c a k e =
      let first = matches-Decides m c a k e in
      and-Decides (matches m c a) (match_all ms (matches m c a).1 a) (holds m k a) (all_hold ms k a)
        k first (match_all-Decides ms (matches m c a).1 a k first.1)

  match_any-Decides :
      (ms : MatcherList) (c : Context) (a : Address) (k : Known)
      → c.known ≡ k
      → Decides (match_any ms c a) (any_holds ms k a) k
  match_any-Decides no_matchers c a k e = (refl, e)
  match_any-Decides (matchers m ms) c a k e =
      let first = matches-Decides m c a k e in
      or-Decides (matches m c a) (match_any ms (matches m c a).1 a) (holds m k a) (any_holds ms k a)
        k first (match_any-Decides ms (matches m c a).1 a k first.1)
