-- ===== src/Route/Rules/Parts.antt =====
-- The sets that `NewInbound`, `NewPort` and `NewGeoip` build, against the names and parts that they are
-- built from.
use text.Mathlib.Text.{◌==◌ as ◌≟◌}
use text.Mathlib.TextEquality.{eq_iff}
use Prim.Native.String.{String}
use yuhaiin.Prelude.{
  ℕ, ◌≡◌, refl, sym, ap, ◌∙◌, Bool, true, false, ◌||◌, Option, none, some, List, [], ◌∷◌, ◌++◌,
  contains, contains-add_new, ℕ_discrete, same, Bool-cases, inl, inr, arith, or_false,
}
use yuhaiin.Bytes.{Bytes, bytes_discrete, split}
use yuhaiin.Route.{SourceRef, Known}
use yuhaiin.Route.Texts.{
  has_name, add_name, inbound_names, trim_space, parse_uint16, push_port, push_ports,
  parse_port_list, push_country, push_countries, parse_country_list,
}
use yuhaiin.Route.Rules.{source_names}
use yuhaiin.Route.Rules.Semantics.{inbound_holds}
use yuhaiin.Route.Rules.Stated.{inbound_asked, is_port, port_asked, is_country, country_asked}

pub has_name-add_name :
    (s n : String) (xs : List String) → has_name (add_name s xs) n ≡ ((s ≟ n) || has_name xs n)
unfolding add_name has_name
has_name-add_name s n xs = elim (Bool-cases (has_name xs s)) [
  | inl old ↦ elim (Bool-cases (s ≟ n)) [
    | inl is ↦ rw (old, is) (ap (has_name xs) (sym ((eq_iff s n).0 is)) ∙ old)
    | inr other ↦ rw (old, other) refl
  ]
  | inr new ↦ rw new refl
]

empty_ne : (v n : String) → (v ≟ "") ≡ true → (n ≟ "") ≡ false → (v ≟ n) ≡ false
empty_ne v n empty named = elim (Bool-cases (v ≟ n)) [
  | inl is ↦ absurd (cc (named, empty, (eq_iff v n).0 is))
  | inr other ↦ other
]

has_name-inbound_names :
    (vs : List String) (n : String)
    → (n ≟ "") ≡ false
    → has_name (inbound_names vs) n ≡ has_name vs n
unfolding inbound_names has_name
has_name-inbound_names [] n named = refl
has_name-inbound_names (v ∷ vs) n named = elim (Bool-cases (v ≟ "")) [
  | inl empty ↦ rw (empty, empty_ne v n empty named) (has_name-inbound_names vs n named)
  | inr full ↦ rw full (
      has_name-add_name v n (inbound_names vs)
      ∙ ap (λ b. (v ≟ n) || b) (has_name-inbound_names vs n named))
]

has_name-append :
    (xs ys : List String) (n : String) → has_name (xs ++ ys) n ≡ (has_name xs n || has_name ys n)
unfolding has_name
has_name-append [] ys n = refl
has_name-append (x ∷ xs) ys n = ground (arith, has_name-append xs ys n)

has_name-source_names :
    (i : SourceRef) (n : String)
    → (n ≟ "") ≡ false
    → has_name (source_names i) n ≡ (has_name i.names n || (i.name ≟ n))
unfolding source_names
has_name-source_names i n named = elim (Bool-cases (i.name ≟ "")) [
  | inl empty ↦ rw (empty, empty_ne i.name n empty named) (ground arith)
  | inr full ↦ rw full (has_name-append i.names (i.name ∷ []) n ∙ (unfold has_name in ground arith))
]

pub inbound_holds-asked :
    (i : SourceRef) (k : Known)
    → inbound_holds (inbound_names (source_names i)) k ≡ inbound_asked i k
unfolding inbound_holds inbound_asked
inbound_holds-asked i k = elim (Bool-cases (k.inbound_name ≟ "")) [
  | inl unnamed ↦ rw unnamed (ground arith)
  | inr named ↦ rw named (
      has_name-inbound_names (source_names i) k.inbound_name named
      ∙ has_name-source_names i k.inbound_name named
      ∙ ground arith)
]

or_swap : (x y : Bool) → (x || y) ≡ (y || x)
or_swap x y = ground arith

or_step : (x y z : Bool) → (y || (x || z)) ≡ ((x || y) || z)
or_step x y z = ground arith

push_port-contains :
    (o : Option ℕ) (ps : List ℕ) (p : ℕ)
    → contains ℕ_discrete (push_port o ps) p ≡ (is_port o p || contains ℕ_discrete ps p)
unfolding push_port is_port
push_port-contains none ps p = refl
push_port-contains (some q) ps p =
    contains-add_new ℕ_discrete q ps p ∙ or_swap (contains ℕ_discrete ps p) (same ℕ_discrete q p)

push_ports-asked :
    (vs : List Bytes) (ps : List ℕ) (p : ℕ)
    → contains ℕ_discrete (push_ports vs ps) p ≡ (port_asked vs p || contains ℕ_discrete ps p)
unfolding push_ports port_asked
push_ports-asked [] ps p = refl
push_ports-asked (v ∷ vs) ps p =
    push_ports-asked vs (push_port (parse_uint16 (trim_space v)) ps) p
    ∙ ap (λ b. port_asked vs p || b) (push_port-contains (parse_uint16 (trim_space v)) ps p)
    ∙ or_step (is_port (parse_uint16 (trim_space v)) p) (port_asked vs p) (contains ℕ_discrete ps p)

pub parse_port_list-asked :
    (ports : Bytes) (p : ℕ)
    → contains ℕ_discrete (parse_port_list ports) p ≡ port_asked (split b',' ports) p
unfolding parse_port_list
parse_port_list-asked ports p =
    push_ports-asked (split b',' ports) [] p
    ∙ (unfold contains in or_false (port_asked (split b',' ports) p))

push_country-contains :
    (v : Bytes) (cs : List Bytes) (c : Bytes)
    → contains bytes_discrete (push_country v cs) c
      ≡ (is_country v c || contains bytes_discrete cs c)
unfolding push_country is_country
push_country-contains [] cs c = refl
push_country-contains (b ∷ bs) cs c =
    contains-add_new bytes_discrete (b ∷ bs) cs c
    ∙ or_swap (contains bytes_discrete cs c) (same bytes_discrete (b ∷ bs) c)

push_countries-asked :
    (vs : List Bytes) (cs : List Bytes) (c : Bytes)
    → contains bytes_discrete (push_countries vs cs) c
      ≡ (country_asked vs c || contains bytes_discrete cs c)
unfolding push_countries country_asked
push_countries-asked [] cs c = refl
push_countries-asked (v ∷ vs) cs c =
    push_countries-asked vs (push_country (trim_space v) cs) c
    ∙ ap (λ b. country_asked vs c || b) (push_country-contains (trim_space v) cs c)
    ∙ or_step (is_country (trim_space v) c) (country_asked vs c) (contains bytes_discrete cs c)

pub parse_country_list-asked :
    (countries c : Bytes)
    → contains bytes_discrete (parse_country_list countries) c
      ≡ country_asked (split b',' countries) c
unfolding parse_country_list
parse_country_list-asked countries c =
    push_countries-asked (split b',' countries) [] c
    ∙ (unfold contains in or_false (country_asked (split b',' countries) c))
