-- ===== src/Route/Texts.antt =====
-- The texts that matchers are built from: `NewPort`, `NewGeoip`, `NewInbound`'s set of names, and the
-- standard library's `TrimSpace` and `ParseUint(v, 10, 16)`. White space is that of ASCII.
use text.Mathlib.Text.{◌==◌ as ◌≟◌}
use Prim.Native.String.{String}
use mathlib.Core.List.{reverse}
use yuhaiin.Prelude.{
  ℕ, ◌+◌, ◌-◌, ◌*◌, Bool, false, ◌&&◌, ◌||◌, Option, none, some, List, [], ◌∷◌, ◌==◌, if◌then◌else◌,
  leb, ltb, add_new, ℕ_discrete,
}
use yuhaiin.Bytes.{Bytes, bytes_discrete, split}

unfoldable pub has_name : List String → String → Bool
has_name [] s = false
has_name (x ∷ xs) s = (x ≟ s) || has_name xs s

-- `Set.Push`
unfoldable pub add_name : String → List String → List String
unfolding has_name
add_name s xs = if has_name xs s then xs else s ∷ xs

unfoldable pub is_space : ℕ → Bool
is_space b = (b == 32) || (leb 9 b && leb b 13)

trim_left : Bytes → Bytes
unfolding is_space
trim_left [] = []
trim_left (b ∷ bs) = let rest = trim_left bs in if is_space b then rest else b ∷ bs

unfoldable pub trim_space : Bytes → Bytes
unfolding trim_left
trim_space s = reverse (trim_left (reverse (trim_left s)))

digits_from : ℕ → Bytes → Option ℕ
digits_from n [] = some n
digits_from n (b ∷ bs) =
    let m = n * 10 + (b - b'0') in
    let rest = digits_from m bs in
    if leb b'0' b && leb b b'9' then (if ltb 65535 m then none else rest) else none

-- `none` is the error, of syntax or of range.
unfoldable pub parse_uint16 : Bytes → Option ℕ
unfolding digits_from
parse_uint16 [] = none
parse_uint16 (b ∷ bs) = digits_from 0 (b ∷ bs)

unfoldable pub push_port : Option ℕ → List ℕ → List ℕ
push_port none ps = ps
push_port (some p) ps = add_new ℕ_discrete p ps

unfoldable pub push_ports : List Bytes → List ℕ → List ℕ
unfolding push_port trim_space parse_uint16
push_ports [] ps = ps
push_ports (v ∷ vs) ps = push_ports vs (push_port (parse_uint16 (trim_space v)) ps)

-- `NewPort`: an empty part, and one that is no port, is passed over.
unfoldable pub parse_port_list : Bytes → List ℕ
unfolding push_ports
parse_port_list ports = push_ports (split b',' ports) []

unfoldable pub push_country : Bytes → List Bytes → List Bytes
push_country [] cs = cs
push_country (b ∷ bs) cs = add_new bytes_discrete (b ∷ bs) cs

unfoldable pub push_countries : List Bytes → List Bytes → List Bytes
unfolding push_country trim_space
push_countries [] cs = cs
push_countries (v ∷ vs) cs = push_countries vs (push_country (trim_space v) cs)

-- `NewGeoip`
unfoldable pub parse_country_list : Bytes → List Bytes
unfolding push_countries
parse_country_list countries = push_countries (split b',' countries) []

-- `NewInbound`
unfoldable pub inbound_names : List String → List String
unfolding add_name
inbound_names [] = []
inbound_names (v ∷ vs) = let rest = inbound_names vs in if v ≟ "" then rest else add_name v rest
