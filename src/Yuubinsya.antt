-- ===== src/Yuubinsya.antt =====
-- pkg/net/proxy/yuubinsya/header.go: the first bytes of a connection. A reader is the bytes that it still
-- yields. An address that is nil is `none`, and writing it a panic, `none` of `encode_header`.
-- `is_domain_name` is the parameter of the SOCKS5 addresses.
pub mod Codec
pub mod Password
use yuhaiin.Prelude.{
  ℕ, ◌%◌, Bool, true, false, not, ◌&&◌, ◌||◌, Option, none, some, List, [], ◌∷◌, ◌++◌, ◌==◌,
  if◌then◌else◌, ltb, length, take, drop,
}
use yuhaiin.Bytes.{Bytes, put_be, get_be, eq_bytes}
use yuhaiin.Socks.{Address, Decoded, decoded, write_addr, read_addr}

pub record Header : Type 0 where
  pub addr : Option Address
  pub migrate_id : ℕ
  pub protocol : ℕ

abbrev pub tcp : ℕ
tcp = 2

abbrev pub ping : ℕ
ping = 4

abbrev pub udp : ℕ
udp = 5

abbrev pub udp_with_migrate_id : ℕ
udp_with_migrate_id = 6

-- `Network`: the lowest three bits.
unfoldable pub network : ℕ → ℕ
network n = n % 8

unfoldable pub unknown : ℕ → Bool
unfolding network
unknown n =
    not (network n == tcp)
    && not (network n == udp)
    && not (network n == udp_with_migrate_id)
    && not (network n == ping)

-- Whether the header has an address.
unfoldable pub has_addr : ℕ → Bool
unfolding network
has_addr n = (network n == tcp) || (n == ping)

unfoldable pub encode_migrate_id : Header → Bytes
unfolding network
encode_migrate_id h =
    if network h.protocol == udp_with_migrate_id then put_be 8 h.migrate_id else []

unfoldable pub encode_header : Bytes → Header → Option Bytes
unfolding encode_migrate_id has_addr
encode_header password h =
    let start = h.protocol ∷ (encode_migrate_id h ++ password) in
    if has_addr h.protocol
    then elim h.addr [ none ↦ none | some a ↦ some (start ++ write_addr a) ]
    else some start

pub data DecodedHeader : Type 0 where
  header : Header → Bytes → DecodedHeader
  read_network_failed : DecodedHeader
  unknown_network : ℕ → DecodedHeader
  read_migrate_id_failed : DecodedHeader
  read_password_failed : DecodedHeader
  incorrect_password : DecodedHeader
  read_addr_failed : Decoded → DecodedHeader

module _ (is_domain_name : Bytes → Bool) (password : Bytes) where
  -- From the address on.
  unfoldable pub decode_target : Header → Bytes → DecodedHeader
  unfolding has_addr
  decode_target h r =
      let read = read_addr is_domain_name r in
      if has_addr h.protocol
      then elim (read.0) [
        | decoded n a ↦ header (record h { addr = some a }) read.1
        | e ↦ read_addr_failed e
      ]
      else header h r

  -- From the password on.
  unfoldable pub decode_password : Header → Bytes → DecodedHeader
  unfolding decode_target
  decode_password h r =
      let target = decode_target h (drop 32 r) in
      if ltb (length r) 32
      then read_password_failed
      else if eq_bytes (take 32 r) password
      then target
      else incorrect_password

  unfoldable pub decode_header : Bytes → DecodedHeader
  unfolding decode_password unknown
  decode_header [] = read_network_failed
  decode_header (n ∷ r) =
      if unknown n
      then unknown_network n
      else if network n == udp_with_migrate_id
      then (if ltb (length r) 8
          then read_migrate_id_failed
          else decode_password
              (record { addr = none; migrate_id = get_be (take 8 r); protocol = n }) (drop 8 r))
      else decode_password (record { addr = none; migrate_id = 0; protocol = n }) r
