-- ===== src/Socks.antt =====
-- pkg/net/proxy/socks5/tools/tools.go: addresses on the wire, and the parts of netapi/address.go that
-- build an address. A reader is the bytes that it still yields. Slicing beyond a slice's length is
-- `past_end`: Go then panics or, where the slice has capacity to spare, reads what stands there.
-- Whether a text is a domain name is the standard library's `net.isDomainName`, a parameter.
pub mod Wire
pub mod Packets
use yuhaiin.Prelude.{
  ℕ, ◌+◌, ◌-◌, ◌%◌, Bool, true, false, ◌&&◌, ◌||◌, List, [], ◌∷◌, ◌++◌, ◌==◌, if◌then◌else◌, ltb,
  length, take, drop, Option, none, some,
}
use yuhaiin.Bytes.{Bytes, put_be, get_be, eq_bytes}

-- An IP address is its 4 or 16 bytes.
pub data Address : Type 0 where
  domain_addr : Bytes → ℕ → Address
  ip_addr : Bytes → ℕ → Address

abbrev pub mapped_prefix : Bytes
mapped_prefix = 0 ∷ 0 ∷ 0 ∷ 0 ∷ 0 ∷ 0 ∷ 0 ∷ 0 ∷ 0 ∷ 0 ∷ 255 ∷ 255 ∷ []

-- `toAddrPort`: `netip.AddrFromSlice`, 0.0.0.0 if that fails, then `Unmap`.
unfoldable pub from_slice : Bytes → Bytes
from_slice ip =
    if length ip == 4
    then ip
    else if length ip == 16
    then (if eq_bytes (take 12 ip) mapped_prefix then drop 12 ip else ip)
    else 0 ∷ 0 ∷ 0 ∷ 0 ∷ []

pub parse_ip_addr : Bytes → ℕ → Address
unfolding from_slice
parse_ip_addr ip port = ip_addr (from_slice ip) port

pub write_addr : Address → Bytes
write_addr (domain_addr host port) = 3 ∷ (length host % 256) ∷ (host ++ put_be 2 port)
write_addr (ip_addr ip port) = (if length ip == 4 then 1 else 4) ∷ (ip ++ put_be 2 port)

pub data Decoded : Type 0 where
  decoded : ℕ → Address → Decoded
  unexpected_eof : Decoded
  unknown_type : ℕ → Decoded
  parse_failed : Decoded
  past_end : Decoded

-- `n` is the length of the IP address.
pub decode_ip : ℕ → Bytes → Decoded
unfolding parse_ip_addr
decode_ip n b =
    if ltb (length b) (1 + n + 2)
    then past_end
    else decoded (1 + n + 2) (parse_ip_addr (take n (drop 1 b)) (get_be (take 2 (drop (1 + n) b))))

-- Slicing of a stream's bytes as `ResolveAddr` returns them.
pub data Resolved : Type 0 where
  resolved : Bytes → Bytes → Resolved
  short : Resolved
  unknown_type : ℕ → Resolved
  panics : Resolved

-- The length of the address to read from the type and the byte after it. For a domain the sum is of
-- bytes, and wraps.
pub addr_length : ℕ → ℕ → Option ℕ
addr_length atype b1 =
    if atype == 1
    then some 7
    else if atype == 4
    then some 19
    else if atype == 3
    then some ((4 + b1) % 256)
    else none

-- `addr[2:]` of an address of fewer than two bytes panics.
pub resolve_rest : Bytes → ℕ → Resolved
resolve_rest s n =
    if ltb n 2 then panics else if ltb (length s) n then short else resolved (take n s) (drop n s)

pub resolve_addr : Bytes → Resolved
unfolding addr_length resolve_rest
resolve_addr [] = short
resolve_addr (b0 ∷ []) = short
resolve_addr (b0 ∷ b1 ∷ r) = elim (addr_length b0 b1) [
  | none ↦ Resolved.unknown_type b0
  | some n ↦ resolve_rest (b0 ∷ b1 ∷ r) n
]

-- `Peek` and `Discard` of the address and the port: what remains is read from there.
pub read_ip : ℕ → Bytes → Decoded × Bytes
unfolding parse_ip_addr
read_ip n r = if ltb (length r) (n + 2) then (unexpected_eof, r) else (
  decoded (1 + n + 2) (parse_ip_addr (take n r) (get_be (take 2 (drop n r)))),
  drop (n + 2) r,
)

module _ (is_domain_name : Bytes → Bool) where
  -- `ParseDomainPort`; the network is left out.
  pub parse_domain_port : ℕ → Bytes → ℕ → Decoded
  parse_domain_port n host port =
      if is_domain_name host then decoded n (domain_addr host port) else parse_failed

  pub decode_addr : Bytes → Decoded
  unfolding decode_ip parse_domain_port
  decode_addr [] = unexpected_eof
  decode_addr (t ∷ []) = unexpected_eof
  decode_addr (t ∷ l ∷ r) =
      if ltb (length r) 1
      then unexpected_eof
      else if t == 1
      then decode_ip 4 (t ∷ l ∷ r)
      else if t == 4
      then decode_ip 16 (t ∷ l ∷ r)
      else if t == 3
      then (if ltb (length r) (l + 2)
          then unexpected_eof
          else parse_domain_port (1 + 1 + l + 2) (take l r) (get_be (take 2 (drop l r))))
      else Decoded.unknown_type t

  pub read_domain : Bytes → Decoded × Bytes
  unfolding parse_domain_port
  read_domain [] = (unexpected_eof, [])
  read_domain (l ∷ r) = if ltb (length r) (l + 2) then (unexpected_eof, r) else (
    parse_domain_port (1 + 1 + l + 2) (take l r) (get_be (take 2 (drop l r))),
    drop (l + 2) r,
  )

  pub read_addr : Bytes → Decoded × Bytes
  unfolding read_ip read_domain
  read_addr [] = (unexpected_eof, [])
  read_addr (t ∷ r) =
      if t == 1
      then read_ip 4 r
      else if t == 4
      then read_ip 16 r
      else if t == 3
      then read_domain r
      else (Decoded.unknown_type t, r)
