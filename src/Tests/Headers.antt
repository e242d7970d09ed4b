-- ===== src/Tests/Headers.antt =====
-- The theorems on the headers of a connection at concrete inputs.
use yuhaiin.Prelude.{
  ◌≡◌, refl, Bool, true, none, some, [], ◌∷◌, ◌++◌, arith, ◌==◌, if◌then◌else◌, length, replicate,
  inl, same,
}
use yuhaiin.Bytes.{Bytes, bytes_discrete, get_be}
use yuhaiin.Socks.{ip_addr, from_slice}
use yuhaiin.Socks.Wire.{Encodable}
use yuhaiin.Yuubinsya.{
  Header, udp_with_migrate_id, network, unknown, has_addr, encode_header, header, decode_header,
}
use yuhaiin.Yuubinsya.Codec.{Carried, decode_header-encode_header}
use yuhaiin.Yuubinsya.Password.{decode_header-password}

abbrev any_text : Bytes → Bool
any_text host = true

abbrev secret : Bytes
secret = replicate 32 9

abbrev to_localhost : Header
to_localhost = record {
  addr = some (ip_addr (127 ∷ 0 ∷ 0 ∷ 1 ∷ []) 8080);
  migrate_id = 0;
  protocol = 2;
}

to_localhost-Carried : Carried any_text to_localhost
unfolding unknown has_addr Encodable from_slice
to_localhost-Carried = record {
  known = refl;
  is_word = omega arith;
  no_migrate_id = λ h. refl;
  target = (inl refl, refl, omega arith);
}

decode_header-encode_header_example :
    (bs : Bytes) × (encode_header secret to_localhost ≡ some bs)
    × (decode_header any_text secret (bs ++ (1 ∷ 2 ∷ [])) ≡ header to_localhost (1 ∷ 2 ∷ []))
decode_header-encode_header_example =
    decode_header-encode_header any_text secret to_localhost (1 ∷ 2 ∷ []) refl to_localhost-Carried

abbrev migrating : Header
migrating = record { addr = none; migrate_id = 7; protocol = 6 }

abbrev migrating_bytes : Bytes
migrating_bytes = (6 ∷ 0 ∷ 0 ∷ 0 ∷ 0 ∷ 0 ∷ 0 ∷ 0 ∷ 7 ∷ []) ++ (secret ++ (1 ∷ []))

migrating_decoded : decode_header any_text secret migrating_bytes ≡ header migrating (1 ∷ [])
unfolding decode_header same bytes_discrete get_be
migrating_decoded = refl

decode_header-password_example :
    (before : Bytes) × (tail : Bytes) × (migrating_bytes ≡ before ++ (secret ++ tail))
    × (length before ≡ (if network 6 == udp_with_migrate_id then 9 else 1))
decode_header-password_example =
    decode_header-password any_text secret migrating_bytes (1 ∷ []) migrating migrating_decoded
