-- ===== src/Tests/Codecs.antt =====
-- The theorems on the packet codecs at concrete inputs.
use yuhaiin.Prelude.{
  ℕ, zero, suc, ◌<◌, ◌≡◌, ◌≢◌, refl, inl, Bool, true, false, none, [], ◌∷◌, ◌++◌, sym, ap, same,
  replicate, arith, length, map, get_or, contains, ℕ_discrete,
}
use yuhaiin.Bytes.{Bytes}
use yuhaiin.Socks
use yuhaiin.Socks.{
  domain_addr, ip_addr, write_addr, decoded, decode_addr, read_addr, resolve_addr, resolved, panics,
  from_slice,
}
use yuhaiin.Socks.Wire.{Encodable}
use yuhaiin.Socks.Packets.{decode_addr-write_addr, resolve_addr-write_addr, resolve_addr-panics}
use yuhaiin.Quic
use yuhaiin.Quic.{Frag, gather, frames_needed, chunk}
use yuhaiin.Quic.RoundTrip.{merge_all, merge-split}

abbrev new_frag : Frag
new_frag = record { merge_map = λ _. none; split_id = 7 }

-- Two frames: eleven bytes and ten.
abbrev packet : Bytes
packet = replicate 20 0 ++ (9 ∷ [])

two_frames : length (Quic.split new_frag packet 22).1 ≡ 2
unfolding Quic.split gather frames_needed chunk
two_frames = refl

frames_made : (Quic.split new_frag packet 22).1 ≢ []
frames_made e =
    let none_made : length (Quic.split new_frag packet 22).1 ≡ 0 = ap length e in
    absurd (omega (arith, two_frames, none_made))

both_arrive :
    (i : ℕ)
    → i < length (Quic.split new_frag packet 22).1
    → contains ℕ_discrete (1 ∷ 0 ∷ []) i ≡ true
unfolding contains same ℕ_discrete
both_arrive zero lt = refl
both_arrive (suc zero) lt = refl
both_arrive (suc (suc i)) lt = absurd (omega (arith, two_frames))

merge-split_example :
    (merge_all new_frag 5 (map (λ i. get_or (Quic.split new_frag packet 22).1 i []) (1 ∷ 0 ∷ []))).1
    ≡ packet ∷ []
merge-split_example =
    merge-split new_frag new_frag packet 22 5 (1 ∷ 0 ∷ []) frames_made refl (sym two_frames)
      ((omega (arith, two_frames), (omega (arith, two_frames), tt))) both_arrive

-- Any text that is not empty.
abbrev some_text : Bytes → Bool
some_text [] = false
some_text (x ∷ xs) = true

abbrev localhost : Socks.Address
localhost = ip_addr (127 ∷ 0 ∷ 0 ∷ 1 ∷ []) 8080

localhost-Encodable : Encodable some_text localhost
unfolding Encodable from_slice
localhost-Encodable = (inl refl, refl, omega arith)

example_com-Encodable : Encodable some_text (domain_addr (replicate 11 b'a') 443)
unfolding Encodable
example_com-Encodable = (omega arith, refl, omega arith)

decode_addr-write_addr_example :
    decode_addr some_text (write_addr localhost ++ (1 ∷ 2 ∷ []))
    ≡ decoded (length (write_addr localhost)) localhost
decode_addr-write_addr_example =
    decode_addr-write_addr some_text localhost (1 ∷ 2 ∷ []) localhost-Encodable

resolve_addr-write_addr_example :
    resolve_addr (write_addr (domain_addr (replicate 11 b'a') 443) ++ (1 ∷ 2 ∷ []))
    ≡ resolved (write_addr (domain_addr (replicate 11 b'a') 443)) (1 ∷ 2 ∷ [])
resolve_addr-write_addr_example =
    resolve_addr-write_addr (replicate 11 b'a') (1 ∷ 2 ∷ []) 443 (omega arith)

resolve_addr-panics_example :
    resolve_addr (write_addr (domain_addr (replicate 252 b'a') 443) ++ []) ≡ panics
resolve_addr-panics_example =
    resolve_addr-panics (replicate 252 b'a') [] 443 (omega arith) (omega arith)
