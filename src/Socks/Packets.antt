-- ===== src/Socks/Packets.antt =====
-- Addresses at the head of a packet, and addresses that are copied off a stream.
use yuhaiin.Prelude.{
  ℕ, suc, ◌+◌, ◌%◌, ◌≤◌, ◌<◌, ◌≡◌, refl, ap, ◌∙◌, ◌⊎◌, inl, inr, Bool, true, false, [], ◌∷◌, ◌++◌,
  ltb, length, drop, arith, length-append, take_append, drop_append,
}
use yuhaiin.Bytes.{Bytes, put_be}
use yuhaiin.Socks.{
  Address, domain_addr, ip_addr, from_slice, write_addr, decoded, decode_ip, resolved, panics,
  addr_length, resolve_rest, resolve_addr, decode_addr,
}
use yuhaiin.Socks.Wire.{Encodable, enough, ip_back, written, decode_domain-write}

decode_ip-write :
    (t : ℕ) (ip rest : Bytes) (port n : ℕ)
    → length ip ≡ n
    → from_slice ip ≡ ip
    → port < 65536
    → decode_ip n (t ∷ ((ip ++ put_be 2 port) ++ rest)) ≡ decoded (1 + n + 2) (ip_addr ip port)
unfolding decode_ip
decode_ip-write t ip rest port n e f lt =
    let long : ltb (length (t ∷ ((ip ++ put_be 2 port) ++ rest))) (1 + n + 2) ≡ false =
      ground (arith, enough ip rest port n (n + 2) e) in
    let step : drop (1 + n) (t ∷ ((ip ++ put_be 2 port) ++ rest))
        ≡ drop n ((ip ++ put_be 2 port) ++ rest) =
      ap (λ k. drop k (t ∷ ((ip ++ put_be 2 port) ++ rest))) (one_more n) in
    rw (long, step, ip_back ip rest port n e f lt) refl
  where
    one_more : (k : ℕ) → 1 + k ≡ suc k
    one_more k = omega arith

module _ (is_name : Bytes → Bool) where
  decode_ip_addr :
      (ip rest : Bytes) (port n : ℕ)
      → ((n ≡ 4) × (length ip ≡ 4)) ⊎ ((n ≡ 16) × (length ip ≡ 16))
      → from_slice ip ≡ ip
      → port < 65536
      → decode_addr is_name (write_addr (ip_addr ip port) ++ rest)
        ≡ decoded (1 + n + 2) (ip_addr ip port)
  unfolding decode_addr write_addr
  decode_ip_addr [] rest port n (inl (e, four)) f lt = absurd (omega arith)
  decode_ip_addr [] rest port n (inr (e, six)) f lt = absurd (omega arith)
  decode_ip_addr (x ∷ xs) rest port n (inl (e, four)) f lt =
      let long : ltb (length ((xs ++ put_be 2 port) ++ rest)) 1 ≡ false =
        enough xs rest port 3 1 (omega arith) (omega arith) in
      rw (four, long, e) (decode_ip-write 1 (x ∷ xs) rest port 4 four f lt)
  decode_ip_addr (x ∷ xs) rest port n (inr (e, six)) f lt =
      let long : ltb (length ((xs ++ put_be 2 port) ++ rest)) 1 ≡ false =
        enough xs rest port 15 1 (omega arith) (omega arith) in
      rw (six, long, e) (decode_ip-write 4 (x ∷ xs) rest port 16 six f lt)

  -- For an address that the wire can carry, decoding what was written, with anything after it, gives
  -- the address and its length on the wire.
  pub decode_addr-write_addr :
      (a : Address) (rest : Bytes)
      → Encodable is_name a
      → decode_addr is_name (write_addr a ++ rest) ≡ decoded (length (write_addr a)) a
  unfolding write_addr Encodable
  decode_addr-write_addr (domain_addr host port) rest (le, name, lt) =
      decode_domain-write is_name host rest port le name lt
      ∙ ap (λ n. decoded n (domain_addr host port)) (omega (arith, written host port))
  decode_addr-write_addr (ip_addr ip port) rest (inl four, f, lt) =
      decode_ip_addr ip rest port 4 (inl ((refl, four))) f lt
      ∙ ap (λ n. decoded n (ip_addr ip port)) (omega (arith, written ip port))
  decode_addr-write_addr (ip_addr ip port) rest (inr six, f, lt) =
      decode_ip_addr ip rest port 16 (inr ((refl, six))) f lt
      ∙ ap (λ n. decoded n (ip_addr ip port)) (omega (arith, written ip port))

resolve_all :
    (w rest : Bytes) → 2 ≤ length w → resolve_rest (w ++ rest) (length w) ≡ resolved w rest
unfolding resolve_rest
resolve_all w rest le =
    let two : ltb (length w) 2 ≡ false = ground arith in
    let long : ltb (length (w ++ rest)) (length w) ≡ false = ground (arith, length-append w rest) in
    rw (two, long, take_append w rest, drop_append w rest) refl

-- Copying an address off a stream takes exactly its bytes, for a domain of at most 251 bytes.
pub resolve_addr-write_addr :
    (host rest : Bytes) (port : ℕ)
    → length host ≤ 251
    → resolve_addr (write_addr (domain_addr host port) ++ rest)
      ≡ resolved (write_addr (domain_addr host port)) rest
unfolding resolve_addr write_addr addr_length
resolve_addr-write_addr host rest port le =
    let n : (4 + (length host % 256)) % 256 ≡ length (write_addr (domain_addr host port)) =
      unfold write_addr in omega (arith, written host port) in
    ap (resolve_rest (write_addr (domain_addr host port) ++ rest)) n
    ∙ resolve_all (write_addr (domain_addr host port)) rest (omega (arith, written host port))

-- A domain of 252 or 253 bytes makes it panic.
pub resolve_addr-panics :
    (host rest : Bytes) (port : ℕ)
    → 252 ≤ length host
    → length host ≤ 253
    → resolve_addr (write_addr (domain_addr host port) ++ rest) ≡ panics
unfolding resolve_addr write_addr addr_length resolve_rest
resolve_addr-panics host rest port ge le =
    let two : ltb ((4 + (length host % 256)) % 256) 2 ≡ true = ground arith in rw two refl
