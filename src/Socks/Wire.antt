-- ===== src/Socks/Wire.antt =====
-- What is written is read back.
use yuhaiin.Prelude.{
  ℕ, ◌+◌, ◌%◌, ◌≤◌, ◌<◌, ◌≡◌, refl, sym, ap, ◌∙◌, ◌⊎◌, inl, inr, Bool, true, false, ◌∷◌, ◌++◌, ltb,
  length, take, drop, arith, length-append, take_of_length-le, take_append, drop_append,
  drop-append_past, take_append_of_le, append_assoc,
}
use yuhaiin.Bytes.{Bytes, put_be, get_be, length-put_be, get_be-put_be}
use yuhaiin.Socks.{
  Address, domain_addr, ip_addr, from_slice, parse_ip_addr, write_addr, decoded, parse_domain_port,
  decode_addr, read_ip, read_domain, read_addr,
}

-- What the wire can carry: a domain name of at most 255 bytes, or an address of 4 or 16 bytes that is
-- not an IPv4 address in IPv6 form.
unfoldable pub Encodable : (Bytes → Bool) → Address → Type 0
Encodable is_name (domain_addr host port) =
    (length host ≤ 255) × (is_name host ≡ true) × (port < 65536)
Encodable is_name (ip_addr ip port) =
    ((length ip ≡ 4) ⊎ (length ip ≡ 16)) × (from_slice ip ≡ ip) × (port < 65536)

-- The first of two runs, and what comes after it.
pub first : (xs ys zs : Bytes) (n : ℕ) → length xs ≡ n → take n ((xs ++ ys) ++ zs) ≡ xs
first xs ys zs n e = rw (append_assoc xs ys zs, ← e) (take_append xs (ys ++ zs))

port_after :
    (xs zs : Bytes) (port n : ℕ)
    → length xs ≡ n
    → port < 65536
    → get_be (take 2 (drop n ((xs ++ put_be 2 port) ++ zs))) ≡ port
port_after xs zs port n e lt =
    ap (λ b. get_be (take 2 b)) (ap (drop n) (append_assoc xs (put_be 2 port) zs) ∙ met)
    ∙ ap get_be (
        take_append_of_le 2 (put_be 2 port) zs (omega (arith, length-put_be 2 port))
        ∙ take_of_length-le 2 (put_be 2 port) (omega (arith, length-put_be 2 port)))
    ∙ get_be-put_be 2 port lt
  where
    met : drop n (xs ++ (put_be 2 port ++ zs)) ≡ put_be 2 port ++ zs
    met = rw (← e) (drop_append xs (put_be 2 port ++ zs))

rest_after :
    (xs zs : Bytes) (port n : ℕ) → length xs ≡ n → drop (n + 2) ((xs ++ put_be 2 port) ++ zs) ≡ zs
rest_after xs zs port n e =
    ap (drop (n + 2)) (append_assoc xs (put_be 2 port) zs)
    ∙ drop-append_past xs (put_be 2 port ++ zs) 2 (n + 2) (omega arith)
    ∙ met
  where
    met : drop 2 (put_be 2 port ++ zs) ≡ zs
    met =
        ap (λ k. drop k (put_be 2 port ++ zs)) (sym (length-put_be 2 port))
        ∙ drop_append (put_be 2 port) zs

pub enough :
    (xs zs : Bytes) (port n k : ℕ)
    → length xs ≡ n
    → k ≤ n + 2
    → ltb (length ((xs ++ put_be 2 port) ++ zs)) k ≡ false
enough xs zs port n k e le = ground (
  arith,
  length-append (xs ++ put_be 2 port) zs,
  length-append xs (put_be 2 port),
  length-put_be 2 port,
)

pub ip_back :
    (ip rest : Bytes) (port n : ℕ)
    → length ip ≡ n
    → from_slice ip ≡ ip
    → port < 65536
    → parse_ip_addr
        (take n ((ip ++ put_be 2 port) ++ rest))
        (get_be (take 2 (drop n ((ip ++ put_be 2 port) ++ rest))))
      ≡ ip_addr ip port
unfolding parse_ip_addr
ip_back ip rest port n e f lt =
    rw (first ip (put_be 2 port) rest n e, port_after ip rest port n e lt)
      (ap (λ b. ip_addr b port) f)

-- The length on the wire.
pub written : (xs : Bytes) (port : ℕ) → length (xs ++ put_be 2 port) ≡ length xs + 2
written xs port = length-append xs (put_be 2 port) ∙ ap (λ n. length xs + n) (length-put_be 2 port)

module _ (is_name : Bytes → Bool) where
  read_domain-write :
      (host rest : Bytes) (port : ℕ)
      → length host ≤ 255
      → is_name host ≡ true
      → port < 65536
      → read_domain is_name ((length host % 256) ∷ ((host ++ put_be 2 port) ++ rest))
        ≡ (decoded (1 + 1 + length host + 2) (domain_addr host port), rest)
  unfolding read_domain parse_domain_port
  read_domain-write host rest port le name lt =
      let small : length host % 256 ≡ length host = omega arith in
      rw
        (
          small,
          enough host rest port (length host) (length host + 2) refl (omega arith),
          first host (put_be 2 port) rest (length host) refl,
          port_after host rest port (length host) refl lt,
          rest_after host rest port (length host) refl,
          name,
        )
        refl

  read_ip-write :
      (ip rest : Bytes) (port n : ℕ)
      → length ip ≡ n
      → from_slice ip ≡ ip
      → port < 65536
      → read_ip n ((ip ++ put_be 2 port) ++ rest) ≡ (decoded (1 + n + 2) (ip_addr ip port), rest)
  unfolding read_ip
  read_ip-write ip rest port n e f lt =
      rw
        (
          enough ip rest port n (n + 2) e (omega arith),
          ip_back ip rest port n e f lt,
          rest_after ip rest port n e,
        )
        refl

  pub decode_domain-write :
      (host rest : Bytes) (port : ℕ)
      → length host ≤ 255
      → is_name host ≡ true
      → port < 65536
      → decode_addr is_name (3 ∷ (length host % 256) ∷ ((host ++ put_be 2 port) ++ rest))
        ≡ decoded (1 + 1 + length host + 2) (domain_addr host port)
  unfolding decode_addr parse_domain_port
  decode_domain-write host rest port le name lt =
      let small : length host % 256 ≡ length host = omega arith in
      rw
        (
          small,
          enough host rest port (length host) 1 refl (omega arith),
          enough host rest port (length host) (length host + 2) refl (omega arith),
          first host (put_be 2 port) rest (length host) refl,
          port_after host rest port (length host) refl lt,
          name,
        )
        refl

  -- For an address that the wire can carry, reading back what was written gives the address and its
  -- length on the wire, and leaves what follows it to be read.
  pub read_addr-write_addr :
      (a : Address) (rest : Bytes)
      → Encodable is_name a
      → read_addr is_name (write_addr a ++ rest) ≡ (decoded (length (write_addr a)) a, rest)
  unfolding read_addr write_addr Encodable
  read_addr-write_addr (domain_addr host port) rest (le, name, lt) =
      read_domain-write host rest port le name lt
      ∙ ap (λ n. (decoded n (domain_addr host port), rest)) (omega (arith, written host port))
  read_addr-write_addr (ip_addr ip port) rest (inl four, f, lt) = rw four (
      read_ip-write ip rest port 4 four f lt
      ∙ ap (λ n. (decoded n (ip_addr ip port), rest)) (omega (arith, written ip port)))
  read_addr-write_addr (ip_addr ip port) rest (inr six, f, lt) = rw six (
      read_ip-write ip rest port 16 six f lt
      ∙ ap (λ n. (decoded n (ip_addr ip port), rest)) (omega (arith, written ip port)))
