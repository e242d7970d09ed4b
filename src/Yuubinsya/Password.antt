-- ===== src/Yuubinsya/Password.antt =====
-- What decodes has the password.
use yuhaiin.Prelude.{
  ◌≡◌, refl, sym, ap, ◌∙◌, Bool, none, some, [], ◌∷◌, ◌++◌, arith, ◌==◌, if◌then◌else◌, ltb, length,
  take, drop, length-take, take-append-drop, same→eq, Bool-cases, inl, inr,
}
use yuhaiin.Bytes.{Bytes, get_be, eq_bytes, bytes_discrete}
use yuhaiin.Socks.{Decoded, decoded, unexpected_eof, parse_failed, past_end, read_addr}
use yuhaiin.Yuubinsya.{
  Header, udp_with_migrate_id, network, unknown, has_addr, header, read_addr_failed, decode_target,
  decode_password, decode_header,
}

module _ (is_name : Bytes → Bool) where
  read-protocol :
      (h h' : Header) (r rest : Bytes) (d : Decoded)
      → (elim d [ decoded n a ↦ header (record h { addr = some a }) r | e ↦ read_addr_failed e ])
        ≡ header h' rest
      → h'.protocol ≡ h.protocol
  read-protocol h h' r rest (decoded n a) d = cc
  read-protocol h h' r rest unexpected_eof d = cc
  read-protocol h h' r rest (Decoded.unknown_type x) d = cc
  read-protocol h h' r rest parse_failed d = cc
  read-protocol h h' r rest past_end d = cc

  target-protocol :
      (password : Bytes) (h h' : Header) (r rest : Bytes)
      → decode_target is_name password h r ≡ header h' rest
      → h'.protocol ≡ h.protocol
  unfolding decode_target
  target-protocol password h h' r rest d = elim (Bool-cases (has_addr h.protocol)) [
    | inl has ↦ read-protocol h h' _ rest ((read_addr is_name r).0) (rw (decode_target, has) at d)
    | inr lacks ↦ cc (rw (decode_target, lacks) at d)
  ]

  -- The bytes that a password is found in begin with it.
  password-found :
      (password : Bytes) (h h' : Header) (r rest : Bytes)
      → decode_password is_name password h r ≡ header h' rest
      → (r ≡ password ++ drop 32 r) × (h'.protocol ≡ h.protocol)
  unfolding decode_password
  password-found password h h' r rest d = elim (Bool-cases (ltb (length r) 32)) [
    | inl short ↦ absurd (cc (rw (decode_password, short) at d))
    | inr long ↦ elim (Bool-cases (eq_bytes (take 32 r) password)) [
      | inr other ↦ absurd (cc (rw (decode_password, long, other) at d))
      | inl found ↦ (
        sym (take-append-drop 32 r)
            ∙ ap (λ p. p ++ drop 32 r) (same→eq bytes_discrete (take 32 r) password found),
        target-protocol password h h' (drop 32 r) rest (rw (decode_password, long, found) at d),
      )
    ]
  ]

  -- What decodes to a header has the password in its bytes, after the
  -- first or, for a header with a migration number, after the ninth. Other bytes are refused.
  pub decode_header-password :
      (password bs rest : Bytes) (h : Header)
      → decode_header is_name password bs ≡ header h rest
      → (before : Bytes) × (tail : Bytes) × (bs ≡ before ++ (password ++ tail))
        × (length before ≡ (if network h.protocol == udp_with_migrate_id then 9 else 1))
  unfolding decode_header
  decode_header-password password [] rest h d = absurd (cc d)
  decode_header-password password (n ∷ r) rest h d = elim (Bool-cases (unknown n)) [
    | inl strange ↦ absurd (cc (rw (decode_header, strange) at d))
    | inr known ↦ elim (Bool-cases (network n == udp_with_migrate_id)) [
      | inr plain ↦
          let (found, is_n) =
            password-found password (record { addr = none; migrate_id = 0; protocol = n }) h r rest
              (rw (decode_header, known, plain) at d) in
          (n ∷ [], drop 32 r, ap (λ s. n ∷ s) found, rw (is_n, plain) refl)
      | inl migrates ↦ elim (Bool-cases (ltb (length r) 8)) [
        | inl short ↦ absurd (cc (rw (decode_header, known, migrates, short) at d))
        | inr long ↦
            let (found, is_n) =
              password-found password
                (record { addr = none; migrate_id = get_be (take 8 r); protocol = n }) h (drop 8 r)
                rest (rw (decode_header, known, migrates, long) at d) in
            (
              n ∷ take 8 r,
              drop 32 (drop 8 r),
              ap (λ s. n ∷ s) (sym (take-append-drop 8 r) ∙ ap (λ s. take 8 r ++ s) found),
              rw (is_n, migrates) (ground (arith, length-take 8 r)),
            )
      ]
    ]
  ]
