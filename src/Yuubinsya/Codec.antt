-- ===== src/Yuubinsya/Codec.antt =====
-- Headers that are read back, and headers that are refused.
use yuhaiin.Prelude.{
  ℕ, ◌^◌, ◌<◌, ◌≡◌, refl, sym, ap, ◌∙◌, Bool, true, false, Option, none, some, [], ◌∷◌, ◌++◌, arith,
  ◌==◌, if◌then◌else◌, ltb, length, take, drop, append-nil, append_assoc, length-append,
  take_append, drop_append, same_refl,
}
use yuhaiin.Bytes.{Bytes, put_be, get_be, length-put_be, get_be-put_be, bytes_discrete}
use yuhaiin.Socks.{Address, write_addr}
use yuhaiin.Socks.Wire.{Encodable, read_addr-write_addr}
use yuhaiin.Yuubinsya.{
  Header, udp_with_migrate_id, network, unknown, has_addr, encode_migrate_id, encode_header, header,
  decode_target, decode_password, decode_header,
}

whole : (xs ys : Bytes) (n : ℕ) → length xs ≡ n → take n (xs ++ ys) ≡ xs
whole xs ys n e = rw (← e) (take_append xs ys)

after : (xs ys : Bytes) (n : ℕ) → length xs ≡ n → drop n (xs ++ ys) ≡ ys
after xs ys n e = rw (← e) (drop_append xs ys)

module _ (is_name : Bytes → Bool) where
  -- The address of a header that is read back: one that the wire can carry, exactly if it has one.
  abbrev pub TargetOk : Bool → Option Address → Type 0
  TargetOk true none = ⊥
  TargetOk true (some a) = Encodable is_name a
  TargetOk false none = Unit
  TargetOk false (some a) = ⊥

  -- A header whose parts are all on the wire.
  pub record Carried (h : Header) : Type 0 where
    pub known : unknown h.protocol ≡ false
    pub is_word : h.migrate_id < 2 ^ 64
    pub no_migrate_id : (network h.protocol == udp_with_migrate_id) ≡ false → h.migrate_id ≡ 0
    pub target : TargetOk (has_addr h.protocol) h.addr

  target_bytes : Option Address → Bytes
  target_bytes none = []
  target_bytes (some a) = write_addr a

  target-back :
      (password : Bytes) (h : Header) (rest : Bytes) (c : Bool) (o : Option Address)
      → has_addr h.protocol ≡ c
      → TargetOk c o
      → decode_target is_name password (record h { addr = none }) (target_bytes o ++ rest)
        ≡ header (record h { addr = o }) rest
  unfolding decode_target target_bytes
  target-back password h rest true (some a) has ok =
      rw
        (
          decode_target,
          has,
          read_addr-write_addr is_name a rest ok,
          read_addr-write_addr is_name a rest ok,
        )
        refl
  target-back password h rest false none has ok = rw (decode_target, has) refl
  target-back password h rest true none has ok = absurd ok
  target-back password h rest false (some a) has ok = absurd ok

  password-back :
      (password : Bytes) (h : Header) (r : Bytes)
      → length password ≡ 32
      → decode_password is_name password h (password ++ r) ≡ decode_target is_name password h r
  unfolding decode_password decode_target
  password-back password h r full =
      let enough : ltb (length (password ++ r)) 32 ≡ false =
        ground (arith, length-append password r) in
      rw (decode_password, enough, whole password r 32 full, same_refl bytes_discrete password)
        (ap (decode_target is_name password h) (after password r 32 full))

  migrate-back :
      (password : Bytes) (h : Header) (r : Bytes) (c : Bool)
      → (network h.protocol == udp_with_migrate_id) ≡ c
      → Carried h
      → decode_header is_name password
          (h.protocol ∷ ((if c then put_be 8 h.migrate_id else []) ++ r))
        ≡ decode_password is_name password (record h { addr = none }) r
  unfolding decode_header
  migrate-back password h r true is_migrate ok =
      let eight = length-put_be 8 h.migrate_id in
      let number : get_be (take 8 (put_be 8 h.migrate_id ++ r)) ≡ h.migrate_id =
        ap get_be (whole (put_be 8 h.migrate_id) r 8 eight)
        ∙ get_be-put_be 8 h.migrate_id ok.is_word in
      let enough : ltb (length (put_be 8 h.migrate_id ++ r)) 8 ≡ false =
        ground (arith, length-append (put_be 8 h.migrate_id) r) in
      rw (decode_header, ok.known, is_migrate, enough)
        (ap
            (λ m.
              decode_password is_name password
                (record { addr = none; migrate_id = m; protocol = h.protocol })
                (drop 8 (put_be 8 h.migrate_id ++ r)))
            number
          ∙ ap (decode_password is_name password (record h { addr = none }))
              (after (put_be 8 h.migrate_id) r 8 eight))
  migrate-back password h r false is_migrate ok =
      rw (decode_header, ok.known, is_migrate)
        (ap
          (λ m.
            decode_password is_name password
              (record { addr = none; migrate_id = m; protocol = h.protocol }) r)
          (sym (ok.no_migrate_id is_migrate)))

  encoded :
      (password : Bytes) (h : Header) (c : Bool) (o : Option Address)
      → has_addr h.protocol ≡ c
      → h.addr ≡ o
      → TargetOk c o
      → encode_header password h
        ≡ some ((h.protocol ∷ (encode_migrate_id h ++ password)) ++ target_bytes o)
  unfolding encode_header target_bytes
  encoded password h true (some a) has is_addr ok = rw (encode_header, has, is_addr) refl
  encoded password h false none has is_addr ok =
      rw (encode_header, has, append-nil (encode_migrate_id h ++ password)) refl
  encoded password h true none has is_addr ok = absurd ok
  encoded password h false (some a) has is_addr ok = absurd ok

  -- A header that the wire can carry is written, with a password of 32 bytes, and decoding what was
  -- written with the same password gives the header, and what follows it to be read.
  pub decode_header-encode_header :
      (password : Bytes) (h : Header) (rest : Bytes)
      → length password ≡ 32
      → Carried h
      → (bs : Bytes) × (encode_header password h ≡ some bs)
        × (decode_header is_name password (bs ++ rest) ≡ header h rest)
  unfolding encode_migrate_id
  decode_header-encode_header password h rest full ok =
      let written = encoded password h (has_addr h.protocol) h.addr refl refl ok.target in
      let c = network h.protocol == udp_with_migrate_id in
      let back = migrate-back password h (password ++ (target_bytes h.addr ++ rest)) c refl ok in
      (
        (h.protocol ∷ (encode_migrate_id h ++ password)) ++ target_bytes h.addr,
        written,
        ap (λ r. decode_header is_name password (h.protocol ∷ r))
              (append_assoc (encode_migrate_id h ++ password) (target_bytes h.addr) rest
                ∙ append_assoc (encode_migrate_id h) password (target_bytes h.addr ++ rest))
            ∙ back
            ∙ password-back password (record h { addr = none }) (target_bytes h.addr ++ rest) full
            ∙ target-back password h rest (has_addr h.protocol) h.addr refl ok.target,
      )
