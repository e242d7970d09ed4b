-- ===== src/Nat/Table/Blocked.antt =====
-- A source whose first packet a block rule refuses.
use yuhaiin.Prelude.{
  ℕ, ◌≡◌, ◌<◌, refl, ap, subst, sym, ◌∙◌, Bool, false, none, some, List, [], ◌∷◌, lookup,
  lookup-assign, same_refl, ℕ_discrete, arith,
}
use yuhaiin.Nat.Table.{
  Handled, blocked, Control, Event, write, handle, new_source_chan, close_control, write_packet,
  handle_packets, run_control, Table, put_control, write_table, with_control, step_table, run_table,
}
use yuhaiin.Nat.Table.Dead.{
  DeadAt, DeadAt-refuses, run-DeadAt, with_control-found, control_at-new, if_false,
}

module _ {ℓ} {P : Type ℓ} where
  -- A new source with its first packet queued.
  queued : P → ℕ → Control P
  unfolding new_source_chan
  queued pkt now = record (new_source_chan now) { sent_packets = pkt ∷ [] }

  write_packet-queued :
      (limit : ℕ) (pkt : P) (now : ℕ)
      → 0 < limit
      → (write_packet limit false pkt (new_source_chan now)).0 ≡ queued pkt now
  unfolding write_packet queued new_source_chan
  write_packet-queued limit pkt now room = ground arith

  first_written :
      (limit k : ℕ) (pkt : P) (now : ℕ) (t : Table P)
      → t.closed ≡ false
      → lookup ℕ_discrete k t.source_control ≡ none
      → 0 < limit
      → (write_table limit k false pkt now t).0 ≡ put_control k (queued pkt now) t
  unfolding write_table
  first_written limit k pkt now t up new room =
      ap (λ (r : Table P × Bool). r.0) (if_false _ up)
      ∙ ap (λ (c : Control P). put_control k (write_packet limit false pkt c).0 t)
          (control_at-new k now t new)
      ∙ ap (λ (c : Control P). put_control k c t) (write_packet-queued limit pkt now room)

  queued-blocked :
      (pkt : P) (now : ℕ) (outcome : P → Handled)
      → outcome pkt ≡ blocked
      → run_control outcome (queued pkt now) ≡ close_control (queued pkt now)
  unfolding run_control handle_packets queued new_source_chan
  queued-blocked pkt now outcome refuses = rw refuses refl

  -- The control of a new source once its first packet is queued and handled.
  first_blocked :
      (limit k : ℕ) (pkt : P) (now : ℕ) (outcome : P → Handled) (t : Table P)
      → t.closed ≡ false
      → lookup ℕ_discrete k t.source_control ≡ none
      → 0 < limit
      → outcome pkt ≡ blocked
      → DeadAt k (step_table limit (handle k outcome) (step_table limit (write k false pkt now) t))
  unfolding step_table
  first_blocked limit k pkt now outcome t up new room refuses =
      let t' = put_control k (queued pkt now) t in
      let found : lookup ℕ_discrete k t'.source_control ≡ some (queued pkt now) =
        unfold put_control in
        lookup-assign ℕ_discrete k k (queued pkt now) t.source_control
        ∙ rw (same_refl ℕ_discrete k) refl in
      subst (λ (s : Table P). DeadAt k (with_control k (run_control outcome) s))
        (sym (first_written limit k pkt now t up new room))
        (subst (DeadAt k)
          (sym (
            with_control-found k (run_control outcome) t' (queued pkt now) found
            ∙ ap (λ (c : Control P). put_control k c t') (queued-blocked pkt now outcome refuses)))
          (
            close_control (queued pkt now),
            (
              unfold put_control in
                  lookup-assign ℕ_discrete k k (close_control (queued pkt now)) t'.source_control
                  ∙ rw (same_refl ℕ_discrete k) refl,
              unfold close_control queued new_source_chan in (refl, (refl, refl)),
            ),
          ))

  -- In an open table whose queues hold at least one packet, once the first packet of a new source
  -- is queued and refused by a block rule, every later packet of the source is refused with an
  -- error, whatever else happens to the table: other packets, whatever is done with them, the ends
  -- of loops, and any number of rounds of the sweep at any times.
  pub blocked-refused :
      (limit k : ℕ) (pkt : P) (now : ℕ) (outcome : P → Handled) (t : Table P) (es : List (Event P))
      (ctx_done : Bool) (pkt' : P) (later : ℕ)
      → t.closed ≡ false
      → lookup ℕ_discrete k t.source_control ≡ none
      → 0 < limit
      → outcome pkt ≡ blocked
      → (write_table limit k ctx_done pkt' later
          (run_table limit (write k false pkt now ∷ handle k outcome ∷ es) t)).1
        ≡ false
  unfolding run_table
  blocked-refused limit k pkt now outcome t es ctx_done pkt' later up new room refuses =
      DeadAt-refuses limit k ctx_done pkt' later _
        (run-DeadAt limit k es _ (first_blocked limit k pkt now outcome t up new room refuses))
