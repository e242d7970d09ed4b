-- ===== src/Nat/Table/Dead.antt =====
-- A control that is cancelled before any loop of it ran stays in the table, whatever happens.
use yuhaiin.Prelude.{
  ℕ, ◌≡◌, refl, ap, subst, sym, ◌∙◌, Bool, true, false, none, some, List, [], ◌∷◌, if◌then◌else◌,
  contains, Map, lookup, lookup-assign, same→eq, same_refl, ℕ_discrete, arith, Bool-cases,
  Option-cases, inl, inr,
}
use yuhaiin.Nat.Table.{
  Handled, Control, Event, write, handle, close_conn, end_loop, sweep, close_table, new_source_chan,
  close_control, is_idle, write_packet, run_control, drop_conn, stop_loop, idle_since,
  sweep_controls, close_controls, Table, control_at, put_control, write_table, with_control,
  step_table, run_table,
}

some_path {ℓ} : {A : Type ℓ} {a b : A} → some a ≡ some b → a ≡ b
some_path e = cc e

if_true {ℓ} : {A : Type ℓ} {b : Bool} {x : A} (y : A) → b ≡ true → (if b then x else y) ≡ x
if_true y e = rw e refl

pub if_false {ℓ} : {A : Type ℓ} {b : Bool} (x : A) {y : A} → b ≡ false → (if b then x else y) ≡ y
if_false x e = rw e refl

module _ {ℓ} {P : Type ℓ} where
  -- Cancelled, and never to be found idle.
  abbrev pub IsDead : Control P → Type 0
  IsDead c = (c.cancelled ≡ true) × ((c.loop_stopped ≡ false) × (c.loops ≡ []))

  abbrev pub DeadAt : ℕ → Table P → Type ℓ
  DeadAt k t = (c : Control P) × ((lookup ℕ_discrete k t.source_control ≡ some c) × IsDead c)

  write_packet-IsDead :
      (limit : ℕ) (ctx_done : Bool) (pkt : P) (c : Control P)
      → c.cancelled ≡ true
      → write_packet limit ctx_done pkt c ≡ (c, false)
  unfolding write_packet
  write_packet-IsDead limit ctx_done pkt c d = ground (arith, d)

  run_control-IsDead :
      (outcome : P → Handled) (c : Control P) → IsDead c → IsDead (run_control outcome c)
  unfolding run_control
  run_control-IsDead outcome c d = ground arith

  stop_loop-IsDead : (id now : ℕ) (c : Control P) → IsDead c → IsDead (stop_loop id now c)
  unfolding stop_loop contains
  stop_loop-IsDead id now c d = ground arith

  put-DeadAt :
      (k j : ℕ) (c : Control P) (t : Table P)
      → DeadAt k t
      → (j ≡ k → IsDead c)
      → DeadAt k (put_control j c t)
  unfolding put_control
  put-DeadAt k j c t (d, (here, dead)) new = elim (ℕ_discrete j k) [
    | yes e ↦ (
      c,
      (
        ground (arith, e, lookup-assign ℕ_discrete j k c t.source_control, same_refl ℕ_discrete k),
        new e,
      ),
    )
    | no ne ↦ (
      d,
      (
        ground (
          arith,
          ne,
          here,
          lookup-assign ℕ_discrete j k c t.source_control,
          same→eq ℕ_discrete j k,
        ),
        dead,
      ),
    )
  ]

  pub with_control-found :
      (j : ℕ) (f : Control P → Control P) (t : Table P) (c : Control P)
      → lookup ℕ_discrete j t.source_control ≡ some c
      → with_control j f t ≡ put_control j (f c) t
  unfolding with_control
  with_control-found j f t c e = ground (arith, e)

  with_control-absent :
      (j : ℕ) (f : Control P → Control P) (t : Table P)
      → lookup ℕ_discrete j t.source_control ≡ none
      → with_control j f t ≡ t
  unfolding with_control
  with_control-absent j f t e = ground (arith, e)

  with_control-DeadAt :
      (k j : ℕ) (f : Control P → Control P) (t : Table P)
      → ((c : Control P) → IsDead c → IsDead (f c))
      → DeadAt k t
      → DeadAt k (with_control j f t)
  with_control-DeadAt k j f t keep (d, (here, dead)) =
      elim (Option-cases (lookup ℕ_discrete j t.source_control)) [
        | inl absent ↦ subst (DeadAt k) (sym (with_control-absent j f t absent)) (d, (here, dead))
        | inr (c, found) ↦ subst (DeadAt k) (sym (with_control-found j f t c found)) (
            put-DeadAt k j (f c) t (d, (here, dead))
              (λ e. keep c (
                subst IsDead
                  (some_path
                    (sym here ∙ ap (λ i. lookup ℕ_discrete i t.source_control) (sym e) ∙ found))
                  dead)))
      ]

  sweep-lookup :
      (k now timeout : ℕ) (c : Control P) (m : Map ℕ (Control P))
      → c.loop_stopped ≡ false
      → lookup ℕ_discrete k m ≡ some c
      → lookup ℕ_discrete k (sweep_controls now timeout m) ≡ some c
  unfolding sweep_controls lookup is_idle idle_since
  sweep-lookup k now timeout c [] runs e = cc e
  sweep-lookup k now timeout c ((j, d) ∷ m) runs e =
      ground (arith, sweep-lookup k now timeout c m runs)

  close-lookup :
      (k : ℕ) (c : Control P) (m : Map ℕ (Control P))
      → lookup ℕ_discrete k m ≡ some c
      → lookup ℕ_discrete k (close_controls m) ≡ some (close_control c)
  unfolding close_controls lookup
  close-lookup k c [] e = cc e
  close-lookup k c ((j, d) ∷ m) e = ground (arith, close-lookup k c m)

  control_at-found :
      (k now : ℕ) (t : Table P) (c : Control P)
      → lookup ℕ_discrete k t.source_control ≡ some c
      → control_at k now t ≡ c
  unfolding control_at
  control_at-found k now t c e = ground (arith, e)

  pub control_at-new :
      (k now : ℕ) (t : Table P)
      → lookup ℕ_discrete k t.source_control ≡ none
      → control_at k now t ≡ new_source_chan now
  unfolding control_at
  control_at-new k now t e = ground (arith, e)

  write_table-DeadAt :
      (limit k j : ℕ) (ctx_done : Bool) (pkt : P) (now : ℕ) (t : Table P)
      → DeadAt k t
      → DeadAt k (write_table limit j ctx_done pkt now t).0
  unfolding write_table
  write_table-DeadAt limit k j ctx_done pkt now t (d, (here, dead)) = elim (Bool-cases t.closed) [
    | inl shut ↦
        subst (λ (r : Table P × Bool). DeadAt k r.0) (sym (if_true _ shut)) (d, (here, dead))
    | inr up ↦
        subst (λ (r : Table P × Bool). DeadAt k r.0) (sym (if_false _ up))
          (put-DeadAt k j (write_packet limit ctx_done pkt (control_at j now t)).0 t
            (d, (here, dead))
            (λ e.
              subst (λ c. IsDead (write_packet limit ctx_done pkt c).0)
                (sym (
                  control_at-found j now t d
                    (ap (λ i. lookup ℕ_discrete i t.source_control) e ∙ here)))
                (subst (λ (r : Control P × Bool). IsDead r.0)
                  (sym (write_packet-IsDead limit ctx_done pkt d dead.0)) dead)))
  ]

  step-DeadAt :
      (limit k : ℕ) (e : Event P) (t : Table P) → DeadAt k t → DeadAt k (step_table limit e t)
  unfolding step_table drop_conn
  step-DeadAt limit k (write j ctx_done pkt now) t dead =
      write_table-DeadAt limit k j ctx_done pkt now t dead
  step-DeadAt limit k (handle j outcome) t dead =
      with_control-DeadAt k j (run_control outcome) t (run_control-IsDead outcome) dead
  step-DeadAt limit k (close_conn j) t dead = with_control-DeadAt k j drop_conn t (λ c d. d) dead
  step-DeadAt limit k (end_loop j id now) t dead =
      with_control-DeadAt k j (stop_loop id now) t (stop_loop-IsDead id now) dead
  step-DeadAt limit k (sweep now timeout) t (d, (here, dead)) =
      (d, (sweep-lookup k now timeout d t.source_control dead.1.0 here, dead))
  step-DeadAt limit k close_table t (d, (here, dead)) = (
    close_control d,
    (close-lookup k d t.source_control here, unfold close_control in (refl, dead.1)),
  )

  pub run-DeadAt :
      (limit k : ℕ) (es : List (Event P)) (t : Table P)
      → DeadAt k t
      → DeadAt k (run_table limit es t)
  unfolding run_table
  run-DeadAt limit k [] t dead = dead
  run-DeadAt limit k (e ∷ es) t dead =
      run-DeadAt limit k es (step_table limit e t) (step-DeadAt limit k e t dead)

  pub DeadAt-refuses :
      (limit k : ℕ) (ctx_done : Bool) (pkt : P) (now : ℕ) (t : Table P)
      → DeadAt k t
      → (write_table limit k ctx_done pkt now t).1 ≡ false
  unfolding write_table
  DeadAt-refuses limit k ctx_done pkt now t (d, (here, dead)) = elim (Bool-cases t.closed) [
    | inl shut ↦ ap (λ (r : Table P × Bool). r.1) (if_true _ shut)
    | inr up ↦
        ap (λ (r : Table P × Bool). r.1) (if_false _ up)
        ∙ ap (λ (c : Control P). (write_packet limit ctx_done pkt c).1)
            (control_at-found k now t d here)
        ∙ ap (λ (r : Control P × Bool). r.1) (write_packet-IsDead limit ctx_done pkt d dead.0)
  ]
