-- ===== src/Lists/Activation/Safety.antt =====
-- What holds whenever nothing is under way, and how the status can be wrong in between.
use yuhaiin.Prelude.{
  ℕ, ◌≡◌, ◌<◌, ◌+◌, inl, inr, refl, subst, true, false, Option, none, some, arith,
}
use yuhaiin.Lists.Activation.{
  Mem, Pc, idle, save, count, stamp, arm, reconfigure, lock, load_version, read_lists, swap,
  match_version, clear_status, unlock, State, init, thread, Reach, start, later,
}
use yuhaiin.Lists.Activation.Invariant.{
  InRefresh, IsOrderly, Restored, Restores, Step-IsOrderly, Step-Restored,
}
use yuhaiin.Lists.Activation.Due.{WillRead, WillClear, Covered-Restores, Settled-Restores}

pub Reach-IsOrderly : {s : State} → Reach init s → IsOrderly s
Reach-IsOrderly start = record {
  low = omega arith;
  owns = λ i h. absurd h;
  held = λ i h. absurd (cc h);
  reads = λ i. tt;
}
Reach-IsOrderly (later {t = t} r (thread i mv)) = Step-IsOrderly t i mv (Reach-IsOrderly r)

Reach-Restored :
    {s : State} {C : Mem → Type 0} {Due : Mem → Pc → Type 0}
    → Restores C Due
    → C init.mem
    → Reach init s
    → Restored C Due s
Reach-Restored rs c start = inl c
Reach-Restored rs c (later {t = t} r (thread i mv)) =
    Step-Restored t i mv rs (Reach-IsOrderly r) (Reach-Restored rs c r)

-- No thread is under way and the timer is not armed.
pub record IsQuiet (s : State) : Type 0 where
  pub all_idle : (i : ℕ) → s.pc i ≡ idle
  pub not_armed : s.mem.armed ≡ false

-- Two threads are never both between taking and leaving the mutex of the refresh.
pub refresh_alone :
    {s : State} → Reach init s → (i j : ℕ) → InRefresh (s.pc i) → InRefresh (s.pc j) → i ≡ j
refresh_alone r i j hi hj = cc ((Reach-IsOrderly r).owns i hi, (Reach-IsOrderly r).owns j hj)

-- In every reachable state in which no thread is under way and the timer is not armed, the last
-- revision that a refresh read is the one of the last change.
quiet_read : {s : State} → Reach init s → IsQuiet s → s.mem.indexed ≡ s.mem.revision
quiet_read {s} r quiet = elim (Reach-Restored Covered-Restores (inr refl) r) [
  | inl (inl le) ↦ omega (arith, (Reach-IsOrderly r).low)
  | inl (inr on) ↦ absurd (cc (on, quiet.not_armed))
  | inr (i, due) ↦ absurd (subst (WillRead s.mem.revision) (quiet.all_idle i) due)
]

quiet_clear : {s : State} → Reach init s → IsQuiet s → s.mem.refresh_at ≡ false
quiet_clear {s} r quiet = elim (Reach-Restored Settled-Restores (inl refl) r) [
  | inl (inl clear) ↦ clear
  | inl (inr on) ↦ absurd (cc (on, quiet.not_armed))
  | inr (i, due) ↦ absurd (subst (WillClear s.mem.refresh_version) (quiet.all_idle i) due)
]

quiet_free : {s : State} (o : Option ℕ) → Reach init s → IsQuiet s → s.mem.refresh_mu ≡ o → o ≡ none
quiet_free none r quiet e = refl
quiet_free (some i) r quiet e =
    absurd (subst InRefresh (quiet.all_idle i) ((Reach-IsOrderly r).held i e))

-- In every reachable state in which no thread is under way and the timer is not armed, the status says
-- that no refresh is to come, and the mutex of the refresh is free.
pub quiet_settled :
    {s : State} → Reach init s → IsQuiet s → (s.mem.refresh_at ≡ false) × (s.mem.refresh_mu ≡ none)
quiet_settled {s} r quiet = (quiet_clear r quiet, quiet_free s.mem.refresh_mu r quiet refl)

abbrev pub at_rest : Mem → State
at_rest m = record { mem = m; pc = λ i. idle }

-- A refresh by thread 0 up to the version that matches, a change by thread 1, and the rest of the
-- refresh.
changed : (m : Mem) → Mem
changed m = record m {
  revision = m.revision + 1;
  indexed = m.revision;
  refresh_version = m.refresh_version + 1;
  refresh_at = false;
  armed = true;
  refresh_mu = none;
}

race :
    (m : Mem)
    → m.refresh_mu ≡ none
    → (pc : ℕ → Pc) × Reach (at_rest m) (record { mem = changed m; pc = pc })
unfolding changed
race m free = (
  _,
  later
      (later
        (later
          (later
            (later
              (later
                (later
                  (later
                    (later
                      (later (later (later start (thread 0 reconfigure)) (thread 0 (lock free)))
                        (thread 0 load_version))
                      (thread 0 read_lists))
                    (thread 0 swap))
                  (thread 0 (match_version refl)))
                (thread 1 save))
              (thread 1 count))
            (thread 1 stamp))
          (thread 1 arm))
        (thread 0 clear_status))
      (thread 0 unlock),
)

-- From every state in which no thread is under way and the mutex is free, there is an interleaving of
-- one refresh and one change after which the status says that no refresh is to come, although the
-- change is not indexed and the timer is armed for it.
pub status_races :
    (m : Mem)
    → m.refresh_mu ≡ none
    → (t : State) × (Reach (at_rest m) t
        × ((t.mem.refresh_at ≡ false) × ((t.mem.armed ≡ true) × (t.mem.indexed < t.mem.revision))))
unfolding changed
status_races m free = (
  record { mem = changed m; pc = (race m free).0 },
  ((race m free).1, (refl, (refl, omega arith))),
)
