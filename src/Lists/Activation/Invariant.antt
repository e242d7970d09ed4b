-- ===== src/Lists/Activation/Invariant.antt =====
-- What holds in every reachable state: one thread at most refreshes, no refresh has read a change to
-- come, and a change that none has read, like a status that is set, has something due after it.
use yuhaiin.Prelude.{ℕ, ◌≡◌, ◌≢◌, ◌≤◌, ◌⊎◌, inl, inr, refl, some, arith, ℕ_discrete, subst, sym}
use yuhaiin.Lists.Activation.{
  Mem, Pc, locked, loaded, reading, swapped, matched, leaving, Move, save, count, stamp, arm,
  apply_now, stop_timer, fire, reconfigure, lock, load_version, read_lists, swap, match_version,
  other_version, clear_status, unlock, State, update,
}

-- The thread holds the mutex of the refresh.
abbrev pub InRefresh : Pc → Type 0
InRefresh locked = Unit
InRefresh (loaded v) = Unit
InRefresh (reading v r) = Unit
InRefresh (swapped v) = Unit
InRefresh matched = Unit
InRefresh leaving = Unit
InRefresh _ = ⊥

abbrev pub ReadsBetween : Mem → Pc → Type 0
ReadsBetween m (reading v r) = (m.indexed ≤ r) × (r ≤ m.revision)
ReadsBetween m _ = Unit

abbrev Owns : ℕ → Mem → Pc → Type 0
Owns i m p = InRefresh p → m.refresh_mu ≡ some i

Move-Owns : {i : ℕ} {m n : Mem} {p q : Pc} → Move i m p n q → Owns i m p → Owns i n q
Move-Owns save o = λ h. absurd h
Move-Owns count o = λ h. absurd h
Move-Owns stamp o = λ h. absurd h
Move-Owns arm o = λ h. absurd h
Move-Owns apply_now o = λ h. absurd h
Move-Owns stop_timer o = λ h. absurd h
Move-Owns (fire a) o = λ h. absurd h
Move-Owns reconfigure o = λ h. absurd h
Move-Owns (lock free) o = λ h. refl
Move-Owns load_version o = o
Move-Owns read_lists o = o
Move-Owns swap o = o
Move-Owns (match_version e) o = o
Move-Owns (other_version e) o = o
Move-Owns clear_status o = o
Move-Owns unlock o = λ h. absurd h

-- Another thread keeps the mutex.
Move-Owns_ne :
    {i j : ℕ} {m n : Mem} {p q : Pc} (r : Pc)
    → Move i m p n q
    → i ≢ j
    → Owns i m p
    → Owns j m r
    → Owns j n r
Move-Owns_ne r (lock free) ne o other = λ h. absurd (cc (other h, free))
Move-Owns_ne r unlock ne o other = λ h. absurd (ne (cc (o tt, other h)))
Move-Owns_ne r _ ne o other = other

-- The owner of the mutex is a thread that refreshes.
abbrev Held : ℕ → Mem → Pc → Type 0
Held i m p = m.refresh_mu ≡ some i → InRefresh p

Move-Held : {i : ℕ} {m n : Mem} {p q : Pc} → Move i m p n q → Held i m p → Held i n q
Move-Held (lock free) o = λ h. tt
Move-Held load_version o = λ h. tt
Move-Held read_lists o = λ h. tt
Move-Held swap o = λ h. tt
Move-Held (match_version e) o = λ h. tt
Move-Held (other_version e) o = λ h. tt
Move-Held clear_status o = λ h. tt
Move-Held unlock o = λ h. absurd (cc h)
Move-Held _ o = o

Move-Held_ne :
    {i j : ℕ} {m n : Mem} {p q : Pc} (r : Pc) → Move i m p n q → i ≢ j → Held j m r → Held j n r
Move-Held_ne r (lock free) ne o = λ h. absurd (ne (cc h))
Move-Held_ne r unlock ne o = λ h. absurd (cc h)
Move-Held_ne r _ ne o = o

Move-ReadsBetween :
    {i : ℕ} {m n : Mem} {p q : Pc}
    → Move i m p n q
    → m.indexed ≤ m.revision
    → ReadsBetween m p
    → ReadsBetween n q × (n.indexed ≤ n.revision)
Move-ReadsBetween save low b = omega arith
Move-ReadsBetween _ low b = omega arith

Move-ReadsBetween_ne :
    {i j : ℕ} {m n : Mem} {p q : Pc} (r : Pc)
    → Move i m p n q
    → i ≢ j
    → Owns i m p
    → Owns j m r
    → ReadsBetween m r
    → ReadsBetween n r
Move-ReadsBetween_ne (reading v r) save ne o other b = omega arith
Move-ReadsBetween_ne (reading v r) swap ne o other b = absurd (ne (cc (o tt, other tt)))
Move-ReadsBetween_ne (reading v r) _ ne o other b = b
Move-ReadsBetween_ne _ mv ne o other b = tt

-- A condition on what is shared that a move keeps, unless a thread is then due to restore it.
pub record Restores (C : Mem → Type 0) (Due : Mem → Pc → Type 0) : Type 0 where
  pub kept :
      (i : ℕ) (m n : Mem) (p q : Pc) → Move i m p n q → ReadsBetween m p → C m → C n ⊎ Due n q
  pub own :
      (i : ℕ) (m n : Mem) (p q : Pc) → Move i m p n q → ReadsBetween m p → Due m p → C n ⊎ Due n q
  pub others : (i : ℕ) (m n : Mem) (p q r : Pc) → Move i m p n q → Due m r → Due n r ⊎ Due n q

abbrev pub Restored : (Mem → Type 0) → (Mem → Pc → Type 0) → State → Type 0
Restored C Due s = C s.mem ⊎ ((i : ℕ) × Due s.mem (s.pc i))

update_self : (f : ℕ → Pc) (i : ℕ) (q : Pc) → update f i q i ≡ q
update_self f i q = ground arith

update_ne : (f : ℕ → Pc) (i j : ℕ) (q : Pc) → i ≢ j → update f i q j ≡ f j
update_ne f i j q ne = ground arith

update_all {ℓ} :
    (P : ℕ → Pc → Type ℓ) (f : ℕ → Pc) (i : ℕ) (q : Pc)
    → P i q
    → ((j : ℕ) → i ≢ j → P j (f j))
    → (j : ℕ) → P j (update f i q j)
update_all P f i q own rest j = elim (ℕ_discrete i j) [
  | yes e ↦ subst (λ k. P k (update f i q k)) e (subst (λ p. P i p) (sym (update_self f i q)) own)
  | no ne ↦ subst (λ p. P j p) (sym (update_ne f i j q ne)) (rest j ne)
]

pub record IsOrderly (s : State) : Type 0 where
  pub low : s.mem.indexed ≤ s.mem.revision
  pub owns : (i : ℕ) → InRefresh (s.pc i) → s.mem.refresh_mu ≡ some i
  pub held : (i : ℕ) → s.mem.refresh_mu ≡ some i → InRefresh (s.pc i)
  pub reads : (i : ℕ) → ReadsBetween s.mem (s.pc i)

module _ (s : State) (i : ℕ) {n : Mem} {q : Pc} (mv : Move i s.mem (s.pc i) n q) where
  pub Step-IsOrderly : IsOrderly s → IsOrderly (record { mem = n; pc = update s.pc i q })
  Step-IsOrderly o = record {
    low = (Move-ReadsBetween mv o.low (o.reads i)).1;
    owns =
        update_all (λ j p. Owns j n p) s.pc i q (Move-Owns mv (o.owns i))
          (λ j ne. Move-Owns_ne (s.pc j) mv ne (o.owns i) (o.owns j));
    held =
        update_all (λ j p. Held j n p) s.pc i q (Move-Held mv (o.held i))
          (λ j ne. Move-Held_ne (s.pc j) mv ne (o.held j));
    reads =
        update_all (λ j p. ReadsBetween n p) s.pc i q (Move-ReadsBetween mv o.low (o.reads i)).0
          (λ j ne. Move-ReadsBetween_ne (s.pc j) mv ne (o.owns i) (o.owns j) (o.reads j));
  }

  module _ {C : Mem → Type 0} {Due : Mem → Pc → Type 0} (r : Restores C Due) where
    due_here : C n ⊎ Due n q → Restored C Due (record { mem = n; pc = update s.pc i q })
    due_here (inl c) = inl c
    due_here (inr d) = inr (i, subst (Due n) (sym (update_self s.pc i q)) d)

    due_there :
        (j : ℕ)
        → Due s.mem (s.pc j)
        → ReadsBetween s.mem (s.pc i)
        → Restored C Due (record { mem = n; pc = update s.pc i q })
    due_there j d b = elim (ℕ_discrete i j) [
      | yes e ↦
          due_here (r.own i s.mem n (s.pc i) q mv b (subst (λ k. Due s.mem (s.pc k)) (sym e) d))
      | no ne ↦ elim (r.others i s.mem n (s.pc i) q (s.pc j) mv d) [
        | inl still ↦ inr (j, subst (Due n) (sym (update_ne s.pc i j q ne)) still)
        | inr now ↦ due_here (inr now)
      ]
    ]

    -- A step keeps a condition restored.
    pub Step-Restored :
        IsOrderly s → Restored C Due s → Restored C Due (record { mem = n; pc = update s.pc i q })
    Step-Restored o (inl c) = due_here (r.kept i s.mem n (s.pc i) q mv (o.reads i) c)
    Step-Restored o (inr (j, d)) = due_there j d (o.reads i)
