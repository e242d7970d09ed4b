-- ===== src/Lists/Activation/Due.antt =====
-- What is due while no refresh has read the last change, and while the status is set.
use yuhaiin.Prelude.{ℕ, ◌≡◌, ◌≤◌, ◌⊎◌, inl, inr, refl, true, false, arith}
use yuhaiin.Lists.Activation.{
  Mem, Pc, saved, counted, stamped, applying, waiting, locked, loaded, reading, swapped, matched,
  Move, save, count, stamp, arm, apply_now, stop_timer, fire, lock, load_version, read_lists, swap,
  match_version, other_version, clear_status,
}
use yuhaiin.Lists.Activation.Invariant.{ReadsBetween, Restores}

-- A refresh has read the last change, the timer is armed, or a thread is yet to read the lists or to notify.
abbrev pub Covered : Mem → Type 0
Covered m = (m.revision ≤ m.indexed) ⊎ (m.armed ≡ true)

abbrev pub WillRead : ℕ → Pc → Type 0
WillRead revision saved = Unit
WillRead revision counted = Unit
WillRead revision stamped = Unit
WillRead revision applying = Unit
WillRead revision waiting = Unit
WillRead revision locked = Unit
WillRead revision (loaded v) = Unit
WillRead revision (reading v r) = revision ≤ r
WillRead revision _ = ⊥

-- The status is clear, the timer is armed, or a thread is yet to clear it.
abbrev pub Settled : Mem → Type 0
Settled m = (m.refresh_at ≡ false) ⊎ (m.armed ≡ true)

abbrev pub WillClear : ℕ → Pc → Type 0
WillClear version counted = Unit
WillClear version stamped = Unit
WillClear version applying = Unit
WillClear version waiting = Unit
WillClear version locked = Unit
WillClear version (loaded v) = version ≡ v
WillClear version (reading v r) = version ≡ v
WillClear version (swapped v) = version ≡ v
WillClear version matched = Unit
WillClear version _ = ⊥

Covered-kept :
    (i : ℕ) (m n : Mem) (p q : Pc)
    → Move i m p n q
    → ReadsBetween m p
    → Covered m
    → Covered n ⊎ WillRead n.revision q
Covered-kept i m n p q save b c = inr tt
Covered-kept i m n p q arm b c = inl (inr refl)
Covered-kept i m n p q stop_timer b c = inr tt
Covered-kept i m n p q (fire a) b c = inr tt
Covered-kept i m n p q swap b (inl c) = inl (inl (omega arith))
Covered-kept i m n p q swap b (inr c) = inl (inr c)
Covered-kept i m n p q _ b c = inl c

Covered-own :
    (i : ℕ) (m n : Mem) (p q : Pc)
    → Move i m p n q
    → ReadsBetween m p
    → WillRead m.revision p
    → Covered n ⊎ WillRead n.revision q
Covered-own i m n p q arm b d = inl (inr refl)
Covered-own i m n p q read_lists b d = inr (omega arith)
Covered-own i m n p q swap b d = inl (inl d)
Covered-own i m n p q count b d = inr tt
Covered-own i m n p q stamp b d = inr tt
Covered-own i m n p q stop_timer b d = inr tt
Covered-own i m n p q (lock free) b d = inr tt
Covered-own i m n p q load_version b d = inr tt
Covered-own i m n p q _ b d = absurd d

Covered-others :
    (i : ℕ) (m n : Mem) (p q r : Pc)
    → Move i m p n q
    → WillRead m.revision r
    → WillRead n.revision r ⊎ WillRead n.revision q
Covered-others i m n p q r save d = inr tt
Covered-others i m n p q r _ d = inl d

pub Covered-Restores : Restores Covered (λ m. WillRead m.revision)
Covered-Restores = record { kept = Covered-kept; own = Covered-own; others = Covered-others }

Settled-kept :
    (i : ℕ) (m n : Mem) (p q : Pc)
    → Move i m p n q
    → ReadsBetween m p
    → Settled m
    → Settled n ⊎ WillClear n.refresh_version q
Settled-kept i m n p q count b c = inr tt
Settled-kept i m n p q stamp b c = inr tt
Settled-kept i m n p q arm b c = inl (inr refl)
Settled-kept i m n p q apply_now b c = inr tt
Settled-kept i m n p q stop_timer b c = inr tt
Settled-kept i m n p q (fire a) b c = inr tt
Settled-kept i m n p q clear_status b c = inl (inl refl)
Settled-kept i m n p q _ b c = inl c

Settled-own :
    (i : ℕ) (m n : Mem) (p q : Pc)
    → Move i m p n q
    → ReadsBetween m p
    → WillClear m.refresh_version p
    → Settled n ⊎ WillClear n.refresh_version q
Settled-own i m n p q stamp b d = inr tt
Settled-own i m n p q arm b d = inl (inr refl)
Settled-own i m n p q stop_timer b d = inr tt
Settled-own i m n p q (lock free) b d = inr tt
Settled-own i m n p q load_version b d = inr refl
Settled-own i m n p q read_lists b d = inr d
Settled-own i m n p q swap b d = inr d
Settled-own i m n p q (match_version e) b d = inr tt
Settled-own i m n p q (other_version ne) b d = absurd (ne d)
Settled-own i m n p q clear_status b d = inl (inl refl)
Settled-own i m n p q _ b d = absurd d

Settled-others :
    (i : ℕ) (m n : Mem) (p q r : Pc)
    → Move i m p n q
    → WillClear m.refresh_version r
    → WillClear n.refresh_version r ⊎ WillClear n.refresh_version q
Settled-others i m n p q r count d = inr tt
Settled-others i m n p q r apply_now d = inr tt
Settled-others i m n p q r _ d = inl d

pub Settled-Restores : Restores Settled (λ m. WillClear m.refresh_version)
Settled-Restores = record { kept = Settled-kept; own = Settled-own; others = Settled-others }
