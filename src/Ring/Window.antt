-- ===== src/Ring/Window.antt =====
-- A circular array read from one place round to the place before it, and what one write does to it.
use yuhaiin.Prelude.{
  ℕ, zero, suc, ◌+◌, ◌≤◌, ◌<◌, ◌≡◌, refl, ap, some, List, [], ◌∷◌, ◌++◌, arith, sym, length,
  length-append, length-drop, length-take, get_elem?, set, take, drop, set-append_left, append-nil,
  append_assoc, take_of_length-le, drop_of_length-le,
}

module _ {ℓ} {A : Type ℓ} where
  unfoldable pub rotate : ℕ → List A → List A
  rotate h xs = drop h xs ++ take h xs

  pub length-rotate : (h : ℕ) (xs : List A) → length (rotate h xs) ≡ length xs
  unfolding rotate
  length-rotate h xs =
      omega (arith, length-append (drop h xs) (take h xs), length-drop h xs, length-take h xs)

  drop-set_ge :
      (h : ℕ) (xs : List A) (t k : ℕ) (v : A)
      → t ≡ h + k
      → drop h (set xs t v) ≡ set (drop h xs) k v
  drop-set_ge zero xs t k v e = let e' : t ≡ k = omega arith in rw e'
  drop-set_ge (suc h) [] t k v e = refl
  drop-set_ge (suc h) (x ∷ xs) zero k v e = absurd (omega arith)
  drop-set_ge (suc h) (x ∷ xs) (suc t) k v e = drop-set_ge h xs t k v (omega arith)

  take-set_ge : (h : ℕ) (xs : List A) (t : ℕ) (v : A) → h ≤ t → take h (set xs t v) ≡ take h xs
  take-set_ge zero xs t v e = refl
  take-set_ge (suc h) [] t v e = refl
  take-set_ge (suc h) (x ∷ xs) zero v e = absurd (omega arith)
  take-set_ge (suc h) (x ∷ xs) (suc t) v e = ap (◌∷◌ x) (take-set_ge h xs t v (omega arith))

  drop-set_lt : (h : ℕ) (xs : List A) (t : ℕ) (v : A) → t < h → drop h (set xs t v) ≡ drop h xs
  drop-set_lt zero xs t v e = absurd (omega arith)
  drop-set_lt (suc h) [] t v e = refl
  drop-set_lt (suc h) (x ∷ xs) zero v e = refl
  drop-set_lt (suc h) (x ∷ xs) (suc t) v e = drop-set_lt h xs t v (omega arith)

  take-set_lt :
      (h : ℕ) (xs : List A) (t : ℕ) (v : A) → t < h → take h (set xs t v) ≡ set (take h xs) t v
  take-set_lt zero xs t v e = absurd (omega arith)
  take-set_lt (suc h) [] t v e = refl
  take-set_lt (suc h) (x ∷ xs) zero v e = refl
  take-set_lt (suc h) (x ∷ xs) (suc t) v e = ap (◌∷◌ x) (take-set_lt h xs t v (omega arith))

  set-append_right :
      (xs ys : List A) (n k : ℕ) (v : A) → n ≡ length xs + k → set (xs ++ ys) n v ≡ xs ++ set ys k v
  set-append_right [] ys n k v e = let e' : n ≡ k = omega arith in rw e'
  set-append_right (x ∷ xs) ys zero k v e = absurd (omega arith)
  set-append_right (x ∷ xs) ys (suc n) k v e =
      ap (◌∷◌ x) (set-append_right xs ys n k v (omega arith))

  -- A write at the window's place `n`, where the place does not pass the end of the array.
  pub rotate-set_ahead :
      (h n t : ℕ) (xs : List A) (v : A)
      → t ≡ h + n
      → t < length xs
      → rotate h (set xs t v) ≡ set (rotate h xs) n v
  unfolding rotate
  rotate-set_ahead h n t xs v e lt =
      rw (drop-set_ge h xs t n v e, take-set_ge h xs t v (omega arith))
        (sym (set-append_left (drop h xs) (take h xs) n v (omega (arith, length-drop h xs))))

  -- The same where the place has wrapped round.
  pub rotate-set_wrapped :
      (h n t : ℕ) (xs : List A) (v : A)
      → t + length xs ≡ h + n
      → h < length xs
      → t < h
      → rotate h (set xs t v) ≡ set (rotate h xs) n v
  unfolding rotate
  rotate-set_wrapped h n t xs v e hl lt =
      rw (drop-set_lt h xs t v lt, take-set_lt h xs t v lt)
        (sym (set-append_right (drop h xs) (take h xs) n t v (omega (arith, length-drop h xs))))

  drop_at :
      (h : ℕ) (xs : List A) {x : A} → get_elem? xs h ≡ some x → drop h xs ≡ x ∷ drop (suc h) xs
  drop_at h [] e = cc
  drop_at zero (y ∷ xs) e = ground arith
  drop_at (suc h) (y ∷ xs) e = drop_at h xs e

  take_past :
      (h : ℕ) (xs : List A) (z : A)
      → h < length xs
      → take (suc h) (set xs h z) ≡ take h xs ++ z ∷ []
  take_past h [] z e = absurd (omega arith)
  take_past zero (y ∷ xs) z e = refl
  take_past (suc h) (y ∷ xs) z e = ap (◌∷◌ y) (take_past h xs z (omega arith))

  pub get_elem?_lt : (xs : List A) (h : ℕ) → h < length xs → (x : A) × (get_elem? xs h ≡ some x)
  get_elem?_lt [] h e = absurd (omega arith)
  get_elem?_lt (x ∷ xs) zero e = (x, refl)
  get_elem?_lt (x ∷ xs) (suc h) e = get_elem?_lt xs h (omega arith)

  -- Reading on from place `h`: its element first, and what the next place's window begins with.
  pub rotate_step :
      (h : ℕ) (xs : List A) (z : A) {x : A}
      → h < length xs
      → get_elem? xs h ≡ some x
      → (ys : List A) × (rotate h xs ≡ x ∷ ys) × (rotate (suc h) (set xs h z) ≡ ys ++ z ∷ [])
  unfolding rotate
  rotate_step h xs z {x} lt e = (
    drop (suc h) xs ++ take h xs,
    rw (drop_at h xs e),
    rw (drop-set_lt (suc h) xs h z (omega arith), take_past h xs z lt)
        (sym (append_assoc (drop (suc h) xs) (take h xs) (z ∷ []))),
  )

  pub rotate_full : (xs : List A) → rotate (length xs) xs ≡ rotate 0 xs
  unfolding rotate
  rotate_full xs =
      rw
        (
          drop_of_length-le (length xs) xs (omega arith),
          take_of_length-le (length xs) xs (omega arith),
        )
        (sym (append-nil xs))

  pub rotate-zero : (xs : List A) → rotate 0 xs ≡ xs
  unfolding rotate
  rotate-zero xs = append-nil xs
