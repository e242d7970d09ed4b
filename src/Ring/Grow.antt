-- ===== src/Ring/Grow.antt =====
-- Growing keeps what the buffer holds, in order, at the start of an array of twice the size.
use yuhaiin.Prelude.{
  ℕ, zero, suc, ◌+◌, ◌-◌, ◌*◌, ◌≤◌, ◌<◌, ◌≡◌, refl, List, ◌++◌, arith, min, length, length-append,
  length-drop, length-take, length-replicate, take, drop, replicate, take_of_length-le, take_append,
  drop-append_past, if◌then◌else◌, ◌==◌,
}
use yuhaiin.Ring.{RingBuffer, copy_at, grow}
use yuhaiin.Ring.Window.{rotate}

module _ {ℓ} {A : Type ℓ} where
  copy_at_fits :
      (dst : List A) (at : ℕ) (src : List A)
      → at + length src ≤ length dst
      → copy_at dst at src ≡ take at dst ++ src ++ drop (at + length src) dst
  unfolding copy_at
  copy_at_fits dst at src h =
      let e : min (length dst - at) (length src) ≡ length src = omega arith in
      rw (e, take_of_length-le (length src) src (omega arith))

  drop-replicate : (k n m : ℕ) (z : A) → n ≡ k + m → drop k (replicate n z) ≡ replicate m z
  drop-replicate zero n m z e = let e' : n ≡ m = omega arith in rw e'
  drop-replicate (suc k) zero m z e = absurd (omega arith)
  drop-replicate (suc k) (suc n) m z e = drop-replicate k n m z (omega arith)

  -- Two copies, one behind the other, into an array that is large enough.
  copies :
      (D T : List A) (n m : ℕ) (z : A)
      → n ≡ length D + (length T + m)
      → copy_at (copy_at (replicate n z) 0 D) (length D) T ≡ (D ++ T) ++ replicate m z
  copies D T n m z e = rw (copy_at_fits (replicate n z) 0 D (omega (arith, length-replicate n z))) (
      rw (drop-replicate (0 + length D) n (length T + m) z (omega arith)) (
        rw
          (copy_at_fits (D ++ replicate (length T + m) z) (length D) T (
            omega (
              arith,
              length-append D (replicate (length T + m) z),
              length-replicate (length T + m) z,
            )))
          (rw (
            take_append D (replicate (length T + m) z),
            drop-append_past D (replicate (length T + m) z) (length T) (length D + length T) refl,
            drop-replicate (length T) (length T + m) m z refl,
          ))))

module _ {ℓ} {A : Type ℓ} (zero_value : A) where
  -- The new array is the old one from its head round, and as many places again.
  pub grow-ring :
      (r : RingBuffer A)
      → 0 < length r.ring
      → (grow zero_value r).ring ≡ rotate r.head_pos r.ring ++ replicate (length r.ring) zero_value
  unfolding grow rotate
  grow-ring r h =
      let d = drop r.head_pos r.ring in
      let t = take r.head_pos r.ring in
      let size : (if length r.ring * 2 == 0 then 1 else length r.ring * 2) ≡ length r.ring * 2 =
        ground arith in
      let head : min (length r.ring * 2) (length d) ≡ length d =
        omega (arith, length-drop r.head_pos r.ring) in
      rw (size, head)
        (copies d t (length r.ring * 2) (length r.ring) zero_value
          (omega (arith, length-drop r.head_pos r.ring, length-take r.head_pos r.ring)))
