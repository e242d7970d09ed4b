-- ===== src/Ring/Pop.antt =====
-- `Pop`, `Peek`, and the buffers that hold nothing.
use yuhaiin.Prelude.{
  ℕ, suc, ◌+◌, ◌<◌, ◌≡◌, refl, ap, ◌∙◌, sym, inl, inr, true, false, Option, none, some, List, [],
  ◌∷◌, arith, ◌==◌, if◌then◌else◌, Bool-cases, length, add-one, length-set, length-take,
  length-replicate, set, get_elem?, take_append_of_le,
}
use yuhaiin.Ring.{RingBuffer, new_ring_buffer, len, empty, pop, peek, clear}
use yuhaiin.Ring.Window.{rotate, length-rotate, get_elem?_lt, rotate_step, rotate_full}
use yuhaiin.Ring.Contents.{IsValid, contents, len-le}

-- What a `Pop` takes off: nothing from the empty list, else the first element.
abbrev pub Popped {ℓ} : {A : Type ℓ} → List A → Option A → List A → Type ℓ
Popped xs none ys = (xs ≡ []) × (ys ≡ [])
Popped xs (some x) ys = xs ≡ x ∷ ys

module _ {ℓ} {A : Type ℓ} (zero_value : A) where
  empty-len : (r : RingBuffer A) → IsValid r → empty r ≡ true → len r ≡ 0
  unfolding empty len
  empty-len r v e = ground arith

  nonempty-len : (r : RingBuffer A) → IsValid r → empty r ≡ false → 0 < len r
  unfolding empty len
  nonempty-len r v e = ground arith

  -- The buffer that `Pop` leaves where there is something to take.
  advance : RingBuffer A → RingBuffer A
  advance r = record {
    ring = set r.ring r.head_pos zero_value;
    head_pos = if r.head_pos + 1 == length r.ring then 0 else r.head_pos + 1;
    tail_pos = r.tail_pos;
    full = false;
  }

  advance-IsValid : (r : RingBuffer A) → IsValid r → IsValid (advance r)
  unfolding advance
  advance-IsValid r v =
      ground (arith, v.head_in, v.tail_in, length-set r.ring r.head_pos zero_value)

  len-advance : (r : RingBuffer A) → IsValid r → empty r ≡ false → len r ≡ suc (len (advance r))
  unfolding advance len empty
  len-advance r v e = ground (arith, v.head_in, v.tail_in, length-set r.ring r.head_pos zero_value)

  advance-window :
      (r : RingBuffer A)
      → IsValid r
      → rotate (advance r).head_pos (advance r).ring
        ≡ rotate (suc r.head_pos) (set r.ring r.head_pos zero_value)
  unfolding advance
  advance-window r v = elim (Bool-cases (r.head_pos + 1 == length r.ring)) [
    | inl e ↦ rw e (
        sym (rotate_full (set r.ring r.head_pos zero_value))
        ∙ ap (λ n. rotate n (set r.ring r.head_pos zero_value))
            (ground (arith, length-set r.ring r.head_pos zero_value)))
    | inr e ↦ rw (e, add-one)
  ]

  contents-advance :
      (r : RingBuffer A) {x : A}
      → IsValid r
      → empty r ≡ false
      → get_elem? r.ring r.head_pos ≡ some x
      → contents r ≡ x ∷ contents (advance r)
  unfolding contents
  contents-advance r {x} v e at =
      let (ys, here, next) = rotate_step r.head_pos r.ring zero_value v.head_in at in
      rw (len-advance r v e, here, advance-window r v, next)
        (ap (◌∷◌ x) (
          sym (
            take_append_of_le (len (advance r)) ys (zero_value ∷ []) (
              omega (
                arith,
                len-le r v,
                len-advance r v e,
                ap length here,
                length-rotate r.head_pos r.ring,
              )))))

  -- On a well-formed buffer `Pop` does not panic, keeps it well formed, and takes off the oldest
  -- element; on an empty one it reports that and changes nothing.
  pub pop-contents :
      (r : RingBuffer A)
      → IsValid r
      → (r' : RingBuffer A) × (o : Option A) × (pop zero_value r ≡ some (r', o))
        × IsValid r'
        × Popped (contents r) o (contents r')
  pop-contents r v = elim (Bool-cases (empty r)) [
    | inl e ↦
        let gone : contents r ≡ [] = unfold contents in rw (empty-len r v e) in
        (r, none, unfold pop in ground arith, v, (gone, gone))
    | inr e ↦
        let (x, at) = get_elem?_lt r.ring r.head_pos v.head_in in
        (
          advance r,
          some x,
          unfold pop advance in ground arith,
          advance-IsValid r v,
          contents-advance r v e at,
        )
  ]

  -- Clearing a well-formed buffer leaves one that is well formed and empty.
  pub clear-contents :
      (r : RingBuffer A)
      → IsValid r
      → IsValid (clear zero_value r) × (contents (clear zero_value r) ≡ [])
  unfolding clear contents len
  clear-contents r v =
      (ground (arith, v.head_in, length-replicate (length r.ring) zero_value), refl)

  pub new_ring_buffer-contents :
      (n : ℕ)
      → IsValid (new_ring_buffer zero_value n) × (contents (new_ring_buffer zero_value n) ≡ [])
  unfolding new_ring_buffer contents len
  new_ring_buffer-contents n =
      (ground (arith, length-replicate (if n == 0 then 8 else n) zero_value), refl)

  -- On a well-formed buffer `Peek` shows what `Pop` takes, and `Len` counts what the buffer holds.
  pub peek-pop :
      (r : RingBuffer A)
      → IsValid r
      → (o : Option A) × (r' : RingBuffer A) × (peek r ≡ some o)
        × (pop zero_value r ≡ some (r', o))
        × (len r ≡ length (contents r))
  peek-pop r v = elim (Bool-cases (empty r)) [
    | inl e ↦ (none, r, unfold peek in ground arith, unfold pop in ground arith, size)
    | inr e ↦
        let (x, at) = get_elem?_lt r.ring r.head_pos v.head_in in
        (some x, advance r, unfold peek in ground arith, unfold pop advance in ground arith, size)
  ]
    where
      size : len r ≡ length (contents r)
      size =
          unfold contents in
          omega (
            arith,
            length-take (len r) (rotate r.head_pos r.ring),
            length-rotate r.head_pos r.ring,
            len-le r v,
          )
