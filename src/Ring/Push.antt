-- ===== src/Ring/Push.antt =====
-- `Push` adds at the end.
use yuhaiin.Prelude.{
  ℕ, suc, ◌+◌, ◌-◌, ◌<◌, ◌≡◌, refl, ap, ◌∙◌, sym, ◌⊎◌, inl, inr, true, false, false≢true, not, some,
  List, [], ◌∷◌, ◌++◌, arith, leb, ◌==◌, if◌then◌else◌, Bool-cases, length, length-append,
  length-set, length-replicate, take, set, replicate, take-set, take_append_of_le,
  take_of_length-le,
}
use yuhaiin.Ring.{RingBuffer, grow, len, store, refuses, push}
use yuhaiin.Ring.Window.{rotate, length-rotate, rotate-set_ahead, rotate-set_wrapped, rotate-zero}
use yuhaiin.Ring.Grow.{grow-ring}
use yuhaiin.Ring.Contents.{IsValid, contents}

module _ {ℓ} {A : Type ℓ} where
  store-window :
      (r : RingBuffer A) (t : A)
      → IsValid r
      → r.full ≡ false
      → rotate r.head_pos (set r.ring r.tail_pos t) ≡ set (rotate r.head_pos r.ring) (len r) t
  unfolding len
  store-window r t v e = elim (Bool-cases (leb r.head_pos r.tail_pos)) [
    | inl le ↦
        rw (e, le)
          (rotate-set_ahead r.head_pos (r.tail_pos - r.head_pos) r.tail_pos r.ring t (ground arith)
            v.tail_in)
    | inr gt ↦
        rw (e, gt)
          (rotate-set_wrapped r.head_pos (r.tail_pos + length r.ring - r.head_pos) r.tail_pos r.ring
            t (ground arith) v.head_in (ground arith))
  ]

  -- Storing in a buffer that is not full does not panic and adds the element last.
  store_lem :
      (r : RingBuffer A) (t : A)
      → IsValid r
      → r.full ≡ false
      → (r' : RingBuffer A) × (store r t ≡ some r')
        × IsValid r'
        × (len r' ≡ suc (len r))
        × (r'.ring ≡ set r.ring r.tail_pos t)
        × (r'.head_pos ≡ r.head_pos)
  unfolding store len
  store_lem r t v e =
      let next = if r.tail_pos + 1 == length r.ring then 0 else r.tail_pos + 1 in
      (
        record {
          ring = set r.ring r.tail_pos t;
          head_pos = r.head_pos;
          tail_pos = next;
          full = if next == r.head_pos then true else r.full;
        },
        ground (arith, v.tail_in),
        ground (arith, v.head_in, v.tail_in, length-set r.ring r.tail_pos t),
        ground (arith, v.head_in, v.tail_in, length-set r.ring r.tail_pos t),
        refl,
        refl,
      )

  take_of_le-length :
      (xs : List A) (n : ℕ) (t : A)
      → n < length xs
      → (ys : List A) → ys ≡ set xs n t
      → take (suc n) ys ≡ take n xs ++ t ∷ []
  take_of_le-length xs n t h ys e = rw e (take-set xs n t h)

  store-contents :
      (r : RingBuffer A) (t : A)
      → IsValid r
      → r.full ≡ false
      → (r' : RingBuffer A) × (store r t ≡ some r')
        × IsValid r'
        × (contents r' ≡ contents r ++ t ∷ [])
  unfolding contents
  store-contents r t v e =
      let (r', eq, v', l, ring_eq, head_eq) = store_lem r t v e in
      (
        r',
        eq,
        v',
        rw (l, ring_eq, head_eq)
            (take_of_le-length (rotate r.head_pos r.ring) (len r) t
              (omega (arith, length-rotate r.head_pos r.ring, len-lt r v e)) _
              (store-window r t v e)),
      )
    where
      len-lt : (r : RingBuffer A) → IsValid r → r.full ≡ false → len r < length r.ring
      len-lt r v e = unfold len in ground arith

module _ {ℓ} {A : Type ℓ} (zero_value : A) where
  grow-contents :
      (r : RingBuffer A)
      → IsValid r
      → r.full ≡ true
      → IsValid (grow zero_value r)
        × ((grow zero_value r).full ≡ false)
        × (contents (grow zero_value r) ≡ contents r)
  grow-contents r v f =
      let size : length (grow zero_value r).ring ≡ length r.ring + length r.ring =
        ap length (grow-ring zero_value r (omega arith))
        ∙ omega (
          arith,
          length-append (rotate r.head_pos r.ring) (replicate (length r.ring) zero_value),
          length-rotate r.head_pos r.ring,
          length-replicate (length r.ring) zero_value,
        ) in
      (
        unfold grow in
            record {
              head_in = omega arith;
              tail_in = omega arith;
              met = λ h. absurd (false≢true h);
            },
        unfold grow in refl,
        grown ∙ window ∙ sym filled,
      )
    where
      filled : contents r ≡ rotate r.head_pos r.ring
      filled =
          unfold contents len in
          rw f
            (take_of_length-le (length r.ring) _ (omega (arith, length-rotate r.head_pos r.ring)))

      window :
          take
            (length r.ring)
            (rotate 0 (rotate r.head_pos r.ring ++ replicate (length r.ring) zero_value))
          ≡ rotate r.head_pos r.ring
      window = rw (rotate-zero (rotate r.head_pos r.ring ++ replicate (length r.ring) zero_value)) (
          take_append_of_le (length r.ring) (rotate r.head_pos r.ring) _
            (omega (arith, length-rotate r.head_pos r.ring))
          ∙ take_of_length-le (length r.ring) _ (omega (arith, length-rotate r.head_pos r.ring)))

      length-grow : len (grow zero_value r) ≡ length r.ring
      length-grow = unfold len grow in ground arith

      head : (grow zero_value r).head_pos ≡ 0
      head = unfold grow in refl

      grown :
          contents (grow zero_value r)
          ≡ take
              (length r.ring)
              (rotate 0 (rotate r.head_pos r.ring ++ replicate (length r.ring) zero_value))
      grown = unfold contents in rw (length-grow, head, grow-ring zero_value r (omega arith))

  -- On a well-formed buffer `Push` does not panic and keeps it well formed. It reports false and
  -- changes nothing when the buffer is full and its array has the size limit; otherwise it reports
  -- true and the element comes last.
  pub push-contents :
      (max_cap : ℕ) (r : RingBuffer A) (t : A)
      → IsValid r
      → (r' : RingBuffer A) × (push zero_value max_cap r t ≡ some (r', not (refuses max_cap r)))
        × IsValid r'
        × (contents r' ≡ (if refuses max_cap r then contents r else contents r ++ t ∷ []))
  push-contents max_cap r t v = elim (Bool-cases (refuses max_cap r)) [
    | inl yes_full ↦ rw yes_full (r, unfold push in ground arith, v, refl)
    | inr open_ ↦ rw open_ (accept open_ (Bool-cases r.full))
  ]
    where
      accept :
          refuses max_cap r ≡ false
          → (r.full ≡ true) ⊎ (r.full ≡ false)
          → (r' : RingBuffer A) × (push zero_value max_cap r t ≡ some (r', true))
            × IsValid r'
            × (contents r' ≡ contents r ++ t ∷ [])
      accept o (inl f) =
          let (vg, fg, cg) = grow-contents r v f in
          let (r', eq, v', c) = store-contents (grow zero_value r) t vg fg in
          (r', unfold push in ground arith, v', c ∙ ap (λ xs. xs ++ t ∷ []) cg)
      accept o (inr f) =
          let (r', eq, v', c) = store-contents r t v f in (r', unfold push in ground arith, v', c)
