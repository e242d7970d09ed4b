-- ===== src/Quic/Cut.antt =====
-- The pieces that a packet is cut into: nothing is lost, and every frame fits.
use mathlib.Core.List.{flatten}
use native.Mathlib.Nat.{div-add-mod, mod-lt}
use yuhaiin.Prelude.{
  ℕ, zero, suc, ◌+◌, ◌-◌, ◌*◌, ◌%◌, ◌^◌, ◌≤◌, ◌<◌, ◌≡◌, sym, ap, ◌∙◌, subst, true, false, ◌∷◌, ◌++◌,
  arith, ◌==◌, ltb, leb, length, take, drop, append-nil, length-append, length-take, length-drop,
  take-append-drop, drop-drop, Bool-cases, inl, inr, All, ltb→lt, ℕ_discrete,
}
use yuhaiin.Bytes.{Bytes, put_be, length-put_be}
use yuhaiin.Quic.{
  gather, chunk, frames_needed, new_frag_frame, split, Frag, header_size, fragment_type_split,
  fragment_type_single,
}

module _ (buf : Bytes) (room frames : ℕ) where
  flatten-chunks :
      (n k : ℕ)
      → suc k + n ≡ frames
      → flatten (gather (suc n) k (chunk buf room frames)) ≡ drop (k * room) buf
  unfolding gather chunk flatten
  flatten-chunks zero k e =
      let last : (k == frames - 1) ≡ true = ground arith in
      rw last (append-nil (drop (k * room) buf))
  flatten-chunks (suc n) k e =
      let inner : (k == frames - 1) ≡ false = ground arith in
      rw inner (
        ap (λ rest. take room (drop (k * room) buf) ++ rest)
          (flatten-chunks n (k + 1) (omega arith))
        ∙ rw (← drop-drop room (k * room) buf {k = (k + 1) * room} (omega arith))
            (take-append-drop room (drop (k * room) buf)))

  -- The pieces side by side are the packet.
  pub flatten-all_chunks : 0 < frames → flatten (gather frames 0 (chunk buf room frames)) ≡ buf
  flatten-all_chunks h =
      let e : frames ≡ suc (frames - 1) = omega arith in
      subst (λ n. flatten (gather n 0 (chunk buf room frames)) ≡ buf) (sym e)
        (flatten-chunks (frames - 1) 0 (omega arith) ∙ ap (λ n. drop n buf) zero-mul_room)
    where
      zero-mul_room : 0 * room ≡ 0
      zero-mul_room = omega arith

-- The frames have room for the packet, and the last one is needed.
pub frames_needed_bound : (len room : ℕ) → 0 < room → len ≤ frames_needed len room * room
unfolding frames_needed
frames_needed_bound len room h = grind (arith, div-add-mod len room, mod-lt len h)

pub frames_needed_pos : (len room : ℕ) → 0 < room → 0 < len → 0 < frames_needed len room
frames_needed_pos len room h pos = elim (ℕ_discrete (frames_needed len room) 0) [
  | yes nil ↦ absurd (omega (arith, frames_needed_bound len room h, ap (λ (t : ℕ). t * room) nil))
  | no some_ ↦ omega arith
]

-- No piece is longer than the room in a frame.
pub length-chunk-le :
    (buf : Bytes) (room i : ℕ)
    → 0 < room
    → i < frames_needed (length buf) room
    → length (chunk buf room (frames_needed (length buf) room) i) ≤ room
unfolding chunk
length-chunk-le buf room i h lt = elim (Bool-cases (i == frames_needed (length buf) room - 1)) [
  | inl last ↦
      let e : i + 1 ≡ frames_needed (length buf) room = ground arith in
      rw last (
        omega (
          arith,
          length-drop (i * room) buf,
          frames_needed_bound (length buf) room h,
          ap (λ (t : ℕ). t * room) e,
        ))
  | inr inner ↦ rw inner (omega (arith, length-take room (drop (i * room) buf)))
]

-- The length of a split frame, and of the single one.
length-new_frag_frame :
    (id total current : ℕ) (payload : Bytes)
    → (length (new_frag_frame fragment_type_split id total current payload)
        ≡ header_size + length payload)
      × (length (new_frag_frame fragment_type_single id total current payload) ≡ 1 + length payload)
unfolding new_frag_frame
length-new_frag_frame id total current payload = (
  omega (arith, length-append (put_be 8 id) (total ∷ (current ∷ payload)), length-put_be 8 id),
  omega arith,
)

All-gather :
    (P : Bytes → Type 0) (f : ℕ → Bytes) (n k : ℕ)
    → ((i : ℕ) → i < k + n → P (f i))
    → All P (gather n k f)
unfolding gather
All-gather P f zero k h = tt
All-gather P f (suc n) k h =
    (h k (omega arith), All-gather P f n (k + 1) (λ i lt. h i (omega arith)))

-- No datagram that `Split` makes is longer than the size asked for.
pub split_fits :
    (f : Frag) (buf : Bytes) (max_size : ℕ)
    → All (λ frame. length frame ≤ max_size) (split f buf max_size).1
split_fits f buf max_size = elim (Bool-cases (leb max_size header_size)) [
  | inl small ↦ unfold split in rw small tt
  | inr roomy ↦ elim (Bool-cases (ltb (length buf) (max_size - 1))) [
    | inl one ↦
        unfold split in
        rw (roomy, one)
          (
            ground (arith, length-new_frag_frame 0 1 0 buf, ltb→lt (length buf) (max_size - 1) one),
            tt,
          )
    | inr several ↦
        elim (Bool-cases (ltb 255 (frames_needed (length buf) (max_size - header_size)))) [
          | inl many ↦ unfold split in rw (roomy, several, many) tt
          | inr few ↦
              unfold split in
              rw (roomy, several, few)
                (All-gather _ _ _ 0 λ i lt. ground (
                  arith,
                  length-chunk-le buf (max_size - header_size) i,
                  length-new_frag_frame ((f.split_id + 1) % 2 ^ 64)
                      (frames_needed (length buf) (max_size - header_size)) i
                      (chunk buf (max_size - header_size)
                        (frames_needed (length buf) (max_size - header_size)) i),
                ))
        ]
  ]
]
