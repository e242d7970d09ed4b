-- ===== src/Quic/Frames.antt =====
-- What the readers of a frame find in a frame that was built.
use yuhaiin.Prelude.{
  ℕ, zero, suc, ◌+◌, ◌^◌, ◌≤◌, ◌<◌, ◌≡◌, refl, false, [], ◌∷◌, ◌++◌, arith, ◌==◌, ltb, length, take,
  get_or, length-append, take_append, drop-append_past, subst,
}
use yuhaiin.Bytes.{Bytes, put_be, length-put_be, get_be-put_be}
use yuhaiin.Quic.{
  new_frag_frame, frame_type, frame_id, frame_total, frame_current, frame_payload,
  fragment_type_split, fragment_type_single,
}

get_or-append :
    (xs ys : Bytes) (n k d : ℕ) → n ≡ length xs + k → get_or (xs ++ ys) n d ≡ get_or ys k d
get_or-append [] ys n k d e = let e' : n ≡ k = omega arith in rw e'
get_or-append (x ∷ xs) ys zero k d e = absurd (omega arith)
get_or-append (x ∷ xs) ys (suc n) k d e = get_or-append xs ys n k d (omega arith)

module _ (id total current : ℕ) (payload : Bytes) where
  abbrev pub split_frame : Bytes
  split_frame = new_frag_frame fragment_type_split id total current payload

  size : length split_frame ≡ 11 + length payload
  unfolding new_frag_frame
  size =
      omega (arith, length-append (put_be 8 id) (total ∷ (current ∷ payload)), length-put_be 8 id)

  shape : split_frame ≡ 1 ∷ (put_be 8 id ++ (total ∷ (current ∷ payload)))
  unfolding new_frag_frame
  shape = refl

  -- A reader's length test is passed.
  long_enough : (n : ℕ) → n ≤ 11 → ltb (length split_frame) n ≡ false
  long_enough n h = ground (arith, size)

  pub type-split_frame : frame_type split_frame ≡ fragment_type_split
  unfolding frame_type
  type-split_frame = rw (long_enough 1 (omega arith), shape)

  pub id-split_frame : id < 2 ^ 64 → frame_id split_frame ≡ id
  unfolding frame_id
  id-split_frame h = rw (long_enough 9 (omega arith), shape, field) (get_be-put_be 8 id h)
    where
      field : take 8 (put_be 8 id ++ (total ∷ (current ∷ payload))) ≡ put_be 8 id
      field =
          subst (λ n. take n (put_be 8 id ++ (total ∷ (current ∷ payload))) ≡ put_be 8 id)
            (length-put_be 8 id) (take_append (put_be 8 id) (total ∷ (current ∷ payload)))

  pub total-split_frame : frame_total split_frame ≡ total
  unfolding frame_total
  total-split_frame =
      rw (long_enough 10 (omega arith), shape)
        (get_or-append (put_be 8 id) (total ∷ (current ∷ payload)) 8 0 0
          (omega (arith, length-put_be 8 id)))

  pub current-split_frame : frame_current split_frame ≡ current
  unfolding frame_current
  current-split_frame =
      rw (long_enough 11 (omega arith), shape)
        (get_or-append (put_be 8 id) (total ∷ (current ∷ payload)) 9 1 0
          (omega (arith, length-put_be 8 id)))

  pub payload-split_frame : frame_payload split_frame ≡ payload
  payload-split_frame =
      unfold frame_payload in
      rw (is_split, long_enough 11 (omega arith), shape)
        (drop-append_past (put_be 8 id) (total ∷ (current ∷ payload)) 2 10
          (omega (arith, length-put_be 8 id)))
    where
      is_split : (frame_type split_frame == fragment_type_single) ≡ false
      is_split = rw type-split_frame

-- A single frame gives back what it carries.
pub payload-single_frame :
    (id total current : ℕ) (payload : Bytes)
    → let frame = new_frag_frame fragment_type_single id total current payload in
      (frame_type frame ≡ fragment_type_single) × (frame_payload frame ≡ payload)
unfolding new_frag_frame frame_type frame_payload
payload-single_frame id total current payload = (ground arith, ground arith)
