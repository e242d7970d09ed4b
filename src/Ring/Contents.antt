-- ===== src/Ring/Contents.antt =====
-- What the buffer holds, and its well-formedness.
use yuhaiin.Prelude.{◌≤◌, ◌<◌, ◌≡◌, true, List, arith, length, take}
use yuhaiin.Ring.{RingBuffer, len}
use yuhaiin.Ring.Window.{rotate}

module _ {ℓ} {A : Type ℓ} where
  pub record IsValid (r : RingBuffer A) : Type ℓ where
    pub head_in : r.head_pos < length r.ring
    pub tail_in : r.tail_pos < length r.ring
    pub met : r.full ≡ true → r.head_pos ≡ r.tail_pos

  -- What the buffer holds, oldest first.
  unfoldable pub contents : RingBuffer A → List A
  contents r = take (len r) (rotate r.head_pos r.ring)

  pub len-le : (r : RingBuffer A) → IsValid r → len r ≤ length r.ring
  unfolding len
  len-le r v = ground arith
