-- ===== src/Ring.antt =====
-- pkg/utils/ringbuffer/ringbuffer.go: the growing ring buffer behind the packet queues, its state
-- and the methods of `RingBuffer`. `zero_value` stands for Go's `*new(T)`, and `max_cap` for what the
-- callback `maxCap` returns at the call. The mutex only makes each call atomic and has no
-- counterpart. An index out of range is a panic of the source, the result `none` here.
pub mod Window
pub mod Grow
pub mod Contents
pub mod Push
pub mod Pop
pub mod History
use yuhaiin.Prelude.{
  ℕ, ◌+◌, ◌-◌, ◌*◌, Bool, true, false, not, ◌&&◌, Option, none, some, List, ◌++◌, leb, ◌==◌,
  if◌then◌else◌, length, get_elem?, set, take, drop, replicate, min, ltb,
}

pub record RingBuffer {ℓ} (A : Type ℓ) : Type ℓ where
  pub ring : List A
  pub head_pos : ℕ
  pub tail_pos : ℕ
  pub full : Bool

-- Go's `copy(dst[at:], src)`: as many elements as both have room for.
pub copy_at {ℓ} : {A : Type ℓ} → List A → ℕ → List A → List A
copy_at dst at src =
    let n = min (length dst - at) (length src) in take at dst ++ take n src ++ drop (at + n) dst

module _ {ℓ} {A : Type ℓ} (zero_value : A) where
  -- An `initCap` that is zero or negative gives 8 places.
  pub new_ring_buffer : ℕ → RingBuffer A
  new_ring_buffer init_cap = record {
    ring = replicate (if init_cap == 0 then 8 else init_cap) zero_value;
    head_pos = 0;
    tail_pos = 0;
    full = false;
  }

  pub grow : RingBuffer A → RingBuffer A
  unfolding copy_at
  grow r =
      let new_size = if length r.ring * 2 == 0 then 1 else length r.ring * 2 in
      let head_len = min new_size (length (drop r.head_pos r.ring)) in
      let first = copy_at (replicate new_size zero_value) 0 (drop r.head_pos r.ring) in
      record {
        ring = copy_at first head_len (take r.head_pos r.ring);
        head_pos = 0;
        tail_pos = length r.ring;
        full = false;
      }

module _ {ℓ} {A : Type ℓ} where
  pub len : RingBuffer A → ℕ
  len r =
      if r.full
      then length r.ring
      else if leb r.head_pos r.tail_pos
      then r.tail_pos - r.head_pos
      else r.tail_pos + length r.ring - r.head_pos

  pub empty : RingBuffer A → Bool
  empty r = not r.full && r.head_pos == r.tail_pos

  -- The part of `Push` after the growing: `r.ring[r.tailPos] = t` panics out of range.
  pub store : RingBuffer A → A → Option (RingBuffer A)
  store r t =
      let next = if r.tail_pos + 1 == length r.ring then 0 else r.tail_pos + 1 in
      if ltb r.tail_pos (length r.ring)
      then some (record {
        ring = set r.ring r.tail_pos t;
        head_pos = r.head_pos;
        tail_pos = next;
        full = if next == r.head_pos then true else r.full;
      })
      else none

  -- Whether the buffer is full and may not grow.
  pub refuses : ℕ → RingBuffer A → Bool
  refuses max_cap r = r.full && leb max_cap (length r.ring)

module _ {ℓ} {A : Type ℓ} (zero_value : A) where
  pub push : ℕ → RingBuffer A → A → Option (RingBuffer A × Bool)
  push max_cap r t =
      if refuses max_cap r
      then some (r, false)
      else elim (store (if r.full then grow zero_value r else r) t) [
        | none ↦ none
        | some r' ↦ some (r', true)
      ]

  -- The result's option is the source's second result; `pop` on an empty buffer changes nothing.
  pub pop : RingBuffer A → Option (RingBuffer A × Option A)
  unfolding empty
  pop r = if empty r then some (r, none) else elim (get_elem? r.ring r.head_pos) [
    | none ↦ none
    | some t ↦ some (
      record {
        ring = set r.ring r.head_pos zero_value;
        head_pos = if r.head_pos + 1 == length r.ring then 0 else r.head_pos + 1;
        tail_pos = r.tail_pos;
        full = false;
      },
      some t,
    )
  ]

  pub clear : RingBuffer A → RingBuffer A
  clear r = record {
    ring = replicate (length r.ring) zero_value;
    head_pos = 0;
    tail_pos = 0;
    full = false;
  }

module _ {ℓ} {A : Type ℓ} where
  pub peek : RingBuffer A → Option (Option A)
  unfolding empty
  peek r =
      if empty r
      then some none
      else elim (get_elem? r.ring r.head_pos) [ none ↦ none | some t ↦ some (some t) ]
