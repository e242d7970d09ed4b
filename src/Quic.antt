-- ===== src/Quic.antt =====
-- pkg/net/proxy/quic/frag.go: packets cut into datagrams of a limited size, and put together again.
-- A slice of bytes is a list of numbers below 256. `merge_map` is a function from identifiers; the
-- mutex and the atomic counters make each `Merge` one step. `now` is the clock at the call. The
-- pooled buffers only recycle memory and have no counterpart.
pub mod Frames
pub mod Cut
pub mod Reassembly
pub mod RoundTrip
use mathlib.Core.List.{flatten}
use yuhaiin.Prelude.{
  ℕ, zero, suc, ◌+◌, ◌-◌, ◌*◌, ◌/◌, ◌%◌, ◌^◌, Bool, true, false, not, ◌&&◌, ◌||◌, Option, none,
  some, List, [], ◌∷◌, ◌++◌, ◌==◌, ltb, leb, if◌then◌else◌, length, take, drop, set, get_or,
  replicate,
}
use yuhaiin.Bytes.{Bytes, put_be, get_be}

abbrev pub fragment_type_split : ℕ
fragment_type_split = 1

abbrev pub fragment_type_single : ℕ
fragment_type_single = 2

-- The bytes of a header of a split frame.
abbrev pub header_size : ℕ
header_size = 11

pub new_frag_frame : ℕ → ℕ → ℕ → ℕ → Bytes → Bytes
new_frag_frame t id total current payload =
    if t == fragment_type_single
    then t ∷ payload
    else t ∷ (put_be 8 id ++ (total ∷ (current ∷ payload)))

-- The readers of `fragFrame`. A frame too short for a field reads as 0.
pub frame_type : Bytes → ℕ
frame_type f = if ltb (length f) 1 then 0 else get_or f 0 0

pub frame_id : Bytes → ℕ
frame_id f = if ltb (length f) 9 then 0 else get_be (take 8 (drop 1 f))

pub frame_total : Bytes → ℕ
frame_total f = if ltb (length f) 10 then 0 else get_or f 9 0

pub frame_current : Bytes → ℕ
frame_current f = if ltb (length f) 11 then 0 else get_or f 10 0

pub frame_payload : Bytes → Bytes
frame_payload f =
    if frame_type f == fragment_type_single
    then drop 1 f
    else if ltb (length f) 11
    then []
    else drop 11 f

pub record MergeFrag : Type 0 where
  pub time : ℕ
  -- a nil slice is `[]`
  pub parts : List Bytes
  pub count : ℕ
  pub total : ℕ
  pub total_len : ℕ

pub record Frag : Type 0 where
  pub merge_map : ℕ → Option MergeFrag
  pub split_id : ℕ

abbrev pub update {ℓ} : {A : Type ℓ} → (ℕ → A) → ℕ → A → ℕ → A
update m k v j = if j == k then v else m j

abbrev pub put_frag : Frag → ℕ → Option MergeFrag → Frag
put_frag f id o = record f { merge_map = update f.merge_map id o }

pub new_merge_frag : ℕ → ℕ → MergeFrag
new_merge_frag total now = record {
  time = now;
  parts = replicate total [];
  count = 0;
  total = total;
  total_len = 0;
}

-- `LoadOrStore`: what is stored, or a new entry.
pub load : Option MergeFrag → ℕ → ℕ → MergeFrag
load none total now = new_merge_frag total now
load (some mf) total now = mf

-- Whether what is stored has another number of frames.
pub differs : Option MergeFrag → ℕ → Bool
differs none total = false
differs (some mf) total = not (total == mf.total)

-- Whether a header is refused, given what is stored under its identifier.
pub malformed : Option MergeFrag → ℕ → ℕ → ℕ → Bool
unfolding differs
malformed stored t total index =
    not (t == fragment_type_split) || (total == 0) || leb total index || differs stored total

-- The part stored, and whether it was the last; the counters are `uint32`.
pub store_part : MergeFrag → ℕ → Bytes → MergeFrag
store_part mf index payload = record mf {
  parts = set mf.parts index payload;
  total_len = (mf.total_len + length payload) % 2 ^ 32;
  count = (mf.count + 1) % 2 ^ 32;
}

pub merge_split : Frag → ℕ → MergeFrag → ℕ → Bytes → Frag × Option Bytes
merge_split f id mf index payload =
    let mf' = store_part mf index payload in
    if mf'.count == mf'.total
    then (put_frag f id none, some (flatten mf'.parts))
    else (put_frag f id (some mf'), none)

pub merge : Frag → ℕ → Bytes → Frag × Option Bytes
merge f now buf =
    let id = frame_id buf in
    let stored = f.merge_map id in
    if frame_type buf == fragment_type_single
    then (f, some (frame_payload buf))
    else if malformed stored (frame_type buf) (frame_total buf) (frame_current buf)
    then (put_frag f id none, none)
    else merge_split f id (load stored (frame_total buf) now) (frame_current buf)
        (frame_payload buf)

-- The sweep of the timer in `NewConnectionPacketConn`, which drops what is older than 30 seconds.
pub sweep : Frag → ℕ → Frag
sweep f now = record f {
  merge_map = λ id. elim (f.merge_map id) [
    | none ↦ none
    | some mf ↦ if ltb 30_000_000_000 (now - mf.time) then none else some mf
  ];
}

-- What a loop over `i` from `k` gathers, one append a round.
unfoldable pub gather {ℓ} : {A : Type ℓ} → ℕ → ℕ → (ℕ → A) → List A
gather zero k f = []
gather (suc n) k f = f k ∷ gather n (k + 1) f

-- How many frames a packet needs, when `room` bytes go into each.
unfoldable pub frames_needed : ℕ → ℕ → ℕ
frames_needed len room = if len % room == 0 then len / room else len / room + 1

unfoldable pub chunk : Bytes → ℕ → ℕ → ℕ → Bytes
chunk buf room frames i =
    if i == frames - 1 then drop (i * room) buf else take room (drop (i * room) buf)

-- `[]` is the nil slice: no frame at all.
unfoldable pub split : Frag → Bytes → ℕ → Frag × List Bytes
unfolding gather frames_needed chunk
split f buf max_size =
    let room = max_size - header_size in
    let frames = frames_needed (length buf) room in
    let id = (f.split_id + 1) % 2 ^ 64 in
    if leb max_size header_size
    then (f, [])
    else if ltb (length buf) (max_size - 1)
    then (f, new_frag_frame fragment_type_single 0 1 0 buf ∷ [])
    else if ltb 255 frames
    then (f, [])
    else (
      record f { split_id = id },
      gather frames 0
          (λ i. new_frag_frame fragment_type_split id frames i (chunk buf room frames i)),
    )
