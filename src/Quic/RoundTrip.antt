-- ===== src/Quic/RoundTrip.antt =====
-- `Split` on one side and `Merge` on the other: the packet comes out once, when its last frame
-- arrives, whatever the order of the frames.
use mathlib.Core.List.{flatten}
use yuhaiin.Prelude.{
  ℕ, zero, suc, ◌+◌, ◌-◌, ◌%◌, ◌^◌, ◌≤◌, ◌<◌, ◌≡◌, refl, sym, ap, ◌∙◌, ◌≢◌, ◌⊎◌, subst, true, List,
  [], ◌∷◌, map, arith, ◌==◌, ltb, leb, length, get_or, Option, none, some, ◌||◌, All, contains,
  ℕ_discrete, same→eq, Bool-cases, inl, inr,
}
use yuhaiin.Bytes.{Bytes}
use yuhaiin.Quic.{
  Frag, merge, split, put_frag, gather, chunk, frames_needed, header_size, new_frag_frame,
  fragment_type_single,
}
use yuhaiin.Quic.Frames.{split_frame, payload-single_frame}
use yuhaiin.Quic.Cut.{flatten-all_chunks, frames_needed_pos}
use yuhaiin.Quic.Reassembly.{gather_ext, got, Stored, merge_last, merge_more}

-- What a receiver delivers from a sequence of datagrams that arrive at time `now`.
pub merge_all : Frag → ℕ → List Bytes → Frag × List Bytes
merge_all g now [] = (g, [])
merge_all g now (b ∷ bs) =
    let (g', o) = merge g now b in
    let (g'', rest) = merge_all g' now bs in
    (g'', elim o [ none ↦ rest | some packet ↦ packet ∷ rest ])

merge_all-none :
    (g : Frag) (now : ℕ) (b : Bytes) (bs : List Bytes) {g' : Frag}
    → merge g now b ≡ (g', none)
    → (merge_all g now (b ∷ bs)).1 ≡ (merge_all g' now bs).1
unfolding merge_all
merge_all-none g now b bs e =
    ap
      (λ (r : Frag × Option Bytes). elim r.1 as (λ _. List Bytes) [
        | none ↦ (merge_all r.0 now bs).1
        | some packet ↦ packet ∷ (merge_all r.0 now bs).1
      ])
      e

merge_all-some :
    (g : Frag) (now : ℕ) (b : Bytes) {g' : Frag} {packet : Bytes}
    → merge g now b ≡ (g', some packet)
    → (merge_all g now (b ∷ [])).1 ≡ packet ∷ []
unfolding merge_all
merge_all-some g now b e = rw (merge_all, e)

module _ (id n : ℕ) (part : ℕ → Bytes) (id_fits : id < 2 ^ 64) (n_fits : n ≤ 255) where
  after : List ℕ → List ℕ → List ℕ
  after [] ps = ps
  after (j ∷ js) ps = after js (j ∷ ps)

  got-after :
      (js ps : List ℕ) (i : ℕ)
      → (contains ℕ_discrete js i || contains ℕ_discrete ps i) ≡ true
      → got id n part id_fits n_fits (after js ps) i ≡ part i
  unfolding after contains got
  got-after [] [] i h = cc
  got-after [] (p ∷ ps) i h = ground (arith, same→eq ℕ_discrete p i, got-after [] ps i)
  got-after (j ∷ js) ps i h = got-after js (j ∷ ps) i (ground arith)

  -- The frames still to come, one of them at least.
  deliver :
      (js : List ℕ) (j : ℕ) (ps : List ℕ) (g : Frag) (now : ℕ)
      → Stored id n part id_fits n_fits (g.merge_map id) ps
      → All (λ i. i < n) (j ∷ js)
      → length ps + suc (length js) ≡ n
      → (merge_all g now (map (λ i. split_frame id n i (part i)) (j ∷ js))).1
        ≡ flatten (gather n 0 (got id n part id_fits n_fits (after (j ∷ js) ps))) ∷ []
  unfolding after
  deliver [] j ps g now h (lt, _) size =
      merge_all-some g now _ (merge_last id n part id_fits n_fits g now ps j h lt (omega arith))
  deliver (k ∷ js) j ps g now h (lt, rest) size =
      let (mf, step, h') = merge_more id n part id_fits n_fits g now ps j h lt (omega arith) in
      let here : (id == id) ≡ true = ground arith in
      merge_all-none g now _ _ step
      ∙ deliver js k (j ∷ ps) (put_frag g id (some mf)) now (rw here h') rest (omega arith)

  -- Every place once, in any order, and the parts come out side by side.
  pub delivered :
      (js : List ℕ) (g : Frag) (now : ℕ)
      → g.merge_map id ≡ none
      → 0 < n
      → All (λ i. i < n) js
      → length js ≡ n
      → ((i : ℕ) → i < n → contains ℕ_discrete js i ≡ true)
      → (merge_all g now (map (λ i. split_frame id n i (part i)) js)).1
        ≡ flatten (gather n 0 part) ∷ []
  delivered [] g now fresh pos below size every = absurd (omega arith)
  delivered (j ∷ js) g now fresh pos below size every =
      deliver js j [] g now (rw fresh refl) below (omega arith)
      ∙ ap (λ ps. flatten ps ∷ [])
          (gather_ext n 0 _ part λ i _ lt. got-after (j ∷ js) [] i (rw (every i (omega arith))))

get_or-gather : (n k j i : ℕ) (f : ℕ → Bytes) → i ≡ k + j → j < n → get_or (gather n k f) j [] ≡ f i
unfolding gather
get_or-gather zero k j i f e lt = absurd (omega arith)
get_or-gather (suc n) k zero i f e lt = let e' : i ≡ k = omega arith in rw e'
get_or-gather (suc n) k (suc j) i f e lt = get_or-gather n (k + 1) j i f (omega arith) (omega arith)

length-gather : (n k : ℕ) (f : ℕ → Bytes) → length (gather n k f) ≡ n
unfolding gather
length-gather zero k f = refl
length-gather (suc n) k f = ap suc (length-gather n (k + 1) f)

map_below :
    (f g : ℕ → Bytes) (n : ℕ) (js : List ℕ)
    → ((i : ℕ) → i < n → f i ≡ g i)
    → All (λ i. i < n) js
    → map f js ≡ map g js
map_below f g n [] h below = refl
map_below f g n (j ∷ js) h (lt, below) = rw (h j lt, map_below f g n js h below)

split_cases :
    (f : Frag) (buf : Bytes) (max_size : ℕ)
    → let room = max_size - header_size in
      let n = frames_needed (length buf) room in
      ((split f buf max_size).1 ≡ [])
      ⊎ ((split f buf max_size).1 ≡ new_frag_frame fragment_type_single 0 1 0 buf ∷ [])
      ⊎ ((0 < n)
          × (n ≤ 255)
          × ((split f buf max_size).1
              ≡ gather n 0 (λ i. split_frame ((f.split_id + 1) % 2 ^ 64) n i (chunk buf room n i))))
split_cases f buf max_size = elim (Bool-cases (leb max_size header_size)) [
  | inl small ↦ inl (unfold split in rw small)
  | inr roomy ↦ elim (Bool-cases (ltb (length buf) (max_size - 1))) [
    | inl one ↦ inr (inl (unfold split in rw (roomy, one)))
    | inr several ↦
        elim (Bool-cases (ltb 255 (frames_needed (length buf) (max_size - header_size)))) [
          | inl many ↦ inl (unfold split in rw (roomy, several, many))
          | inr few ↦ inr (
              inr (
                frames_needed_pos (length buf) (max_size - header_size) (ground arith)
                    (ground arith),
                ground arith,
                unfold split in rw (roomy, several, few),
              ))
        ]
  ]
]

abbrev Delivers : Frag → Bytes → ℕ → List ℕ → List Bytes → Type 0
Delivers g buf now js frames =
    length js ≡ length frames
    → All (λ i. i < length frames) js
    → ((i : ℕ) → i < length frames → contains ℕ_discrete js i ≡ true)
    → (merge_all g now (map (λ i. get_or frames i []) js)).1 ≡ buf ∷ []

deliver_single :
    (g : Frag) (buf : Bytes) (now : ℕ) (js : List ℕ)
    → Delivers g buf now js (new_frag_frame fragment_type_single 0 1 0 buf ∷ [])
deliver_single g buf now [] size below every = absurd (omega arith)
deliver_single g buf now (j ∷ k ∷ js) size below every = absurd (omega arith)
deliver_single g buf now (j ∷ []) size below every =
    let first : j ≡ 0 = omega arith in
    let (is_single, carries) = payload-single_frame 0 1 0 buf in
    rw first (merge_all-some g now _ {g' = g} (unfold merge in rw (is_single, carries)))

deliver_split :
    (f g : Frag) (buf : Bytes) (max_size now : ℕ) (js : List ℕ)
    → let room = max_size - header_size in
      let n = frames_needed (length buf) room in
      let id = (f.split_id + 1) % 2 ^ 64 in
      0 < n
      → n ≤ 255
      → g.merge_map id ≡ none
      → Delivers g buf now js (gather n 0 (λ i. split_frame id n i (chunk buf room n i)))
deliver_split f g buf max_size now js n_pos n_fits fresh size below every =
    let room = max_size - header_size in
    let n = frames_needed (length buf) room in
    let id = (f.split_id + 1) % 2 ^ 64 in
    let frame = λ (i : ℕ). split_frame id n i (chunk buf room n i) in
    let count = length-gather n 0 frame in
    let below' = subst (λ k. All (λ i. i < k) js) count below in
    ap (λ bs. (merge_all g now bs).1)
      (map_below _ frame n js (λ i lt. get_or-gather n 0 i i frame (omega arith) lt) below')
    ∙ delivered id n (chunk buf room n) (omega arith) n_fits js g now fresh n_pos below'
        (size ∙ count) (λ i lt. every i (omega (arith, count)))
    ∙ ap (λ packet. packet ∷ []) (flatten-all_chunks buf room n n_pos)

-- A packet is split by one side; its datagrams reach the other side, which holds nothing under the
-- packet's identifier, each of them once and in any order: `js` lists their positions. Then exactly
-- one packet is delivered, and it is the packet that was split.
pub merge-split :
    (f g : Frag) (buf : Bytes) (max_size now : ℕ) (js : List ℕ)
    → (split f buf max_size).1 ≢ []
    → g.merge_map ((f.split_id + 1) % 2 ^ 64) ≡ none
    → length js ≡ length (split f buf max_size).1
    → All (λ i. i < length (split f buf max_size).1) js
    → ((i : ℕ) → i < length (split f buf max_size).1 → contains ℕ_discrete js i ≡ true)
    → (merge_all g now (map (λ i. get_or (split f buf max_size).1 i []) js)).1 ≡ buf ∷ []
merge-split f g buf max_size now js made fresh size below every =
    elim (split_cases f buf max_size) [
      | inl nothing ↦ absurd (made nothing)
      | inr (inl one) ↦
          subst (λ frames. Delivers g buf now js frames) (sym one) (deliver_single g buf now js)
            size below every
      | inr (inr (n_pos, n_fits, several)) ↦
          subst (λ frames. Delivers g buf now js frames) (sym several)
            (deliver_split f g buf max_size now js n_pos n_fits fresh) size below every
    ]
