-- ===== src/Quic/Reassembly.antt =====
-- A packet's frames, taken in whatever order, give the packet back.
use mathlib.Core.List.{flatten}
use yuhaiin.Prelude.{
  ℕ, zero, suc, ◌+◌, ◌^◌, ◌≤◌, ◌<◌, ◌≡◌, refl, sym, ap, ◌∙◌, true, false, List, [], ◌∷◌, arith,
  ◌==◌, if◌then◌else◌, length, set, replicate, Option, none, some,
}
use yuhaiin.Bytes.{Bytes}
use yuhaiin.Quic.{
  Frag, MergeFrag, merge, merge_split, store_part, load, malformed, new_merge_frag, put_frag,
  gather, fragment_type_split,
}
use yuhaiin.Quic.Frames.{
  split_frame, type-split_frame, id-split_frame, total-split_frame, current-split_frame,
  payload-split_frame,
}

module _ {ℓ} {A : Type ℓ} where
  pub gather_ext :
      (n k : ℕ) (f g : ℕ → A)
      → ((i : ℕ) → k ≤ i → i < k + n → f i ≡ g i)
      → gather n k f ≡ gather n k g
  unfolding gather
  gather_ext zero k f g h = refl
  gather_ext (suc n) k f g h = rw (
    h k (omega arith) (omega arith),
    gather_ext n (k + 1) f g (λ i a b. h i (omega arith) (omega arith)),
  )

  set-gather :
      (n k i j : ℕ) (f : ℕ → A) (v : A)
      → j ≡ k + i
      → set (gather n k f) i v ≡ gather n k (λ x. if x == j then v else f x)
  unfolding gather
  set-gather zero k i j f v e = refl
  set-gather (suc n) k zero j f v e =
      let here : (k == j) ≡ true = ground arith in
      rw here (ap (◌∷◌ v) (gather_ext n (k + 1) f _ λ i a b. sym (later i (ground arith))))
    where
      later : (i : ℕ) → (i == j) ≡ false → (if i == j then v else f i) ≡ f i
      later i ne = rw ne
  set-gather (suc n) k (suc i) j f v e =
      let past : (k == j) ≡ false = ground arith in
      rw past (ap (◌∷◌ (f k)) (set-gather n (k + 1) i j f v (omega arith)))

  replicate-gather : (n k : ℕ) (v : A) → replicate n v ≡ gather n k (λ _. v)
  unfolding gather
  replicate-gather zero k v = refl
  replicate-gather (suc n) k v = ap (◌∷◌ v) (replicate-gather n (k + 1) v)

module _ (id n : ℕ) (part : ℕ → Bytes) (id_fits : id < 2 ^ 64) (n_fits : n ≤ 255) where
  -- The parts that the frames of some places have brought.
  unfoldable pub got : List ℕ → ℕ → Bytes
  got [] i = []
  got (j ∷ js) i = if i == j then part j else got js i

  abbrev pub Stored : Option MergeFrag → List ℕ → Type 0
  Stored none ps = ps ≡ []
  Stored (some mf) ps = (mf.parts ≡ gather n 0 (got ps)) × (mf.count ≡ length ps) × (mf.total ≡ n)

  Stored-malformed :
      (o : Option MergeFrag) (ps : List ℕ) (j : ℕ)
      → Stored o ps
      → j < n
      → malformed o fragment_type_split n j ≡ false
  unfolding malformed
  Stored-malformed none ps j h lt = ground arith
  Stored-malformed (some mf) ps j h lt = ground (arith, h.2)

  load-Stored :
      (o : Option MergeFrag) (ps : List ℕ) (now : ℕ) → Stored o ps → Stored (some (load o n now)) ps
  unfolding load new_merge_frag got
  load-Stored none ps now h = rw h (replicate-gather n 0 [], refl, refl)
  load-Stored (some mf) ps now h = h

  store_part-Stored :
      (mf : MergeFrag) (ps : List ℕ) (j : ℕ)
      → Stored (some mf) ps
      → length ps < n
      → Stored (some (store_part mf j (part j))) (j ∷ ps)
  unfolding store_part got
  store_part-Stored mf ps j (parts_eq, count_eq, total_eq) lt =
      (rw parts_eq (set-gather n 0 j j (got ps) (part j) (omega arith)), omega arith, total_eq)

  merge_frame :
      (g : Frag) (now : ℕ) (ps : List ℕ) (j : ℕ)
      → Stored (g.merge_map id) ps
      → j < n
      → merge g now (split_frame id n j (part j))
        ≡ merge_split g id (load (g.merge_map id) n now) j (part j)
  unfolding merge
  merge_frame g now ps j h lt = rw (
    type-split_frame id n j (part j),
    id-split_frame id n j (part j) id_fits,
    total-split_frame id n j (part j),
    current-split_frame id n j (part j),
    payload-split_frame id n j (part j),
    Stored-malformed (g.merge_map id) ps j h lt,
  )

  pub merge_last :
      (g : Frag) (now : ℕ) (ps : List ℕ) (j : ℕ)
      → Stored (g.merge_map id) ps
      → j < n
      → length ps + 1 ≡ n
      → merge g now (split_frame id n j (part j))
        ≡ (put_frag g id none, some (flatten (gather n 0 (got (j ∷ ps)))))
  merge_last g now ps j h lt full =
      let before = load-Stored (g.merge_map id) ps now h in
      let mf = load (g.merge_map id) n now in
      let (parts_eq, count_eq, total_eq) = store_part-Stored mf ps j before (omega arith) in
      let done : ((store_part mf j (part j)).count == (store_part mf j (part j)).total) ≡ true =
        ground arith in
      merge_frame g now ps j h lt ∙ unfold merge_split in rw (done, parts_eq)

  pub merge_more :
      (g : Frag) (now : ℕ) (ps : List ℕ) (j : ℕ)
      → Stored (g.merge_map id) ps
      → j < n
      → length ps + 1 < n
      → (mf : MergeFrag) × (merge g now (split_frame id n j (part j))
          ≡ (put_frag g id (some mf), none))
        × Stored (some mf) (j ∷ ps)
  merge_more g now ps j h lt open_ =
      let before = load-Stored (g.merge_map id) ps now h in
      let mf = load (g.merge_map id) n now in
      let after_store = store_part-Stored mf ps j before (omega arith) in
      let (parts_eq, count_eq, total_eq) = after_store in
      let more : ((store_part mf j (part j)).count == (store_part mf j (part j)).total) ≡ false =
        ground arith in
      (
        store_part mf j (part j),
        merge_frame g now ps j h lt ∙ unfold merge_split in rw more,
        after_store,
      )
