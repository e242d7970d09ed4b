-- ===== src/Paging/Pages.antt =====
-- A page is the run of its elements.
use yuhaiin.Prelude.{
  ℕ, ◌+◌, ◌-◌, ◌*◌, ◌%◌, ◌^◌, ◌≤◌, ◌<◌, ◌≡◌, sym, ap, ◌∙◌, false, some, List, [], ltb, leb, length,
  drop_of_length-le, leb→le, ◌⊎◌, take, drop, min, arith, take_of_length-le, Bool-cases, inl, inr,
  length-drop,
}
use yuhaiin.Paging.{normal_page, normal_size, normalize, shown, slice}

normal_size-le : (n : ℕ) → normal_size n ≤ 100
unfolding normal_size
normal_size-le n = ground arith

small_mod : (n : ℕ) → n < 2 ^ 32 → n % 2 ^ 32 ≡ n
small_mod n lt = omega arith

module _ {ℓ} {A : Type ℓ} where
  same_run :
      (n size : ℕ) (d : List A)
      → (n ≡ size) ⊎ ((length d ≤ n) × (length d ≤ size))
      → take n d ≡ take size d
  same_run n size d (inl e) = ap (λ k. take k d) e
  same_run n size d (inr (le, le')) = take_of_length-le n d le ∙ sym (take_of_length-le size d le')

  to_end :
      (total start size : ℕ) (d : List A)
      → length d ≡ total - start
      → start ≤ total
      → (min (start + size) total - start ≡ size)
        ⊎ ((length d ≤ min (start + size) total - start) × (length d ≤ size))
  to_end total start size d e le = elim (Bool-cases (leb (start + size) total)) [
    | inl fits ↦ inl (ground arith)
    | inr over ↦ inr ((ground arith, ground arith))
  ]

  shown_run :
      (items : List A) (start size : ℕ)
      → length items < 2 ^ 32 - 100
      → size ≤ 100
      → shown items start size (length items) ≡ some (take size (drop start items))
  unfolding shown
  shown_run items start size few small = elim (Bool-cases (leb (length items) start)) [
    | inl past ↦
        rw (past, drop_of_length-le start items (leb→le (length items) start past))
          (ap some (sym (take_of_length-le size [] (omega arith))))
    | inr within ↦
        let le : start ≤ length items = ground arith in
        let no_wrap : (start + size) % 2 ^ 32 ≡ start + size = omega arith in
        let forward : ltb (min (start + size) (length items)) start ≡ false = ground arith in
        rw (within, no_wrap, forward)
          (ap some (
            same_run _ size (drop start items)
              (to_end (length items) start size (drop start items) (length-drop start items) le)))
  ]

  -- For a list of fewer than 2^32 - 100 elements, and a page whose start is below 2^32, the page is the
  -- run of its elements, as many as there are; beyond the end it is empty.
  pub slice-run :
      (items : List A) (page page_size : ℕ)
      → length items < 2 ^ 32 - 100
      → (normal_page page - 1) * normal_size page_size < 2 ^ 32
      → slice items page page_size
        ≡ some (record {
          items =
              take
                (normal_size page_size)
                (drop ((normal_page page - 1) * normal_size page_size) items);
          page = normal_page page;
          page_size = normal_size page_size;
          total = length items;
        })
  unfolding slice normalize
  slice-run items page page_size few start =
      let whole : length items % 2 ^ 32 ≡ length items = omega arith in
      let no_wrap : ((normal_page page - 1) * normal_size page_size) % 2 ^ 32
          ≡ (normal_page page - 1) * normal_size page_size =
        small_mod _ start in
      rw
        (
          whole,
          no_wrap,
          shown_run items ((normal_page page - 1) * normal_size page_size) (normal_size page_size)
              few (normal_size-le page_size),
          slice,
          normalize,
        )
        (ap
          (λ n. some (record {
            items =
                take (normal_size page_size)
                  (drop ((normal_page page - 1) * normal_size page_size) items);
            page = normal_page page;
            page_size = normal_size page_size;
            total = n;
          }))
          whole)

  -- The start of a page wraps at 2^32: page 67108865 of 64 elements each shows the first page's.
  pub slice-wraps :
      (items : List A)
      → length items < 2 ^ 32 - 100
      → slice items 67108865 64
        ≡ some (record {
          items = take 64 items;
          page = 67108865;
          page_size = 64;
          total = length items;
        })
  unfolding slice normalize normal_page normal_size
  slice-wraps items few =
      let whole : length items % 2 ^ 32 ≡ length items = omega arith in
      rw (whole, shown_run items 0 64 few (omega arith), slice, normalize)
        (ap
          (λ n. some (record { items = take 64 items; page = 67108865; page_size = 64; total = n }))
          whole)
