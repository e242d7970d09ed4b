-- ===== src/Paging.antt =====
-- pkg/utils/paging/paging.go: the page of a list that a request asks for. Numbers are `uint32`, with
-- their wrap written out; `none` is the panic of a slice whose end comes before its start.
pub mod Pages
use yuhaiin.Prelude.{
  ℕ, ◌+◌, ◌-◌, ◌*◌, ◌%◌, ◌^◌, Option, none, some, List, [], ◌==◌, if◌then◌else◌, ltb, leb, length,
  take, drop, min,
}

abbrev pub default_page_size : ℕ
default_page_size = 8

abbrev pub max_page_size : ℕ
max_page_size = 100

-- `Normalize` of the page and of the size.
unfoldable pub normal_page : ℕ → ℕ
normal_page page = if page == 0 then 1 else page

unfoldable pub normal_size : ℕ → ℕ
normal_size page_size =
    let size = if page_size == 0 then default_page_size else page_size in
    if ltb max_page_size size then max_page_size else size

pub normalize : ℕ → ℕ → ℕ × ℕ
unfolding normal_page normal_size
normalize page page_size = (normal_page page, normal_size page_size)

-- What is shown, of which page, in pages of which size, of how many.
pub record Page {ℓ} (A : Type ℓ) : Type ℓ where
  pub items : List A
  pub page : ℕ
  pub page_size : ℕ
  pub total : ℕ

module _ {ℓ} {A : Type ℓ} where
  pub shown : List A → ℕ → ℕ → ℕ → Option (List A)
  shown items start size total =
      let end = min ((start + size) % 2 ^ 32) total in
      if leb total start
      then some []
      else if ltb end start
      then none
      else some (take (end - start) (drop start items))

  pub slice : List A → ℕ → ℕ → Option (Page A)
  unfolding normalize shown
  slice items page page_size =
      let (p, size) = normalize page page_size in
      let total = length items % 2 ^ 32 in
      elim (shown items (((p - 1) * size) % 2 ^ 32) size total) [
        | none ↦ none
        | some s ↦ some (record { items = s; page = p; page_size = size; total = total })
      ]
