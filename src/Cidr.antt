-- ===== src/Cidr.antt =====
-- pkg/net/trie/v2/cidr: the binary trie of `trie.go` that gives an address the marks of every prefix
-- that covers it, and the matcher of `cidr.go` with a trie for each address family.
-- A trie is a pointer in the source: `nil` is the nil pointer, and the two loops over the bytes of an
-- address and over the masks 128, 64, .., 1 are one recursion on the address's bits.
pub mod Table
pub mod Marks
pub mod Refines
pub mod Family
use Prim.Native.Nat.{bit_and}
use yuhaiin.Prelude.{
  ℕ, zero, suc, ◌+◌, ◌/◌, Bool, true, false, not, ◌&&◌, Option, none, some, List, [], ◌∷◌, ◌++◌,
  ◌==◌, if◌then◌else◌, length, drop, take, contains, add_new, remove_first, replicate,
}

pub data Trie {ℓ} (A : Type ℓ) : Type ℓ where
  nil : Trie A
  -- the marks, the child for the bit 0 and the child for the bit 1
  node : List A → Trie A → Trie A → Trie A

-- The bits of a byte, as `ip[i]&b != 0` reads them for b = 128, 64, .., 1.
pub byte_bits : ℕ → List Bool
byte_bits x =
    not (bit_and x 128 == 0)
    ∷ not (bit_and x 64 == 0)
    ∷ not (bit_and x 32 == 0)
    ∷ not (bit_and x 16 == 0)
    ∷ not (bit_and x 8 == 0)
    ∷ not (bit_and x 4 == 0)
    ∷ not (bit_and x 2 == 0)
    ∷ not (bit_and x 1 == 0)
    ∷ []

pub bits : List ℕ → List Bool
unfolding byte_bits
bits [] = []
bits (x ∷ xs) = byte_bits x ++ bits xs

module _ {ℓ} {A : Type ℓ} where
  pub new_trie : Trie A
  new_trie = node [] nil nil

  pub marks : Trie A → List A
  marks nil = []
  marks (node ms l r) = ms

  pub child : Bool → Trie A → Trie A
  child b nil = nil
  child false (node ms l r) = l
  child true (node ms l r) = r

  -- The child made if it is not there yet.
  pub fresh : Trie A → Trie A
  unfolding new_trie
  fresh nil = new_trie
  fresh (node ms l r) = node ms l r

  pub with_marks : List A → Trie A → Trie A
  with_marks ms nil = nil
  with_marks ms (node _ l r) = node ms l r

  pub with_child : Bool → Trie A → Trie A → Trie A
  with_child b c nil = nil
  with_child false c (node ms l r) = node ms c r
  with_child true c (node ms l r) = node ms l c

  -- `Search`, after the bits so far: nothing more below a nil pointer.
  pub search_bits : List Bool → Trie A → List A
  unfolding marks child
  search_bits bs nil = []
  search_bits [] (node ms l r) = ms
  search_bits (b ∷ bs) (node ms l r) = ms ++ search_bits bs (child b (node ms l r))

  pub search : Trie A → List ℕ → List A
  unfolding search_bits bits
  search t ip = search_bits (bits ip) t

  -- The loop that `Remove` and `Cidr.remove` share: down `n` bits, and nothing at a nil pointer;
  -- `f` is what is done to the marks found there.
  pub edit_bits : (List A → List A) → List Bool → ℕ → Trie A → Trie A
  unfolding with_marks with_child marks child
  edit_bits f bs n nil = nil
  edit_bits f [] n (node ms l r) = node (f ms) l r
  edit_bits f (b ∷ bs) zero (node ms l r) = node (f ms) l r
  edit_bits f (b ∷ bs) (suc n) (node ms l r) =
      with_child b (edit_bits f bs n (child b (node ms l r))) (node ms l r)

module _ {ℓ} {A : Type ℓ} (dec : Discrete A) where
  -- The loop of `Insert`: `n` is `maskSize - bitCount`.
  pub insert_bits : List Bool → ℕ → A → Trie A → Trie A
  unfolding with_marks with_child marks child fresh
  insert_bits [] n m t = with_marks (add_new dec m (marks t)) t
  insert_bits (b ∷ bs) zero m t = with_marks (add_new dec m (marks t)) t
  insert_bits (b ∷ bs) (suc n) m t = with_child b (insert_bits bs n m (fresh (child b t))) t

  pub insert : Trie A → List ℕ → ℕ → A → Trie A
  unfolding insert_bits bits
  insert t ip mask_size m = insert_bits (bits ip) mask_size m t

  pub remove : Trie A → List ℕ → ℕ → A → Trie A
  unfolding edit_bits bits
  remove t ip mask_size m = edit_bits (remove_first dec m) (bits ip) mask_size t

-- A Go `netip.Addr`, by its family and its bytes (`AsSlice`); an IPv4-mapped IPv6 address is of
-- the family `v6`, as `Is4` has it.
pub data Addr : Type 0 where
  v4 : List ℕ → Addr
  v6 : List ℕ → Addr

abbrev pub is_zero : ℕ → Bool
is_zero x = x == 0

pub all_zero : List ℕ → Bool
all_zero [] = true
all_zero (x ∷ xs) = is_zero x && all_zero xs

abbrev pub is_ffff : List ℕ → Bool
is_ffff [] = false
is_ffff (a ∷ []) = false
is_ffff (a ∷ b ∷ rest) = a == 255 && b == 255

-- `net.IP.To4`: four bytes as they are, sixteen if they are ::ffff:a.b.c.d.
pub to4 : List ℕ → Option (List ℕ)
unfolding all_zero
to4 ip =
    if length ip == 4
    then some ip
    else if length ip == 16 && all_zero (take 10 ip) && is_ffff (drop 10 ip)
    then some (drop 12 ip)
    else none

-- `net.IP.To16`; `[]` is the nil slice.
pub to16 : List ℕ → List ℕ
to16 ip =
    if length ip == 4
    then replicate 10 0 ++ (255 ∷ 255 ∷ ip)
    else if length ip == 16
    then ip
    else []

pub record Cidr {ℓ} (A : Type ℓ) : Type ℓ where
  pub v4_cidr_trie : Trie A
  pub v6_cidr_trie : Trie A

module _ {ℓ} {A : Type ℓ} where
  unfoldable pub new_cidr : Cidr A
  unfolding new_trie
  new_cidr = record { v4_cidr_trie = new_trie; v6_cidr_trie = new_trie }

  unfoldable pub clear : Cidr A → Cidr A
  unfolding new_trie
  clear c = record c { v4_cidr_trie = new_trie; v6_cidr_trie = new_trie }

  -- `Cidr.remove`, which drops every mark of the prefix.
  pub remove_prefix : Trie A → List ℕ → ℕ → Trie A
  unfolding edit_bits bits
  remove_prefix t ip mask_size = edit_bits (λ _. []) (bits ip) mask_size t

  -- `RemoveCIDR` and `RemoveIP`.
  pub remove_ip : Cidr A → Addr → ℕ → Cidr A
  unfolding remove_prefix
  remove_ip c (v4 ip) n = record c { v4_cidr_trie = remove_prefix c.v4_cidr_trie ip n }
  remove_ip c (v6 ip) n = record c { v6_cidr_trie = remove_prefix c.v6_cidr_trie ip n }

  unfoldable pub search_ip : Cidr A → List ℕ → List A
  unfolding search to4 to16
  search_ip c ip = elim (to4 ip) [
    | some x ↦ search c.v4_cidr_trie x
    | none ↦ search c.v6_cidr_trie (to16 ip)
  ]

module _ {ℓ} {A : Type ℓ} (dec : Discrete A) where
  -- `InsertCIDR` and `InsertIP`.
  unfoldable pub insert_ip : Cidr A → Addr → ℕ → A → Cidr A
  unfolding insert
  insert_ip c (v4 ip) n m = record c { v4_cidr_trie = insert dec c.v4_cidr_trie ip n m }
  insert_ip c (v6 ip) n m = record c { v6_cidr_trie = insert dec c.v6_cidr_trie ip n m }
