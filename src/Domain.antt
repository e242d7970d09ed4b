-- ===== src/Domain.antt =====
-- pkg/net/trie/v2/domain: the reader of `reader.go` that takes a name apart from its end, and the
-- trie of `memory.go` with its wrapper `Fqdn` in `fqdn.go`. A Go string is the list of its bytes.
-- A trie's functions take the labels that the reader still yields: `hasNext` asks whether there is
-- one, `str` is the first and `next` drops it; `Reader` shows which labels these are. A map of
-- children is an association list without order of meaning; a nil map is the empty one.
pub mod Labels
pub mod Maps
pub mod Rules
pub mod Nodes
pub mod Lookup
pub mod Queries
use yuhaiin.Prelude.{
  ℕ, zero, suc, ◌+◌, ◌-◌, Bool, true, false, not, ◌&&◌, Option, none, some, List, [], ◌∷◌, ◌++◌,
  ◌==◌, if◌then◌else◌, length, drop, take, contains, add_new, remove_first, same, ℕ_discrete,
}
use yuhaiin.Bytes.{Bytes, eq_bytes}

-- strings.LastIndexByte(s, c) + 1
pub after_last : ℕ → Bytes → ℕ
after_last c [] = 0
after_last c (x ∷ xs) =
    let later = after_last c xs in if later == 0 then (if x == c then 1 else 0) else later + 1

-- `aft` is `none` where the source has -1.
pub record Reader : Type 0 where
  pub domain : Bytes
  pub separate : ℕ
  pub aft : Option ℕ
  pub pre : ℕ

pub new_reader : Bytes → ℕ → Reader
unfolding after_last
new_reader domain separate = record {
  domain = domain;
  separate = separate;
  aft = some (length domain);
  pre = after_last separate domain;
}

pub next : Reader → Reader
unfolding after_last
next r = if r.pre == 0 then record r { aft = none } else record r {
  aft = some (r.pre - 1);
  pre = after_last r.separate (take (r.pre - 1) r.domain);
}

abbrev pub value_empty : Bytes
value_empty = 3 ∷ []

abbrev pub asterisk : Bytes
asterisk = b'*' ∷ []

-- `str`, where `aft` is `a`.
pub str : Reader → ℕ → Bytes
str r a = if r.pre == a then value_empty else drop r.pre (take a r.domain)

-- What `array` gathers: `for ; d.hasNext(); d.next() { b = append(b, d.str()) }`.
pub labels : ℕ → Reader → List Bytes
unfolding str next
labels zero r = []
labels (suc fuel) r = elim r.aft [ none ↦ [] | some a ↦ str r a ∷ labels fuel (next r) ]

-- The labels of a name, last one first; there are at most one more than bytes.
pub domain_labels : Bytes → ℕ → List Bytes
unfolding labels new_reader
domain_labels domain separate = labels (length domain + 1) (new_reader domain separate)

abbrev pub same_label : Bytes → Bytes → Bool
same_label a b = eq_bytes a b

mutual
  pub data Trie {ℓ} (A : Type ℓ) : Type ℓ where
    node : List A → Children A → Trie A

  pub data Children {ℓ} (A : Type ℓ) : Type ℓ where
    end : Children A
    entry : Bytes → Trie A → Children A → Children A

module _ {ℓ} {A : Type ℓ} where
  pub new_trie : Trie A
  new_trie = node [] end

  pub value : Trie A → List A
  value (node vs cs) = vs

  pub children : Trie A → Children A
  children (node vs cs) = cs

  pub find : Bytes → Children A → Option (Trie A)
  find k end = none
  find k (entry j t cs) = elim (same_label j k) [ true ↦ some t | false ↦ find k cs ]

  pub assign : Bytes → Trie A → Children A → Children A
  assign k t end = entry k t end
  assign k t (entry j u cs) = elim (same_label j k) [
    | true ↦ entry j t cs
    | false ↦ entry j u (assign k t cs)
  ]

  pub delete : Bytes → Children A → Children A
  delete k end = end
  delete k (entry j u cs) = elim (same_label j k) [ true ↦ cs | false ↦ entry j u (delete k cs) ]

  -- `child(s, false)`
  pub child : Bytes → Trie A → Option (Trie A)
  unfolding children find
  child k t = find k (children t)

  abbrev pub or_new : Option (Trie A) → Trie A
  or_new none = node [] end
  or_new (some t) = t

  pub value_of : Option (Trie A) → List A
  unfolding value
  value_of none = []
  value_of (some t) = value t

  -- From the label `_second` on: `t` is the node reached, and the labels are what `next` brings.
  pub search_second : Trie A → List Bytes → List A
  unfolding value_of child
  search_second t [] = value t ++ value_of (child asterisk t)
  search_second t (l ∷ ls) =
      value_of (child asterisk t) ++ elim (child l t) [ none ↦ [] | some r ↦ search_second r ls ]

  -- The wildcard search: the first label that is a child of the asterisk's node.
  pub search_wildcard : Trie A → List Bytes → List A
  unfolding search_second child
  search_wildcard t [] = []
  search_wildcard t (l ∷ ls) = elim (child l t) [
    | none ↦ search_wildcard t ls
    | some r ↦ search_second r ls
  ]

  pub search : Trie A → List Bytes → List A
  unfolding search_second search_wildcard child
  search root [] = []
  search root (l ∷ ls) = elim (child l root) [
    | some r ↦ search_second r ls
    | none ↦ elim (child asterisk root) [ none ↦ [] | some r ↦ search_wildcard r (l ∷ ls) ]
  ]

  pub is_empty : Trie A → Bool
  is_empty (node [] end) = true
  is_empty (node [] (entry j t cs)) = false
  is_empty (node (v ∷ vs) cs) = false

module _ {ℓ} {A : Type ℓ} (dec : Discrete A) where
  pub insert_labels : List Bytes → A → Trie A → Trie A
  unfolding find assign
  insert_labels [] m (node vs cs) = node (add_new dec m vs) cs
  insert_labels (l ∷ ls) m (node vs cs) =
      node vs (assign l (insert_labels ls m (or_new (find l cs))) cs)

  -- `none` where the path is not there, and nothing is changed. A child that is left with neither
  -- children nor values is deleted; the loop upward stops at the first that is not.
  pub remove_labels : List Bytes → A → Trie A → Option (Trie A)
  unfolding find assign delete is_empty
  remove_labels [] m (node vs cs) = some (node (remove_first dec m vs) cs)
  remove_labels (l ∷ ls) m (node vs cs) = elim (find l cs) [
    | none ↦ none
    | some t ↦ elim (remove_labels ls m t) [
      | none ↦ none
      | some t' ↦
          some (node vs (elim (is_empty t') [ true ↦ delete l cs | false ↦ assign l t' cs ]))
    ]
  ]

pub record Fqdn {ℓ} (A : Type ℓ) : Type ℓ where
  pub root : Trie A
  pub separate : ℕ

module _ {ℓ} {A : Type ℓ} where
  unfoldable pub new_fqdn : Fqdn A
  unfolding new_trie
  new_fqdn = record { root = new_trie; separate = b'.' }

  -- `SearchString`, which `Search` calls with the address's host name.
  unfoldable pub search_string : Fqdn A → Bytes → List A
  unfolding search domain_labels
  search_string d domain = search d.root (domain_labels domain d.separate)

  unfoldable pub clear : Fqdn A → Fqdn A
  unfolding new_trie
  clear d = record d { root = new_trie }

module _ {ℓ} {A : Type ℓ} (dec : Discrete A) where
  unfoldable pub insert : Fqdn A → Bytes → A → Fqdn A
  unfolding insert_labels domain_labels
  insert d [] m = d
  insert d (x ∷ xs) m = record d {
    root = insert_labels dec (domain_labels (x ∷ xs) d.separate) m d.root;
  }

  unfoldable pub batch : Fqdn A → List (Bytes × A) → Fqdn A
  unfolding insert
  batch d [] = d
  batch d ((k, v) ∷ items) = batch (insert d k v) items

  pub remove : Fqdn A → Bytes → A → Fqdn A
  unfolding remove_labels domain_labels
  remove d [] m = d
  remove d (x ∷ xs) m = elim (remove_labels dec (domain_labels (x ∷ xs) d.separate) m d.root) [
    | none ↦ d
    | some root' ↦ record d { root = root' }
  ]
