-- ===== src/Tries.antt =====
-- pkg/net/trie/v2/trie.go: one matcher of texts that are names, addresses or prefixes, over the tries of
-- Domain and Cidr in memory. How netip reads a text is the parameter `parse`; the addresses that a
-- name's resolver gives are a value of the search, `none` where it fails.
pub mod Descriptions
pub mod Resolved
use yuhaiin.Prelude.{ℕ, List, [], ◌∷◌, Option, none, some}
use yuhaiin.Bytes.{Bytes}
use yuhaiin.Socks.{Address, domain_addr, ip_addr}
use yuhaiin.Cidr
use yuhaiin.Cidr.{Addr, v4, v6, Cidr, new_cidr, insert_ip, remove_ip, search_ip}
use yuhaiin.Domain
use yuhaiin.Domain.{Fqdn, new_fqdn, search_string}

-- `netip.ParsePrefix`, then `netip.ParseAddr`.
pub data Parsed : Type 0 where
  parsed_prefix : Addr → ℕ → Parsed
  parsed_addr : Addr → Parsed
  no_address : Parsed

-- The mask of a single address.
unfoldable pub full_mask : Addr → ℕ
full_mask (v4 ip) = 32
full_mask (v6 ip) = 128

pub record Tries {ℓ} (A : Type ℓ) : Type ℓ where
  pub cidr : Cidr A
  pub domain : Fqdn A

module _ {ℓ} {A : Type ℓ} where
  unfoldable pub new_tries : Tries A
  new_tries = record { cidr = new_cidr; domain = new_fqdn }

  unfoldable pub clear_tries : Tries A → Tries A
  clear_tries t = record { cidr = Cidr.clear t.cidr; domain = Domain.clear t.domain }

  unfoldable pub search_fqdn : Tries A → Address → List A
  search_fqdn t (domain_addr host port) = search_string t.domain host
  search_fqdn t (ip_addr ip port) = search_ip t.cidr ip

  -- The loop over a name's addresses.
  unfoldable pub first_marks : Cidr A → List (List ℕ) → List A
  first_marks c [] = []
  first_marks c (ip ∷ ips) =
      let rest = first_marks c ips in elim (search_ip c ip) [ [] ↦ rest | m ∷ ms ↦ m ∷ ms ]

  unfoldable pub search_tries : Tries A → Option (List (List ℕ)) → Address → List A
  unfolding search_fqdn first_marks
  search_tries t ips (ip_addr ip port) = search_fqdn t (ip_addr ip port)
  search_tries t ips (domain_addr host port) = elim (search_fqdn t (domain_addr host port)) [
    | m ∷ ms ↦ m ∷ ms
    | [] ↦ elim ips [ none ↦ [] | some given ↦ first_marks t.cidr given ]
  ]

module _ {ℓ} {A : Type ℓ} (dec : Discrete A) (parse : Bytes → Parsed) where
  unfoldable pub insert_parsed : Tries A → Bytes → Parsed → A → Tries A
  unfolding full_mask
  insert_parsed t str (parsed_prefix a n) mark = record t { cidr = insert_ip dec t.cidr a n mark }
  insert_parsed t str (parsed_addr a) mark = record t {
    cidr = insert_ip dec t.cidr a (full_mask a) mark;
  }
  insert_parsed t str no_address mark = record t { domain = Domain.insert dec t.domain str mark }

  unfoldable pub insert_text : Tries A → Bytes → A → Tries A
  unfolding insert_parsed
  insert_text t [] mark = t
  insert_text t (c ∷ cs) mark = insert_parsed t (c ∷ cs) (parse (c ∷ cs)) mark

  -- What `Batch` puts into the address trie while it hands the rest to the names' `Batch`.
  unfoldable pub batch_cidr_parsed : Cidr A → Parsed → A → Cidr A
  unfolding full_mask
  batch_cidr_parsed c (parsed_prefix a n) mark = insert_ip dec c a n mark
  batch_cidr_parsed c (parsed_addr a) mark = insert_ip dec c a (full_mask a) mark
  batch_cidr_parsed c no_address mark = c

  unfoldable pub batch_cidr : Cidr A → List (Bytes × A) → Cidr A
  unfolding batch_cidr_parsed
  batch_cidr c [] = c
  batch_cidr c (([], mark) ∷ items) = batch_cidr c items
  batch_cidr c ((x ∷ xs, mark) ∷ items) =
      batch_cidr (batch_cidr_parsed c (parse (x ∷ xs)) mark) items

  unfoldable pub name_parsed : Parsed → Bytes × A → List (Bytes × A) → List (Bytes × A)
  name_parsed no_address item rest = item ∷ rest
  name_parsed (parsed_addr a) item rest = rest
  name_parsed (parsed_prefix a n) item rest = rest

  -- The texts that `Batch` yields.
  unfoldable pub names : List (Bytes × A) → List (Bytes × A)
  unfolding name_parsed
  names [] = []
  names (([], mark) ∷ items) = names items
  names ((x ∷ xs, mark) ∷ items) = name_parsed (parse (x ∷ xs)) (x ∷ xs, mark) (names items)

  unfoldable pub batch_texts : Tries A → List (Bytes × A) → Tries A
  unfolding batch_cidr names
  batch_texts t items = record {
    cidr = batch_cidr t.cidr items;
    domain = Domain.batch dec t.domain (names items);
  }

  unfoldable pub remove_parsed : Tries A → Bytes → Parsed → A → Tries A
  unfolding full_mask
  remove_parsed t str (parsed_prefix a n) mark = record t { cidr = remove_ip t.cidr a n }
  remove_parsed t str (parsed_addr a) mark = record t { cidr = remove_ip t.cidr a (full_mask a) }
  remove_parsed t str no_address mark = record t { domain = Domain.remove dec t.domain str mark }

  unfoldable pub remove_text : Tries A → Bytes → A → Tries A
  unfolding remove_parsed
  remove_text t [] mark = t
  remove_text t (c ∷ cs) mark = remove_parsed t (c ∷ cs) (parse (c ∷ cs)) mark
