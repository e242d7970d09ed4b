-- ===== src/Tries/Descriptions.antt =====
-- A batch of texts against its texts one by one, and searches against the descriptions of the two tries.
use yuhaiin.Prelude.{
  ℕ, ◌≡◌, refl, ap, ◌∙◌, Bool, true, false, List, [], ◌∷◌, contains, if◌then◌else◌,
}
use yuhaiin.Bytes.{Bytes}
use yuhaiin.Socks.{Address, domain_addr, ip_addr}
use yuhaiin.Cidr
use yuhaiin.Cidr.{Cidr, new_cidr, insert_ip, search_ip, Addr, v4, v6}
use yuhaiin.Cidr.Family
use yuhaiin.Cidr.Family.{Op, insert_op, run, note_all, run-lookup}
use yuhaiin.Domain
use yuhaiin.Domain.{Fqdn, new_fqdn, search_string}
use yuhaiin.Domain.Rules
use yuhaiin.Domain.Rules.{Table}
use yuhaiin.Domain.Queries.{path, rules, batch-lookup}
use yuhaiin.Tries.{
  Parsed, parsed_prefix, parsed_addr, no_address, full_mask, Tries, new_tries, search_fqdn,
  insert_parsed, insert_text, batch_cidr_parsed, batch_cidr, name_parsed, names, batch_texts,
}

-- The length of an address in bits.
unfoldable pub width : Addr → ℕ
width (v4 ip) = 32
width (v6 ip) = 128

unfoldable pub is_name : Parsed → Bool
is_name (parsed_prefix a n) = false
is_name (parsed_addr a) = false
is_name no_address = true

module _ {ℓ} {A : Type ℓ} (dec : Discrete A) (parse : Bytes → Parsed) where
  unfoldable pub insert_all : Tries A → List (Bytes × A) → Tries A
  unfolding insert_text
  insert_all t [] = t
  insert_all t ((str, mark) ∷ items) = insert_all (insert_text dec parse t str mark) items

  batch-step :
      (t : Tries A) (x : ℕ) (xs : Bytes) (mark : A) (items : List (Bytes × A)) (p : Parsed)
      → (record {
        cidr = batch_cidr dec parse (batch_cidr_parsed dec parse t.cidr p mark) items;
        domain =
            Domain.batch dec t.domain
              (name_parsed dec parse p (x ∷ xs, mark) (names dec parse items));
      })
        ≡ batch_texts dec parse (insert_parsed dec parse t (x ∷ xs) p mark) items
  unfolding batch_texts insert_parsed batch_cidr_parsed name_parsed Domain.batch
  batch-step t x xs mark items (parsed_prefix a n) = refl
  batch-step t x xs mark items (parsed_addr a) = refl
  batch-step t x xs mark items no_address = refl

  -- A batch leaves what its texts leave that are inserted one by one, in their order.
  pub batch_texts-insert_all :
      (t : Tries A) (items : List (Bytes × A)) → batch_texts dec parse t items ≡ insert_all t items
  unfolding batch_texts insert_all batch_cidr names insert_text
  batch_texts-insert_all t [] = unfold Domain.batch in refl
  batch_texts-insert_all t (([], mark) ∷ items) = batch_texts-insert_all t items
  batch_texts-insert_all t ((x ∷ xs, mark) ∷ items) =
      batch-step t x xs mark items (parse (x ∷ xs))
      ∙ batch_texts-insert_all (insert_parsed dec parse t (x ∷ xs) (parse (x ∷ xs)) mark) items

  -- What texts say to an address trie: a prefix itself, an address the prefix of its whole length,
  -- a name and the empty text nothing.
  unfoldable pub op_parsed : Parsed → A → List (Op A) → List (Op A)
  unfolding width
  op_parsed (parsed_prefix a n) mark os = insert_op a n mark ∷ os
  op_parsed (parsed_addr a) mark os = insert_op a (width a) mark ∷ os
  op_parsed no_address mark os = os

  unfoldable pub ops : List (Bytes × A) → List (Op A)
  unfolding op_parsed
  ops [] = []
  ops (([], mark) ∷ items) = ops items
  ops ((x ∷ xs, mark) ∷ items) = op_parsed (parse (x ∷ xs)) mark (ops items)

  run-op_parsed :
      (c : Cidr A) (p : Parsed) (mark : A) (os : List (Op A))
      → run dec os (batch_cidr_parsed dec parse c p mark) ≡ run dec (op_parsed p mark os) c
  unfolding run Cidr.Family.step batch_cidr_parsed op_parsed full_mask width
  run-op_parsed c (parsed_prefix a n) mark os = refl
  run-op_parsed c (parsed_addr (v4 ip)) mark os = refl
  run-op_parsed c (parsed_addr (v6 ip)) mark os = refl
  run-op_parsed c no_address mark os = refl

  batch_cidr-run :
      (c : Cidr A) (items : List (Bytes × A)) → batch_cidr dec parse c items ≡ run dec (ops items) c
  unfolding batch_cidr ops run
  batch_cidr-run c [] = refl
  batch_cidr-run c (([], mark) ∷ items) = batch_cidr-run c items
  batch_cidr-run c ((x ∷ xs, mark) ∷ items) =
      batch_cidr-run (batch_cidr_parsed dec parse c (parse (x ∷ xs)) mark) items
      ∙ run-op_parsed c (parse (x ∷ xs)) mark (ops items)

  -- The texts that are neither an address nor a prefix.
  unfoldable pub name_texts : List (Bytes × A) → List (Bytes × A)
  unfolding is_name
  name_texts [] = []
  name_texts (item ∷ items) =
      let rest = name_texts items in if is_name (parse item.0) then item ∷ rest else rest

  name_parsed-rules :
      (p : Parsed) (item : Bytes × A) (rest kept : List (Bytes × A)) (es : Table A)
      → ((fs : Table A) → rules rest fs ≡ rules kept fs)
      → rules (name_parsed dec parse p item rest) es
        ≡ rules (if is_name p then item ∷ kept else kept) es
  unfolding name_parsed is_name rules
  name_parsed-rules (parsed_prefix a n) item rest kept es same = same es
  name_parsed-rules (parsed_addr a) item rest kept es same = same es
  name_parsed-rules no_address ([], mark) rest kept es same = same es
  name_parsed-rules no_address (x ∷ xs, mark) rest kept es same = same ((path (x ∷ xs), mark) ∷ es)

  -- An empty text is no rule, whatever it is read as.
  empty-rules :
      (b : Bool) (mark : A) (kept : List (Bytes × A)) (es : Table A)
      → rules kept es ≡ rules (if b then ([], mark) ∷ kept else kept) es
  unfolding rules
  empty-rules true mark kept es = refl
  empty-rules false mark kept es = refl

  names-rules :
      (items : List (Bytes × A)) (es : Table A)
      → rules (names dec parse items) es ≡ rules (name_texts items) es
  unfolding names name_texts
  names-rules [] es = refl
  names-rules (([], mark) ∷ items) es =
      names-rules items es ∙ empty-rules (is_name (parse [])) mark (name_texts items) es
  names-rules ((x ∷ xs, mark) ∷ items) es =
      name_parsed-rules (parse (x ∷ xs)) (x ∷ xs, mark) (names dec parse items) (name_texts items)
        es (names-rules items)

  -- What a search is to find, read off the texts: for a name what the reference lookup of Domain.Rules
  -- finds among the names, for an address what the scan of the noted prefixes finds.
  unfoldable pub described : List (Bytes × A) → Address → A → Bool
  unfolding ops name_texts
  described items (domain_addr host port) x =
      Domain.Rules.lookup dec (rules (name_texts items) []) (path host) x
  described items (ip_addr ip port) x = Cidr.Family.lookup dec (note_all (ops items) ([], [])) ip x

  -- After a batch on a new matcher, a search without resolving finds a mark exactly when the list of
  -- texts says so: for a name the reference lookup in the texts that are neither an address nor a
  -- prefix; for an address a scan of the other texts for a noted prefix that covers it, where a text
  -- that is an address is the prefix of its whole length. An empty text stands for nothing.
  pub search_fqdn-described :
      (items : List (Bytes × A)) (addr : Address) (x : A)
      → contains dec (search_fqdn (batch_texts dec parse new_tries items) addr) x
        ≡ described items addr x
  unfolding search_fqdn batch_texts new_tries described
  search_fqdn-described items (domain_addr host port) x =
      batch-lookup dec (names dec parse items) host x
      ∙ ap (λ es. Domain.Rules.lookup dec es (path host) x) (names-rules items [])
  search_fqdn-described items (ip_addr ip port) x =
      ap (λ c. contains dec (search_ip c ip) x) (batch_cidr-run new_cidr items)
      ∙ run-lookup dec (ops items) ip x
