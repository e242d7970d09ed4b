-- ===== src/Tests/Texts.antt =====
-- The theorems on texts of names, addresses and prefixes at concrete inputs.
use yuhaiin.Prelude.{
  ℕ, some, same, add_new, refl, ◌≡◌, List, [], ◌∷◌, contains, ℕ_discrete, ◌==◌, if◌then◌else◌,
}
use yuhaiin.Bytes.{Bytes, bytes_discrete}
use yuhaiin.Socks.{domain_addr, ip_addr}
use yuhaiin.Cidr.{v4, search_ip, insert_ip, new_cidr}
use yuhaiin.Domain.{search_string, batch, new_fqdn}
use yuhaiin.Tries.{
  Parsed, parsed_prefix, parsed_addr, no_address, new_tries, search_tries, search_fqdn, batch_texts,
}
use yuhaiin.Tries.Resolved.{search_tries-resolved}
use yuhaiin.Tries.Descriptions.{
  insert_all, batch_texts-insert_all, described, search_fqdn-described,
}

-- A text that begins with 1 is an address, one that begins with 2 a prefix, any other a name.
abbrev read_text : Bytes → Parsed
read_text [] = no_address
read_text (c ∷ cs) =
    if c == b'1'
    then parsed_addr (v4 (10 ∷ 0 ∷ 0 ∷ 1 ∷ []))
    else if c == b'2'
    then parsed_prefix (v4 (10 ∷ 0 ∷ 0 ∷ 0 ∷ [])) 8
    else no_address

abbrev texts : List (Bytes × ℕ)
texts =
    (b'1' ∷ [], 5)
    ∷ (b'a' ∷ b'.' ∷ b'b' ∷ [], 6)
    ∷ ([], 7)
    ∷ (b'2' ∷ [], 8)
    ∷ (b'*' ∷ b'.' ∷ b'b' ∷ [], 9)
    ∷ []

batch_texts-insert_all_example :
    batch_texts ℕ_discrete read_text new_tries texts
    ≡ insert_all ℕ_discrete read_text new_tries texts
batch_texts-insert_all_example = batch_texts-insert_all ℕ_discrete read_text new_tries texts

search_fqdn-described_example :
    contains ℕ_discrete
      (search_fqdn
        (batch_texts ℕ_discrete read_text new_tries texts)
        (ip_addr (10 ∷ 0 ∷ 0 ∷ 1 ∷ []) 80))
      8
    ≡ described ℕ_discrete read_text texts (ip_addr (10 ∷ 0 ∷ 0 ∷ 1 ∷ []) 80) 8
search_fqdn-described_example =
    search_fqdn-described ℕ_discrete read_text texts (ip_addr (10 ∷ 0 ∷ 0 ∷ 1 ∷ []) 80) 8

abbrev host_c : Bytes
host_c = b'c' ∷ []

uncovered : search_string (batch_texts ℕ_discrete read_text new_tries texts).domain host_c ≡ []
unfolding batch_texts search_string batch new_tries new_fqdn same bytes_discrete
uncovered = refl

marked :
    search_ip (batch_texts ℕ_discrete read_text new_tries texts).cidr (10 ∷ 0 ∷ 0 ∷ 1 ∷ [])
    ≡ 8 ∷ 5 ∷ []
unfolding batch_texts search_ip insert_ip new_tries new_cidr add_new contains
marked = refl

not_marked :
    search_ip (batch_texts ℕ_discrete read_text new_tries texts).cidr (11 ∷ 0 ∷ 0 ∷ 1 ∷ []) ≡ []
unfolding batch_texts search_ip insert_ip new_tries new_cidr
not_marked = refl

search_tries-resolved_example :
    (search_tries
        (batch_texts ℕ_discrete read_text new_tries texts)
        (some ((11 ∷ 0 ∷ 0 ∷ 1 ∷ []) ∷ (10 ∷ 0 ∷ 0 ∷ 1 ∷ []) ∷ []))
        (domain_addr host_c 80)
      ≡ 8 ∷ 5 ∷ [])
    × (search_tries
          (batch_texts ℕ_discrete read_text new_tries texts)
          (some ((11 ∷ 0 ∷ 0 ∷ 1 ∷ []) ∷ []))
          (domain_addr host_c 80)
        ≡ [])
search_tries-resolved_example =
    search_tries-resolved (batch_texts ℕ_discrete read_text new_tries texts) host_c 80
      ((11 ∷ 0 ∷ 0 ∷ 1 ∷ []) ∷ []) [] (10 ∷ 0 ∷ 0 ∷ 1 ∷ []) 8 (5 ∷ []) uncovered (not_marked, tt)
      marked
