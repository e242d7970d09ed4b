-- ===== src/Tries/Resolved.antt =====
-- A search of a name that no rule covers, by the addresses that the name resolves to.
use yuhaiin.Prelude.{ℕ, ◌≡◌, refl, List, [], ◌∷◌, ◌++◌, some}
use yuhaiin.Bytes.{Bytes}
use yuhaiin.Socks.{domain_addr}
use yuhaiin.Cidr.{Cidr, search_ip}
use yuhaiin.Domain.{search_string}
use yuhaiin.Tries.{Tries, search_fqdn, first_marks, search_tries}

module _ {ℓ} {A : Type ℓ} where
  -- None of the addresses has a mark.
  abbrev pub NoMarks : Cidr A → List (List ℕ) → Type ℓ
  NoMarks c [] = Unit
  NoMarks c (ip ∷ ips) = (search_ip c ip ≡ []) × NoMarks c ips

  first_marks-none : (c : Cidr A) (ips : List (List ℕ)) → NoMarks c ips → first_marks c ips ≡ []
  unfolding first_marks
  first_marks-none c [] no_marks = refl
  first_marks-none c (ip ∷ ips) (h, no_marks) =
      rw (first_marks, h) (first_marks-none c ips no_marks)

  first_marks-found :
      (c : Cidr A) (before after : List (List ℕ)) (ip : List ℕ) (m : A) (ms : List A)
      → NoMarks c before
      → search_ip c ip ≡ m ∷ ms
      → first_marks c (before ++ (ip ∷ after)) ≡ m ∷ ms
  unfolding first_marks
  first_marks-found c [] after ip m ms no_marks h = rw (first_marks, h) refl
  first_marks-found c (b ∷ before) after ip m ms (none_there, no_marks) h =
      rw (first_marks, none_there) (first_marks-found c before after ip m ms no_marks h)

  -- A name that no rule covers gets the marks of the first of its addresses that has any, and none if
  -- none of its addresses has.
  pub search_tries-resolved :
      (t : Tries A) (host : Bytes) (port : ℕ) (before after : List (List ℕ)) (ip : List ℕ) (m : A)
      (ms : List A)
      → search_string t.domain host ≡ []
      → NoMarks t.cidr before
      → search_ip t.cidr ip ≡ m ∷ ms
      → (search_tries t (some (before ++ (ip ∷ after))) (domain_addr host port) ≡ m ∷ ms)
        × (search_tries t (some before) (domain_addr host port) ≡ [])
  unfolding search_tries search_fqdn
  search_tries-resolved t host port before after ip m ms uncovered no_marks h = (
    rw (search_tries, uncovered) (first_marks-found t.cidr before after ip m ms no_marks h),
    rw (search_tries, uncovered) (first_marks-none t.cidr before no_marks),
  )
