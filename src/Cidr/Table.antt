-- ===== src/Cidr/Table.antt =====
-- The reference for the CIDR trie: a plain list of prefixes with their marks, scanned in full.
use yuhaiin.Prelude.{◌≡◌, refl, ap, Bool, true, false, not, ◌&&◌, ◌||◌, List, [], ◌∷◌, arith, same}

-- Equality of two bits, of two bit strings, and being an initial part.
abbrev pub eq_bit : Bool → Bool → Bool
eq_bit true b = b
eq_bit false b = not b

unfoldable pub eq_bits : List Bool → List Bool → Bool
eq_bits [] [] = true
eq_bits [] (c ∷ cs) = false
eq_bits (b ∷ bs) [] = false
eq_bits (b ∷ bs) (c ∷ cs) = eq_bit b c && eq_bits bs cs

unfoldable pub covers : List Bool → List Bool → Bool
covers [] cs = true
covers (b ∷ bs) [] = false
covers (b ∷ bs) (c ∷ cs) = eq_bit b c && covers bs cs

pub eq_bits→eq : (bs cs : List Bool) → eq_bits bs cs ≡ true → bs ≡ cs
unfolding eq_bits
eq_bits→eq [] [] h = refl
eq_bits→eq [] (c ∷ cs) h = cc
eq_bits→eq (b ∷ bs) [] h = cc
eq_bits→eq (true ∷ bs) (true ∷ cs) h = ap (◌∷◌ true) (eq_bits→eq bs cs h)
eq_bits→eq (true ∷ bs) (false ∷ cs) h = cc
eq_bits→eq (false ∷ bs) (true ∷ cs) h = cc
eq_bits→eq (false ∷ bs) (false ∷ cs) h = ap (◌∷◌ false) (eq_bits→eq bs cs h)

eq_bits_sym : (bs cs : List Bool) → eq_bits bs cs ≡ eq_bits cs bs
unfolding eq_bits
eq_bits_sym [] [] = refl
eq_bits_sym [] (c ∷ cs) = refl
eq_bits_sym (b ∷ bs) [] = refl
eq_bits_sym (b ∷ bs) (c ∷ cs) = ground (arith, eq_bits_sym bs cs)

-- The reference: prefixes with their marks. `has` asks for an exact place, `scan` for any entry
-- whose prefix covers the address.
abbrev pub Table {ℓ} : Type ℓ → Type ℓ
Table A = List (List Bool × A)

module _ {ℓ} {A : Type ℓ} where
  -- The table without the entries for one prefix.
  unfoldable pub drop_prefix : List Bool → Table A → Table A
  drop_prefix q [] = []
  drop_prefix q ((p, m) ∷ es) = elim (eq_bits q p) [
    | true ↦ drop_prefix q es
    | false ↦ (p, m) ∷ drop_prefix q es
  ]

  -- The entries below a bit, seen from there.
  pub below : Bool → Table A → Table A
  below b [] = []
  below b (([], m) ∷ es) = below b es
  below b ((c ∷ p, m) ∷ es) = elim (eq_bit c b) [ true ↦ (p, m) ∷ below b es | false ↦ below b es ]

module _ {ℓ} {A : Type ℓ} (dec : Discrete A) where
  unfoldable pub has : Table A → List Bool → A → Bool
  has [] qs x = false
  has ((p, m) ∷ es) qs x = (eq_bits p qs && same dec m x) || has es qs x

  unfoldable pub scan : Table A → List Bool → A → Bool
  scan [] qs x = false
  scan ((p, m) ∷ es) qs x = (covers p qs && same dec m x) || scan es qs x

  pub has-below :
      (b : Bool) (es : Table A) (qs : List Bool) (x : A) → has (below b es) qs x ≡ has es (b ∷ qs) x
  unfolding has below eq_bits
  has-below b [] qs x = refl
  has-below b (([], m) ∷ es) qs x = has-below b es qs x
  has-below b ((c ∷ p, m) ∷ es) qs x = ground (arith, has-below b es qs x)

  pub scan-below :
      (b : Bool) (es : Table A) (qs : List Bool) (x : A)
      → scan es (b ∷ qs) x ≡ (has es [] x || scan (below b es) qs x)
  unfolding has scan below eq_bits covers
  scan-below b [] qs x = refl
  scan-below b (([], m) ∷ es) qs x = ground (arith, scan-below b es qs x)
  scan-below b ((c ∷ p, m) ∷ es) qs x = ground (arith, scan-below b es qs x)

  pub scan-nil : (es : Table A) (x : A) → scan es [] x ≡ has es [] x
  unfolding has scan eq_bits covers
  scan-nil [] x = refl
  scan-nil (([], m) ∷ es) x = ground (arith, scan-nil es x)
  scan-nil ((c ∷ p, m) ∷ es) x = scan-nil es x

  pub has-drop_prefix :
      (q : List Bool) (es : Table A) (qs : List Bool) (x : A)
      → has (drop_prefix q es) qs x ≡ (not (eq_bits q qs) && has es qs x)
  unfolding has drop_prefix
  has-drop_prefix q [] qs x = ground arith
  has-drop_prefix q ((p, m) ∷ es) qs x =
      ground (arith, has-drop_prefix q es qs x, eq_bits→eq q p, eq_bits→eq q qs, eq_bits_sym q p)
