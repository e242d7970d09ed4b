-- ===== src/Domain/Rules.antt =====
-- The reference for the domain trie: a plain list of rules, each a path of labels from the top, with
-- their marks. A last label `*` stands for any rest, the empty one included.
use yuhaiin.Prelude.{
  ◌≡◌, refl, Bool, true, false, ◌&&◌, ◌||◌, List, [], ◌∷◌, arith, same, if◌then◌else◌,
}
use yuhaiin.Bytes.{Bytes}
use yuhaiin.Domain.{asterisk, same_label}
use yuhaiin.Domain.Maps.{eq_path}

abbrev pub Table {ℓ} : Type ℓ → Type ℓ
Table A = List (List Bytes × A)

-- Whether a path leads to the rule's place or above it.
unfoldable pub begins : List Bytes → List Bytes → Bool
begins [] p = true
begins (q ∷ qs) [] = false
begins (q ∷ qs) (l ∷ ls) = same_label l q && begins qs ls

-- Whether a rule covers a name.
unfoldable pub covers : List Bytes → List Bytes → Bool
unfolding eq_path
covers [] [] = true
covers [] (l ∷ ls) = false
covers (k ∷ ks) [] = eq_path (k ∷ ks) (asterisk ∷ [])
covers (k ∷ ks) (l ∷ ls) = eq_path (k ∷ ks) (asterisk ∷ []) || (same_label k l && covers ks ls)

module _ {ℓ} {A : Type ℓ} where
  unfoldable pub starts : Table A → List Bytes → Bool
  starts [] qs = false
  starts ((p, m) ∷ es) qs = begins qs p || starts es qs

  -- The rules below a label, seen from there.
  unfoldable pub below : Bytes → Table A → Table A
  below b [] = []
  below b (([], m) ∷ es) = below b es
  below b ((c ∷ p, m) ∷ es) = elim (same_label c b) [
    | true ↦ (p, m) ∷ below b es
    | false ↦ below b es
  ]

  pub starts-below :
      (b : Bytes) (es : Table A) (qs : List Bytes) → starts (below b es) qs ≡ starts es (b ∷ qs)
  unfolding starts below begins
  starts-below b [] qs = refl
  starts-below b (([], m) ∷ es) qs = starts-below b es qs
  starts-below b ((c ∷ p, m) ∷ es) qs = ground (arith, starts-below b es qs)

module _ {ℓ} {A : Type ℓ} (dec : Discrete A) where
  unfoldable pub has : Table A → List Bytes → A → Bool
  has [] qs x = false
  has ((p, m) ∷ es) qs x = (eq_path p qs && same dec m x) || has es qs x

  unfoldable pub scan : Table A → List Bytes → A → Bool
  scan [] qs x = false
  scan ((p, m) ∷ es) qs x = (covers p qs && same dec m x) || scan es qs x

  -- Under the asterisk: the first label that some rule has next.
  unfoldable pub wild : Table A → List Bytes → A → Bool
  wild es [] x = false
  wild es (l ∷ ls) x =
      let rest = wild es ls x in if starts es (l ∷ []) then scan (below l es) ls x else rest

  -- The rules with the name's last label if there are any, otherwise those with an asterisk there.
  unfoldable pub lookup : Table A → List Bytes → A → Bool
  unfolding scan wild below
  lookup es [] x = false
  lookup es (l ∷ ls) x =
      if starts es (l ∷ []) then scan (below l es) ls x else wild (below asterisk es) (l ∷ ls) x

  pub has-below :
      (b : Bytes) (es : Table A) (qs : List Bytes) (x : A)
      → has (below b es) qs x ≡ has es (b ∷ qs) x
  unfolding has below eq_path
  has-below b [] qs x = refl
  has-below b (([], m) ∷ es) qs x = has-below b es qs x
  has-below b ((c ∷ p, m) ∷ es) qs x = ground (arith, has-below b es qs x)

  pub scan_cons :
      (b : Bytes) (es : Table A) (qs : List Bytes) (x : A)
      → scan es (b ∷ qs) x ≡ (has es (asterisk ∷ []) x || scan (below b es) qs x)
  unfolding has scan below covers
  scan_cons b [] qs x = refl
  scan_cons b (([], m) ∷ es) qs x = unfold eq_path in ground (arith, scan_cons b es qs x)
  scan_cons b ((c ∷ p, m) ∷ es) qs x = ground (arith, scan_cons b es qs x)

  pub scan-nil : (es : Table A) (x : A) → scan es [] x ≡ (has es [] x || has es (asterisk ∷ []) x)
  unfolding has scan covers
  scan-nil [] x = refl
  scan-nil (([], m) ∷ es) x = unfold eq_path in ground (arith, scan-nil es x)
  scan-nil ((c ∷ p, m) ∷ es) x = unfold eq_path in ground (arith, scan-nil es x)
