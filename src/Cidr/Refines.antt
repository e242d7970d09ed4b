-- ===== src/Cidr/Refines.antt =====
-- The CIDR trie answers as a scan of the plain table does, whatever was inserted and removed.
use yuhaiin.Prelude.{
  ℕ, zero, suc, ◌≡◌, ap, ◌∙◌, Bool, true, false, not, ◌&&◌, ◌||◌, List, [], ◌∷◌, contains, same,
  take, or_comm,
}
use yuhaiin.Cidr.{
  Trie, new_trie, nil, node, child, fresh, search_bits, edit_bits, insert_bits, bits, insert,
  remove_prefix,
}
use yuhaiin.Cidr.Table.{
  eq_bits, Table, has, scan, drop_prefix, below, has-below, scan-below, scan-nil, has-drop_prefix,
}
use yuhaiin.Cidr.Marks.{
  marks_at, marks_at-insert, marks_at-clear, marks_at-child, search_step, search_bits-nil,
  marks_at-fresh, marks_at-nil,
}

-- The root of a matcher's trie is never the nil pointer.
abbrev pub IsNode {ℓ} : {A : Type ℓ} → Trie A → Type 0
IsNode nil = ⊥
IsNode (node ms l r) = Unit {0}

module _ {ℓ} {A : Type ℓ} (dec : Discrete A) where
  insert-IsNode :
      (ps : List Bool) (n : ℕ) (m : A) (ms : List A) (l r : Trie A)
      → IsNode (insert_bits dec ps n m (node ms l r))
  unfolding insert_bits
  insert-IsNode [] n m ms l r = tt
  insert-IsNode (b ∷ ps) zero m ms l r = tt
  insert-IsNode (true ∷ ps) (suc n) m ms l r = tt
  insert-IsNode (false ∷ ps) (suc n) m ms l r = tt

  -- Every place of the trie holds the marks that the table has for it.
  abbrev pub Represents : Trie A → Table A → Type ℓ
  Represents t es = (qs : List Bool) (x : A) → contains dec (marks_at qs t) x ≡ has dec es qs x

  -- Then a search finds what a scan of the table finds.
  pub search-scan :
      (qs : List Bool) (t : Trie A) (es : Table A) (x : A)
      → Represents t es
      → contains dec (search_bits qs t) x ≡ scan dec es qs x
  search-scan [] t es x r = rw (search_bits-nil dec t, scan-nil dec es x) (r [] x)
  search-scan (b ∷ qs) t es x r =
      rw (search_step dec b qs t x, scan-below dec b es qs x, r [] x)
        (ap (λ z. has dec es [] x || z)
          (search-scan qs (child b t) (below b es) x
            (λ ps y. rw (← marks_at-child dec b ps t, has-below dec b es ps y) (r (b ∷ ps) y))))

  pub insert-Represents :
      (t : Trie A) (es : Table A) (ip : List ℕ) (n : ℕ) (m : A)
      → IsNode t
      → Represents t es
      → IsNode (insert dec t ip n m) × Represents (insert dec t ip n m) ((take n (bits ip), m) ∷ es)
  unfolding insert has
  insert-Represents nil es ip n m h r = absurd h
  insert-Represents (node ms l r) es ip n m h rep = (
    insert-IsNode (bits ip) n m ms l r,
    λ qs x.
        marks_at-insert dec (bits ip) n m ms l r qs x
        ∙ rw (rep qs x) (or_comm (has dec es qs x) (eq_bits (take n (bits ip)) qs && same dec m x)),
  )

  pub remove-Represents :
      (t : Trie A) (es : Table A) (ip : List ℕ) (n : ℕ)
      → Represents t es
      → Represents (remove_prefix t ip n) (drop_prefix (take n (bits ip)) es)
  unfolding remove_prefix
  remove-Represents t es ip n r qs x =
      rw (marks_at-clear dec (bits ip) n t qs x, has-drop_prefix dec (take n (bits ip)) es qs x)
        (ap (λ z. not (eq_bits (take n (bits ip)) qs) && z) (r qs x))

  edit-IsNode :
      (f : List A → List A) (ps : List Bool) (n : ℕ) (t : Trie A)
      → IsNode t
      → IsNode (edit_bits f ps n t)
  unfolding edit_bits
  edit-IsNode f ps n nil h = absurd h
  edit-IsNode f [] n (node ms l r) h = tt
  edit-IsNode f (b ∷ ps) zero (node ms l r) h = tt
  edit-IsNode f (true ∷ ps) (suc n) (node ms l r) h = tt
  edit-IsNode f (false ∷ ps) (suc n) (node ms l r) h = tt

  pub remove-IsNode : (t : Trie A) (ip : List ℕ) (n : ℕ) → IsNode t → IsNode (remove_prefix t ip n)
  unfolding remove_prefix
  remove-IsNode t ip n h = edit-IsNode (λ _. []) (bits ip) n t h

  -- A new trie stands for the empty table.
  pub new_trie-Represents : IsNode (new_trie {A = A}) × Represents new_trie []
  unfolding new_trie has contains
  new_trie-Represents =
      (tt, λ qs x. unfold fresh in rw (marks_at-fresh dec qs nil, marks_at-nil dec qs))
