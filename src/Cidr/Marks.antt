-- ===== src/Cidr/Marks.antt =====
-- Where the marks of a trie stand: what inserting and clearing change, and what a search gathers.
use yuhaiin.Prelude.{
  ℕ, zero, suc, ◌≡◌, refl, Bool, true, false, not, ◌&&◌, ◌||◌, List, [], ◌∷◌, arith, contains, same,
  take, contains-append, contains-add_new, add_new,
}
use yuhaiin.Cidr.{
  Trie, new_trie, nil, node, marks, child, fresh, search_bits, edit_bits, insert_bits,
}
use yuhaiin.Cidr.Table.{eq_bits}

module _ {ℓ} {A : Type ℓ} where
  -- The marks at the place that a bit string leads to.
  pub marks_at : List Bool → Trie A → List A
  unfolding marks child
  marks_at bs nil = []
  marks_at [] (node ms l r) = ms
  marks_at (b ∷ bs) (node ms l r) = marks_at bs (child b (node ms l r))

module _ {ℓ} {A : Type ℓ} (dec : Discrete A) where
  pub marks_at-fresh : (qs : List Bool) (t : Trie A) → marks_at qs (fresh t) ≡ marks_at qs t
  unfolding marks_at fresh
  marks_at-fresh [] nil = refl
  marks_at-fresh (true ∷ qs) nil = refl
  marks_at-fresh (false ∷ qs) nil = refl
  marks_at-fresh qs (node ms l r) = refl

  add_here :
      (m : A) (ms : List A) (l r : Trie A) (qs : List Bool) (x : A)
      → contains dec (marks_at qs (node (add_new dec m ms) l r)) x
        ≡ (contains dec (marks_at qs (node ms l r)) x || (eq_bits [] qs && same dec m x))
  unfolding marks_at eq_bits
  add_here m ms l r [] x = contains-add_new dec m ms x
  add_here m ms l r (true ∷ qs) x = ground arith
  add_here m ms l r (false ∷ qs) x = ground arith

  via_fresh :
      (ins : Trie A → Trie A) (t : Trie A) (qs : List Bool) (x : A) (b : Bool)
      → ((ms : List A) (l r : Trie A)
          → contains dec (marks_at qs (ins (node ms l r))) x
            ≡ (contains dec (marks_at qs (node ms l r)) x || b))
      → contains dec (marks_at qs (ins (fresh t))) x ≡ (contains dec (marks_at qs t) x || b)
  via_fresh ins nil qs x b h = rw (← marks_at-fresh qs nil) (unfold fresh new_trie in h [] nil nil)
  via_fresh ins (node ms l r) qs x b h = unfold fresh in h ms l r

  -- Inserting changes the marks at the prefix's own place, and nowhere else.
  pub marks_at-insert :
      (ps : List Bool) (n : ℕ) (m : A) (ms : List A) (l r : Trie A) (qs : List Bool) (x : A)
      → contains dec (marks_at qs (insert_bits dec ps n m (node ms l r))) x
        ≡ (contains dec (marks_at qs (node ms l r)) x || (eq_bits (take n ps) qs && same dec m x))
  unfolding insert_bits marks_at eq_bits
  marks_at-insert [] zero m ms l r qs x = add_here m ms l r qs x
  marks_at-insert [] (suc n) m ms l r qs x = add_here m ms l r qs x
  marks_at-insert (b ∷ bs) zero m ms l r qs x = add_here m ms l r qs x
  marks_at-insert (true ∷ bs) (suc n) m ms l r [] x = ground arith
  marks_at-insert (false ∷ bs) (suc n) m ms l r [] x = ground arith
  marks_at-insert (true ∷ bs) (suc n) m ms l r (false ∷ qs) x = ground arith
  marks_at-insert (false ∷ bs) (suc n) m ms l r (true ∷ qs) x = ground arith
  marks_at-insert (true ∷ bs) (suc n) m ms l r (true ∷ qs) x =
      via_fresh (insert_bits dec bs n m) r qs x _
        (λ ms' l' r'. marks_at-insert bs n m ms' l' r' qs x)
  marks_at-insert (false ∷ bs) (suc n) m ms l r (false ∷ qs) x =
      via_fresh (insert_bits dec bs n m) l qs x _
        (λ ms' l' r'. marks_at-insert bs n m ms' l' r' qs x)

  clear_here :
      (ms : List A) (l r : Trie A) (qs : List Bool) (x : A)
      → contains dec (marks_at qs (node [] l r)) x
        ≡ (not (eq_bits [] qs) && contains dec (marks_at qs (node ms l r)) x)
  unfolding marks_at eq_bits contains
  clear_here ms l r [] x = refl
  clear_here ms l r (true ∷ qs) x = refl
  clear_here ms l r (false ∷ qs) x = refl

  -- Clearing a place empties its marks and leaves those of every other place.
  pub marks_at-clear :
      (ps : List Bool) (n : ℕ) (t : Trie A) (qs : List Bool) (x : A)
      → contains dec (marks_at qs (edit_bits (λ _. []) ps n t)) x
        ≡ (not (eq_bits (take n ps) qs) && contains dec (marks_at qs t) x)
  unfolding edit_bits marks_at eq_bits contains
  marks_at-clear [] zero nil qs x = ground arith
  marks_at-clear [] (suc n) nil qs x = ground arith
  marks_at-clear (b ∷ bs) zero nil qs x = ground arith
  marks_at-clear (b ∷ bs) (suc n) nil qs x = ground arith
  marks_at-clear [] zero (node ms l r) qs x = clear_here ms l r qs x
  marks_at-clear [] (suc n) (node ms l r) qs x = clear_here ms l r qs x
  marks_at-clear (b ∷ bs) zero (node ms l r) qs x = clear_here ms l r qs x
  marks_at-clear (true ∷ bs) (suc n) (node ms l r) [] x = refl
  marks_at-clear (false ∷ bs) (suc n) (node ms l r) [] x = refl
  marks_at-clear (true ∷ bs) (suc n) (node ms l r) (false ∷ qs) x = refl
  marks_at-clear (false ∷ bs) (suc n) (node ms l r) (true ∷ qs) x = refl
  marks_at-clear (true ∷ bs) (suc n) (node ms l r) (true ∷ qs) x = marks_at-clear bs n r qs x
  marks_at-clear (false ∷ bs) (suc n) (node ms l r) (false ∷ qs) x = marks_at-clear bs n l qs x

  pub marks_at-child :
      (b : Bool) (qs : List Bool) (t : Trie A) → marks_at (b ∷ qs) t ≡ marks_at qs (child b t)
  unfolding marks_at
  marks_at-child b qs nil = refl
  marks_at-child b qs (node ms l r) = refl

  -- A search gathers the marks on its way down.
  pub search_step :
      (b : Bool) (qs : List Bool) (t : Trie A) (x : A)
      → contains dec (search_bits (b ∷ qs) t) x
        ≡ (contains dec (marks_at [] t) x || contains dec (search_bits qs (child b t)) x)
  unfolding search_bits marks_at
  search_step b qs nil x = unfold contains in refl
  search_step b qs (node ms l r) x = contains-append dec ms _ x

  pub search_bits-nil : (t : Trie A) → search_bits [] t ≡ marks_at [] t
  unfolding search_bits marks_at
  search_bits-nil nil = refl
  search_bits-nil (node ms l r) = refl

  pub marks_at-nil : (qs : List Bool) → marks_at {A = A} qs nil ≡ []
  unfolding marks_at
  marks_at-nil [] = refl
  marks_at-nil (b ∷ qs) = refl
