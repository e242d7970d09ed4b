-- ===== src/Route/Order/Before.antt =====
-- Where `InsertBefore` puts the rule.
use yuhaiin.Prelude.{
  ℕ, ◌+◌, ◌<◌, ◌≡◌, refl, ap, ◌∙◌, ◌⊎◌, inl, inr, some, List, [], ◌∷◌, ◌++◌, arith, length,
}
use yuhaiin.Route.Order.{before_from, insert_before}
use yuhaiin.Route.Order.Steps.{Past, other, onward, same_index, apart, get_elem-past, get_elem-far}

module _ {ℓ} {A : Type ℓ} where
  before_from-skip :
      (e : A) (from to i : ℕ) (xs ys : List A)
      → Past from i (length xs)
      → Past to i (length xs)
      → before_from e from to i (xs ++ ys) ≡ xs ++ before_from e from to (i + length xs) ys
  unfolding before_from
  before_from-skip e from to i [] ys p q = ap (λ n. before_from e from to n ys) (omega arith)
  before_from-skip e from to i (x ∷ xs) ys p q =
      rw (other from i (length xs) p, other to i (length xs) q)
        (ap (λ zs. x ∷ zs)
          (before_from-skip e from to (i + 1) xs ys (onward from i (length xs) p)
              (onward to i (length xs) q)
            ∙ ap (λ n. xs ++ before_from e from to n ys) (omega arith)))

  before_from-end :
      (e : A) (from to i : ℕ) (vs : List A) → from < i → to < i → before_from e from to i vs ≡ vs
  unfolding before_from
  before_from-end e from to i [] p q = refl
  before_from-end e from to i (v ∷ vs) p q =
      rw (apart i from (inr p), apart i to (inr q))
        (ap (λ zs. v ∷ zs) (before_from-end e from to (i + 1) vs (omega arith) (omega arith)))

  before-at_from :
      (e : A) (from to i : ℕ) (v : A) (vs : List A)
      → i ≡ from
      → before_from e from to i (v ∷ vs) ≡ before_from e from to (i + 1) vs
  unfolding before_from
  before-at_from e from to i v vs p = rw (same_index i from p) refl

  -- From the target on, with the element met before or still to come.
  before-at_to :
      (e : A) (from to i : ℕ) (v : A) (vs : List A)
      → i ≡ to
      → (i < from) ⊎ (from < i)
      → before_from e from to i (v ∷ vs) ≡ e ∷ v ∷ before_from e from to (i + 1) vs
  unfolding before_from
  before-at_to e from to i v vs p q = rw (same_index i to p, apart i from q) refl

  before_forward :
      (xs : List A) (e : A) (ys : List A) (t : A) (zs : List A)
      → insert_before (xs ++ (e ∷ (ys ++ (t ∷ zs)))) (length xs) (length xs + 1 + length ys)
        ≡ some (xs ++ (ys ++ (e ∷ t ∷ zs)))
  unfolding insert_before
  before_forward xs e ys t zs =
      let from = length xs in
      let to = length xs + 1 + length ys in
      rw (get_elem-past xs e (ys ++ (t ∷ zs)), insert_before)
        (ap some (
          before_from-skip e from to 0 xs (e ∷ (ys ++ (t ∷ zs))) (inr (omega arith))
            (inr (omega arith))
          ∙ ap (λ r. xs ++ r)
              (before-at_from e from to (0 + length xs) e (ys ++ (t ∷ zs)) (omega arith)
                ∙ before_from-skip e from to (0 + length xs + 1) ys (t ∷ zs) (inl (omega arith))
                    (inr (omega arith))
                ∙ ap (λ r. ys ++ r)
                    (before-at_to e from to (0 + length xs + 1 + length ys) t zs (omega arith)
                        (inr (omega arith))
                      ∙ ap (λ r. e ∷ t ∷ r)
                          (before_from-end e from to (0 + length xs + 1 + length ys + 1) zs
                            (omega arith) (omega arith))))))

  before_backward :
      (xs : List A) (t : A) (ys : List A) (e : A) (zs : List A)
      → insert_before (xs ++ (t ∷ (ys ++ (e ∷ zs)))) (length xs + 1 + length ys) (length xs)
        ≡ some (xs ++ (e ∷ t ∷ (ys ++ zs)))
  unfolding insert_before
  before_backward xs t ys e zs =
      let to = length xs in
      let from = length xs + 1 + length ys in
      rw (get_elem-far xs t ys e zs, insert_before)
        (ap some (
          before_from-skip e from to 0 xs (t ∷ (ys ++ (e ∷ zs))) (inr (omega arith))
            (inr (omega arith))
          ∙ ap (λ r. xs ++ r)
              (before-at_to e from to (0 + length xs) t (ys ++ (e ∷ zs)) (omega arith)
                  (inl (omega arith))
                ∙ ap (λ r. e ∷ t ∷ r)
                    (before_from-skip e from to (0 + length xs + 1) ys (e ∷ zs) (inr (omega arith))
                        (inl (omega arith))
                      ∙ ap (λ r. ys ++ r)
                          (before-at_from e from to (0 + length xs + 1 + length ys) e zs
                              (omega arith)
                            ∙ before_from-end e from to (0 + length xs + 1 + length ys + 1) zs
                                (omega arith) (omega arith))))))

  before_self :
      (xs : List A) (e : A) (zs : List A)
      → insert_before (xs ++ (e ∷ zs)) (length xs) (length xs) ≡ some (xs ++ zs)
  unfolding insert_before
  before_self xs e zs =
      let n = length xs in
      rw (get_elem-past xs e zs, insert_before)
        (ap some (
          before_from-skip e n n 0 xs (e ∷ zs) (inr (omega arith)) (inr (omega arith))
          ∙ ap (λ r. xs ++ r)
              (before-at_from e n n (0 + length xs) e zs (omega arith)
                ∙ before_from-end e n n (0 + length xs + 1) zs (omega arith) (omega arith))))

  -- Moving a rule before another one: whether it comes from before its target or from after it, all the
  -- other rules keep their order and the moved rule stands directly before the target. Moved before
  -- itself, it is lost.
  pub insert_before_moves :
      (xs : List A) (v : A) (ys : List A) (w : A) (zs : List A)
      → (insert_before (xs ++ (v ∷ (ys ++ (w ∷ zs)))) (length xs) (length xs + 1 + length ys)
          ≡ some (xs ++ (ys ++ (v ∷ w ∷ zs))))
        × (insert_before (xs ++ (v ∷ (ys ++ (w ∷ zs)))) (length xs + 1 + length ys) (length xs)
            ≡ some (xs ++ (w ∷ v ∷ (ys ++ zs))))
        × (insert_before (xs ++ (v ∷ zs)) (length xs) (length xs) ≡ some (xs ++ zs))
  insert_before_moves xs v ys w zs =
      (before_forward xs v ys w zs, before_backward xs v ys w zs, before_self xs v zs)
