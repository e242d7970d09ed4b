-- ===== src/Route/Order/After.antt =====
-- Where `InsertAfter` puts the rule.
use yuhaiin.Prelude.{
  ℕ, ◌+◌, ◌<◌, ◌≡◌, refl, ap, ◌∙◌, ◌⊎◌, inl, inr, some, List, [], ◌∷◌, ◌++◌, arith, length,
}
use yuhaiin.Route.Order.{after_from, insert_after}
use yuhaiin.Route.Order.Steps.{Past, other, onward, same_index, apart, get_elem-past, get_elem-far}

module _ {ℓ} {A : Type ℓ} where
  after_from-skip :
      (e : A) (from to i : ℕ) (xs ys : List A)
      → Past from i (length xs)
      → Past to i (length xs)
      → after_from e from to i (xs ++ ys) ≡ xs ++ after_from e from to (i + length xs) ys
  unfolding after_from
  after_from-skip e from to i [] ys p q = ap (λ n. after_from e from to n ys) (omega arith)
  after_from-skip e from to i (x ∷ xs) ys p q =
      rw (other from i (length xs) p, other to i (length xs) q)
        (ap (λ zs. x ∷ zs)
          (after_from-skip e from to (i + 1) xs ys (onward from i (length xs) p)
              (onward to i (length xs) q)
            ∙ ap (λ n. xs ++ after_from e from to n ys) (omega arith)))

  after_from-end :
      (e : A) (from to i : ℕ) (vs : List A) → from < i → to < i → after_from e from to i vs ≡ vs
  unfolding after_from
  after_from-end e from to i [] p q = refl
  after_from-end e from to i (v ∷ vs) p q =
      rw (apart i from (inr p), apart i to (inr q))
        (ap (λ zs. v ∷ zs) (after_from-end e from to (i + 1) vs (omega arith) (omega arith)))

  after-at_from :
      (e : A) (from to i : ℕ) (v : A) (vs : List A)
      → i ≡ from
      → after_from e from to i (v ∷ vs) ≡ after_from e from to (i + 1) vs
  unfolding after_from
  after-at_from e from to i v vs p = rw (same_index i from p) refl

  -- From the target on, with the element met before or still to come.
  after-at_to :
      (e : A) (from to i : ℕ) (v : A) (vs : List A)
      → i ≡ to
      → (i < from) ⊎ (from < i)
      → after_from e from to i (v ∷ vs) ≡ v ∷ e ∷ after_from e from to (i + 1) vs
  unfolding after_from
  after-at_to e from to i v vs p q = rw (same_index i to p, apart i from q) refl

  after_forward :
      (xs : List A) (e : A) (ys : List A) (t : A) (zs : List A)
      → insert_after (xs ++ (e ∷ (ys ++ (t ∷ zs)))) (length xs) (length xs + 1 + length ys)
        ≡ some (xs ++ (ys ++ (t ∷ e ∷ zs)))
  unfolding insert_after
  after_forward xs e ys t zs =
      let from = length xs in
      let to = length xs + 1 + length ys in
      rw (get_elem-past xs e (ys ++ (t ∷ zs)), insert_after)
        (ap some (
          after_from-skip e from to 0 xs (e ∷ (ys ++ (t ∷ zs))) (inr (omega arith))
            (inr (omega arith))
          ∙ ap (λ r. xs ++ r)
              (after-at_from e from to (0 + length xs) e (ys ++ (t ∷ zs)) (omega arith)
                ∙ after_from-skip e from to (0 + length xs + 1) ys (t ∷ zs) (inl (omega arith))
                    (inr (omega arith))
                ∙ ap (λ r. ys ++ r)
                    (after-at_to e from to (0 + length xs + 1 + length ys) t zs (omega arith)
                        (inr (omega arith))
                      ∙ ap (λ r. t ∷ e ∷ r)
                          (after_from-end e from to (0 + length xs + 1 + length ys + 1) zs
                            (omega arith) (omega arith))))))

  after_backward :
      (xs : List A) (t : A) (ys : List A) (e : A) (zs : List A)
      → insert_after (xs ++ (t ∷ (ys ++ (e ∷ zs)))) (length xs + 1 + length ys) (length xs)
        ≡ some (xs ++ (t ∷ e ∷ (ys ++ zs)))
  unfolding insert_after
  after_backward xs t ys e zs =
      let to = length xs in
      let from = length xs + 1 + length ys in
      rw (get_elem-far xs t ys e zs, insert_after)
        (ap some (
          after_from-skip e from to 0 xs (t ∷ (ys ++ (e ∷ zs))) (inr (omega arith))
            (inr (omega arith))
          ∙ ap (λ r. xs ++ r)
              (after-at_to e from to (0 + length xs) t (ys ++ (e ∷ zs)) (omega arith)
                  (inl (omega arith))
                ∙ ap (λ r. t ∷ e ∷ r)
                    (after_from-skip e from to (0 + length xs + 1) ys (e ∷ zs) (inr (omega arith))
                        (inl (omega arith))
                      ∙ ap (λ r. ys ++ r)
                          (after-at_from e from to (0 + length xs + 1 + length ys) e zs
                              (omega arith)
                            ∙ after_from-end e from to (0 + length xs + 1 + length ys + 1) zs
                                (omega arith) (omega arith))))))

  after_self :
      (xs : List A) (e : A) (zs : List A)
      → insert_after (xs ++ (e ∷ zs)) (length xs) (length xs) ≡ some (xs ++ zs)
  unfolding insert_after
  after_self xs e zs =
      let n = length xs in
      rw (get_elem-past xs e zs, insert_after)
        (ap some (
          after_from-skip e n n 0 xs (e ∷ zs) (inr (omega arith)) (inr (omega arith))
          ∙ ap (λ r. xs ++ r)
              (after-at_from e n n (0 + length xs) e zs (omega arith)
                ∙ after_from-end e n n (0 + length xs + 1) zs (omega arith) (omega arith))))

  -- Moving a rule after another one: whether it comes from before its target or from after it, all the
  -- other rules keep their order and the moved rule stands directly after the target. Moved after
  -- itself, it is lost.
  pub insert_after_moves :
      (xs : List A) (v : A) (ys : List A) (w : A) (zs : List A)
      → (insert_after (xs ++ (v ∷ (ys ++ (w ∷ zs)))) (length xs) (length xs + 1 + length ys)
          ≡ some (xs ++ (ys ++ (w ∷ v ∷ zs))))
        × (insert_after (xs ++ (v ∷ (ys ++ (w ∷ zs)))) (length xs + 1 + length ys) (length xs)
            ≡ some (xs ++ (v ∷ w ∷ (ys ++ zs))))
        × (insert_after (xs ++ (v ∷ zs)) (length xs) (length xs) ≡ some (xs ++ zs))
  insert_after_moves xs v ys w zs =
      (after_forward xs v ys w zs, after_backward xs v ys w zs, after_self xs v zs)
