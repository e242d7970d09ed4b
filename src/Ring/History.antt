-- ===== src/Ring/History.antt =====
-- A history of calls: what goes in comes out in the same order.
use yuhaiin.Prelude.{
  ℕ, ◌≡◌, refl, sym, ap, ◌∙◌, Bool, true, false, not, Option, none, some, List, [], ◌∷◌, ◌++◌,
  if◌then◌else◌, append_assoc, append-nil,
}
use yuhaiin.Ring.{RingBuffer, new_ring_buffer, push, pop, refuses}
use yuhaiin.Ring.Contents.{IsValid, contents}
use yuhaiin.Ring.Push.{push-contents}
use yuhaiin.Ring.Pop.{Popped, pop-contents, new_ring_buffer-contents}

-- A call with the size limit at that moment.
pub data Call {ℓ} (A : Type ℓ) : Type ℓ where
  push_call : ℕ → A → Call A
  pop_call : Call A

-- The buffer after the calls, the elements that were accepted, and those that were taken off.
pub record Served {ℓ} (A : Type ℓ) : Type ℓ where
  pub buffer : RingBuffer A
  pub accepted : List A
  pub popped : List A

module _ {ℓ} {A : Type ℓ} where
  accept : A → Bool → Option (Served A) → Option (Served A)
  accept t ok none = none
  accept t ok (some s) = some (record s { accepted = if ok then t ∷ s.accepted else s.accepted })

  take_off : Option A → Option (Served A) → Option (Served A)
  take_off o none = none
  take_off none (some s) = some s
  take_off (some x) (some s) = some (record s { popped = x ∷ s.popped })

  moved :
      (refused : Bool) (xs : List A) (t : A) (ys : List A)
      → (if refused then xs else xs ++ (t ∷ [])) ++ ys ≡ xs ++ (if not refused then t ∷ ys else ys)
  moved true xs t ys = refl
  moved false xs t ys = append_assoc xs (t ∷ []) ys

module _ {ℓ} {A : Type ℓ} (zero_value : A) where
  pub serve : List (Call A) → RingBuffer A → Option (Served A)
  unfolding accept take_off
  serve [] r = some (record { buffer = r; accepted = []; popped = [] })
  serve (push_call max_cap t ∷ cs) r = elim (push zero_value max_cap r t) [
    | none ↦ none
    | some p ↦ accept t p.1 (serve cs p.0)
  ]
  serve (pop_call ∷ cs) r = elim (pop zero_value r) [
    | none ↦ none
    | some p ↦ take_off p.1 (serve cs p.0)
  ]

  -- What was served from a buffer, in order.
  record IsFifo (r : RingBuffer A) (s : Served A) : Type ℓ where
    valid : IsValid s.buffer
    order : s.popped ++ contents s.buffer ≡ contents r ++ s.accepted

  taken :
      (r r' : RingBuffer A) (o : Option A) (s : Served A)
      → Popped (contents r) o (contents r')
      → IsFifo r' s
      → (s' : Served A) × (take_off o (some s) ≡ some s') × IsFifo r s'
  unfolding take_off
  taken r r' none s (was, is) f = (
    s,
    refl,
    record { valid = f.valid; order = f.order ∙ ap (λ xs. xs ++ s.accepted) (is ∙ sym was) },
  )
  taken r r' (some x) s c f = (
    record s { popped = x ∷ s.popped },
    refl,
    record {
      valid = f.valid;
      order = ap (λ xs. x ∷ xs) f.order ∙ ap (λ xs. xs ++ s.accepted) (sym c);
    },
  )

  serve-push :
      (max_cap : ℕ) (t : A) (cs : List (Call A)) (r r' : RingBuffer A) (ok : Bool) (s : Served A)
      → push zero_value max_cap r t ≡ some (r', ok)
      → serve cs r' ≡ some s
      → serve (push_call max_cap t ∷ cs) r
        ≡ some (record s { accepted = if ok then t ∷ s.accepted else s.accepted })
  unfolding accept serve
  serve-push max_cap t cs r r' ok s e e' = rw (e, e', serve) refl

  serve-pop :
      (cs : List (Call A)) (r r' : RingBuffer A) (o : Option A) (s : Served A)
      (d : Option (Served A))
      → pop zero_value r ≡ some (r', o)
      → serve cs r' ≡ some s
      → take_off o (some s) ≡ d
      → serve (pop_call ∷ cs) r ≡ d
  unfolding serve
  serve-pop cs r r' o s d e e' f = rw (e, e', serve) f

  serve-IsFifo :
      (cs : List (Call A)) (r : RingBuffer A)
      → IsValid r
      → (s : Served A) × (serve cs r ≡ some s) × IsFifo r s
  unfolding serve
  serve-IsFifo [] r v = (
    record { buffer = r; accepted = []; popped = [] },
    refl,
    record { valid = v; order = sym (append-nil (contents r)) },
  )
  serve-IsFifo (push_call max_cap t ∷ cs) r v =
      let (r', eq, v', c) = push-contents zero_value max_cap r t v in
      let (s, eq', f) = serve-IsFifo cs r' v' in
      (
        record s { accepted = if not (refuses max_cap r) then t ∷ s.accepted else s.accepted },
        serve-push max_cap t cs r r' (not (refuses max_cap r)) s eq eq',
        record {
          valid = f.valid;
          order =
              f.order
              ∙ ap (λ xs. xs ++ s.accepted) c
              ∙ moved (refuses max_cap r) (contents r) t s.accepted;
        },
      )
  serve-IsFifo (pop_call ∷ cs) r v =
      let (r', o, eq, v', c) = pop-contents zero_value r v in
      let (s, eq', f) = serve-IsFifo cs r' v' in
      let (s', eq'', f') = taken r r' o s c f in
      (s', serve-pop cs r r' o s (some s') eq eq' eq'', f')

  -- Any sequence of pushes and pops on a new buffer goes through without a panic, and what was taken
  -- off, followed by what the buffer still holds, is what was accepted, in the order of the pushes.
  pub serve-fifo :
      (n : ℕ) (cs : List (Call A))
      → (s : Served A) × (serve cs (new_ring_buffer zero_value n) ≡ some s)
        × (s.popped ++ contents s.buffer ≡ s.accepted)
  serve-fifo n cs =
      let (v, nothing) = new_ring_buffer-contents zero_value n in
      let (s, eq, f) = serve-IsFifo cs (new_ring_buffer zero_value n) v in
      (s, eq, f.order ∙ ap (λ xs. xs ++ s.accepted) nothing)
