-- ===== src/Nat/Unmapped.antt =====
-- A first write that does not end well leaves a resolved destination without a reverse mapping.
use yuhaiin.Prelude.{
  ℕ, ◌≡◌, ◌≢◌, refl, ap, ◌∙◌, Bool, true, false, Option, none, some, List, [], ◌∷◌, map, lookup,
  ℕ_discrete, arith,
}
use yuhaiin.Socks.{Address}
use yuhaiin.Nat.{
  Outcome, wrote, conn_closed, failed, Call, Flow, Written, refused, write_to, resolve_and_write,
  write_or_resolve, write_dispatched, note_dispatch, dispatch_and_write, write_unresolved,
  write_cached, write, run_writes, mapped_or, reply_from,
}
use yuhaiin.Nat.Sticky.{write_known, write_to-none}

module _ (key : Address → ℕ) where
  write_to-has :
      (real : Address) (origin : Option Address) (o : Outcome) (f : Flow)
      → o ≢ wrote
      → (write_to key real origin o f).flow.has_reverse_nat ≡ f.has_reverse_nat
  unfolding write_to
  write_to-has real none wrote f ne = refl
  write_to-has real (some origin) wrote f ne = absurd (ne refl)
  write_to-has real origin conn_closed f ne = refl
  write_to-has real origin failed f ne = refl

  resolve_and_write-has :
      (dst : Address) (resolved : Option Address) (o : Outcome) (f : Flow)
      → o ≢ wrote
      → (resolve_and_write key dst resolved o f).flow.has_reverse_nat ≡ f.has_reverse_nat
  unfolding resolve_and_write refused
  resolve_and_write-has dst none o f ne = refl
  resolve_and_write-has dst (some a) o f ne = write_to-has a (some dst) o _ ne

  write_or_resolve-has :
      (direct : Bool) (dst d : Address) (call : Call) (f : Flow)
      → call.outcome ≢ wrote
      → (write_or_resolve key direct dst d call f).flow.has_reverse_nat ≡ f.has_reverse_nat
  unfolding write_or_resolve
  write_or_resolve-has true dst d call f ne = write_to-has d (some dst) call.outcome f ne
  write_or_resolve-has false dst d call f ne =
      resolve_and_write-has dst call.resolved call.outcome f ne

  note_dispatch-has :
      (dst d : Address) (f : Flow) → (note_dispatch key dst d f).has_reverse_nat ≡ f.has_reverse_nat
  unfolding note_dispatch
  note_dispatch-has dst d f = ground arith

  dispatch_and_write-has :
      (dst : Address) (d : Option Address) (call : Call) (f : Flow)
      → call.outcome ≢ wrote
      → (dispatch_and_write key dst d call f).flow.has_reverse_nat ≡ f.has_reverse_nat
  unfolding dispatch_and_write write_dispatched refused
  dispatch_and_write-has dst none call f ne = refl
  dispatch_and_write-has dst (some d) call f ne =
      write_or_resolve-has _ dst d call (note_dispatch key dst d f) ne ∙ note_dispatch-has dst d f

  write_unresolved-has :
      (dst : Address) (d : Option Address) (call : Call) (f : Flow)
      → call.outcome ≢ wrote
      → (write_unresolved key dst d call f).flow.has_reverse_nat ≡ f.has_reverse_nat
  unfolding write_unresolved write_dispatched
  write_unresolved-has dst (some d) call f ne = write_or_resolve-has _ dst d call f ne
  write_unresolved-has dst none call f ne = dispatch_and_write-has dst call.dispatch call f ne

  write_cached-has :
      (dst : Address) (c : Option Address) (call : Call) (f : Flow)
      → call.outcome ≢ wrote
      → (write_cached key dst c call f).flow.has_reverse_nat ≡ f.has_reverse_nat
  unfolding write_cached
  write_cached-has dst (some a) call f ne = write_to-has a none call.outcome f ne
  write_cached-has dst none call f ne =
      write_unresolved-has dst (lookup ℕ_discrete (key dst) f.dispatch_cache) call f ne

  -- Packets to a destination that has a resolved address change nothing.
  run_known :
      (dst u : Address) (f : Flow) (calls : List Call)
      → lookup ℕ_discrete (key dst) f.resolved_ip_cache ≡ some u
      → run_writes key (map (λ c. (dst, c)) calls) f ≡ f
  unfolding run_writes
  run_known dst u f [] e = refl
  run_known dst u f (c ∷ calls) e =
      ap (run_writes key (map (λ c. (dst, c)) calls)) (
        ap (λ (w : Written). w.flow) (write_known key dst u c f e)
        ∙ (write_to-none key u c.outcome f).0)
      ∙ run_known dst u f calls e

  reply_unmapped :
      (f : Flow) (from : Address) → f.has_reverse_nat ≡ false → reply_from key f from ≡ from
  unfolding reply_from mapped_or
  reply_unmapped f from e = ground arith

  -- Where a flow has no reverse mapping yet, and a packet to a destination leaves it with a
  -- resolved address but is not written, because the connection is closed or the write fails, then
  -- after any later packets to this destination, however well they are written, a reply from the
  -- resolved address is handed back as from that address itself.
  pub reply-unmapped :
      (dst u : Address) (call : Call) (f : Flow) (later : List Call)
      → f.has_reverse_nat ≡ false
      → call.outcome ≢ wrote
      → lookup ℕ_discrete (key dst) (write key dst call f).flow.resolved_ip_cache ≡ some u
      → reply_from key (run_writes key (map (λ c. (dst, c)) later) (write key dst call f).flow) u
        ≡ u
  reply-unmapped dst u call f later none_yet ne e =
      rw (run_known dst u (write key dst call f).flow later e) (
        reply_unmapped (write key dst call f).flow u (
          unfold write in
          write_cached-has dst (lookup ℕ_discrete (key dst) f.resolved_ip_cache) call f ne
          ∙ none_yet))
