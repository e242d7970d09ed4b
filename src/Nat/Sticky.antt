-- ===== src/Nat/Sticky.antt =====
-- The resolved address of a destination is kept by every later write.
use yuhaiin.Prelude.{
  ℕ, ◌≡◌, ◌≢◌, refl, Bool, true, false, Option, none, some, List, [], ◌∷◌, lookup, lookup-assign,
  same→eq, ℕ_discrete, arith,
}
use yuhaiin.Socks.{Address}
use yuhaiin.Nat.{
  Outcome, wrote, conn_closed, failed, Call, Flow, Written, refused, map_addr, write_to,
  resolve_and_write, write_or_resolve, write_dispatched, note_dispatch, dispatch_and_write,
  write_unresolved, write_cached, write, run_writes,
}

module _ (key : Address → ℕ) where
  -- A write to a destination that has a resolved address.
  pub write_known :
      (dst u : Address) (call : Call) (f : Flow)
      → lookup ℕ_discrete (key dst) f.resolved_ip_cache ≡ some u
      → write key dst call f ≡ write_to key u none call.outcome f
  unfolding write
  write_known dst u call f e = rw e (unfold write_cached in refl)

  pub write_to-none :
      (u : Address) (o : Outcome) (f : Flow)
      → ((write_to key u none o f).flow ≡ f) × ((write_to key u none o f).target ≡ some u)
  unfolding write_to
  write_to-none u wrote f = (refl, refl)
  write_to-none u conn_closed f = (refl, refl)
  write_to-none u failed f = (refl, refl)

  -- What a write to any destination leaves of the resolved addresses of the others, and of one that
  -- it wrote to before.
  Keeps : ℕ → Address → Written → Type 0
  Keeps k u w = lookup ℕ_discrete k w.flow.resolved_ip_cache ≡ some u

  write_to-Keeps :
      (k : ℕ) (u real : Address) (origin : Option Address) (o : Outcome) (f : Flow)
      → lookup ℕ_discrete k f.resolved_ip_cache ≡ some u
      → Keeps k u (write_to key real origin o f)
  unfolding write_to map_addr Keeps
  write_to-Keeps k u real none wrote f e = e
  write_to-Keeps k u real (some origin) wrote f e = ground arith
  write_to-Keeps k u real origin conn_closed f e = e
  write_to-Keeps k u real origin failed f e = e

  resolve_and_write-Keeps :
      (k : ℕ) (u dst : Address) (resolved : Option Address) (o : Outcome) (f : Flow)
      → key dst ≢ k
      → lookup ℕ_discrete k f.resolved_ip_cache ≡ some u
      → Keeps k u (resolve_and_write key dst resolved o f)
  unfolding resolve_and_write
  resolve_and_write-Keeps k u dst none o f ne e = unfold Keeps refused in e
  resolve_and_write-Keeps k u dst (some a) o f ne e = write_to-Keeps k u a (some dst) o _ (
      ground (
        arith,
        lookup-assign ℕ_discrete (key dst) k a f.resolved_ip_cache,
        same→eq ℕ_discrete (key dst) k,
      ))

  write_or_resolve-Keeps :
      (k : ℕ) (u : Address) (direct : Bool) (dst d : Address) (call : Call) (f : Flow)
      → key dst ≢ k
      → lookup ℕ_discrete k f.resolved_ip_cache ≡ some u
      → Keeps k u (write_or_resolve key direct dst d call f)
  unfolding write_or_resolve
  write_or_resolve-Keeps k u true dst d call f ne e =
      write_to-Keeps k u d (some dst) call.outcome f e
  write_or_resolve-Keeps k u false dst d call f ne e =
      resolve_and_write-Keeps k u dst call.resolved call.outcome f ne e

  write_dispatched-Keeps :
      (k : ℕ) (u dst d : Address) (call : Call) (f : Flow)
      → key dst ≢ k
      → lookup ℕ_discrete k f.resolved_ip_cache ≡ some u
      → Keeps k u (write_dispatched key dst d call f)
  unfolding write_dispatched
  write_dispatched-Keeps k u dst d call f ne e = write_or_resolve-Keeps k u _ dst d call f ne e

  note_dispatch-resolved :
      (dst d : Address) (f : Flow)
      → (note_dispatch key dst d f).resolved_ip_cache ≡ f.resolved_ip_cache
  unfolding note_dispatch
  note_dispatch-resolved dst d f = ground arith

  dispatch_and_write-Keeps :
      (k : ℕ) (u dst : Address) (d : Option Address) (call : Call) (f : Flow)
      → key dst ≢ k
      → lookup ℕ_discrete k f.resolved_ip_cache ≡ some u
      → Keeps k u (dispatch_and_write key dst d call f)
  unfolding dispatch_and_write
  dispatch_and_write-Keeps k u dst none call f ne e = unfold Keeps refused in e
  dispatch_and_write-Keeps k u dst (some d) call f ne e =
      write_dispatched-Keeps k u dst d call (note_dispatch key dst d f) ne
        (rw (note_dispatch-resolved dst d f) e)

  write_unresolved-Keeps :
      (k : ℕ) (u dst : Address) (d : Option Address) (call : Call) (f : Flow)
      → key dst ≢ k
      → lookup ℕ_discrete k f.resolved_ip_cache ≡ some u
      → Keeps k u (write_unresolved key dst d call f)
  unfolding write_unresolved
  write_unresolved-Keeps k u dst (some d) call f ne e = write_dispatched-Keeps k u dst d call f ne e
  write_unresolved-Keeps k u dst none call f ne e =
      dispatch_and_write-Keeps k u dst call.dispatch call f ne e

  write_cached-Keeps :
      (k : ℕ) (u dst : Address) (c : Option Address) (call : Call) (f : Flow)
      → key dst ≢ k
      → lookup ℕ_discrete k f.resolved_ip_cache ≡ some u
      → Keeps k u (write_cached key dst c call f)
  unfolding write_cached
  write_cached-Keeps k u dst (some a) call f ne e = write_to-Keeps k u a none call.outcome f e
  write_cached-Keeps k u dst none call f ne e =
      write_unresolved-Keeps k u dst (lookup ℕ_discrete (key dst) f.dispatch_cache) call f ne e

  write-keeps :
      (k : ℕ) (u dst : Address) (call : Call) (f : Flow)
      → lookup ℕ_discrete k f.resolved_ip_cache ≡ some u
      → lookup ℕ_discrete k (write key dst call f).flow.resolved_ip_cache ≡ some u
  write-keeps k u dst call f e = elim (ℕ_discrete (key dst) k) [
    | yes hit ↦ rw (write_known dst u call f (rw hit e)) (rw (write_to-none u call.outcome f).0 e)
    | no miss ↦
        unfold write Keeps in
        write_cached-Keeps k u dst (lookup ℕ_discrete (key dst) f.resolved_ip_cache) call f miss e
  ]

  -- Whatever is written in between, to any destinations and with any answers of the dialer and the
  -- resolver, a destination's packets go on to the address that was once resolved for it.
  pub write-sticky :
      (dst u : Address) (f : Flow) (between : List (Address × Call)) (call : Call)
      → lookup ℕ_discrete (key dst) f.resolved_ip_cache ≡ some u
      → (write key dst call (run_writes key between f)).target ≡ some u
  unfolding run_writes
  write-sticky dst u f [] call e =
      rw (write_known dst u call f e) (write_to-none u call.outcome f).1
  write-sticky dst u f ((d, c) ∷ between) call e =
      write-sticky dst u (write key d c f).flow between call (write-keeps (key dst) u d c f e)
