-- ===== src/Nat/Replies.antt =====
-- As whose the replies come back after a packet was written, and where the reverse mapping is missing.
use yuhaiin.Prelude.{
  ℕ, ◌≡◌, ◌≢◌, subst, sym, Bool, true, false, Option, none, some, lookup, lookup-assign, same_refl,
  ℕ_discrete, arith,
}
use yuhaiin.Socks.{Address}
use yuhaiin.Nat.{
  Outcome, wrote, conn_closed, failed, Call, Flow, Written, refused, map_addr, write_to,
  resolve_and_write, write_or_resolve, write_dispatched, note_dispatch, dispatch_and_write,
  write_unresolved, write_cached, write, mapped_or, reply_from,
}

module _ (key : Address → ℕ) where
  abbrev Good : Address → Written → Type 0
  Good dst w =
      (real : Address)
      → w.target ≡ some real
      → key real ≢ key dst
      → key real ≢ 0
      → reply_from key w.flow real ≡ dst

  map_addr-reply :
      (real dst : Address) (f : Flow)
      → key real ≢ key dst
      → key real ≢ 0
      → reply_from key (map_addr key real dst f) real ≡ dst
  unfolding map_addr reply_from mapped_or
  map_addr-reply real dst f other set = ground (
    arith,
    lookup-assign ℕ_discrete (key real) (key real) dst f.reverse_nat_map,
    same_refl ℕ_discrete (key real),
  )

  write_to-Good :
      (real dst : Address) (o : Outcome) (f : Flow)
      → o ≡ wrote
      → Good dst (write_to key real (some dst) o f)
  unfolding write_to
  write_to-Good real dst wrote f e r t other set =
      let same_one : real ≡ r = cc t in
      subst (λ a. reply_from key (map_addr key real dst f) a ≡ dst) same_one
        (map_addr-reply real dst f (subst (λ a. key a ≢ key dst) (sym same_one) other)
          (subst (λ a. key a ≢ 0) (sym same_one) set))
  write_to-Good real dst conn_closed f e r t other set = absurd (cc e)
  write_to-Good real dst failed f e r t other set = absurd (cc e)

  refused-Good : (dst : Address) (f : Flow) → Good dst (refused f)
  unfolding refused
  refused-Good dst f real t = absurd (cc t)

  resolve_and_write-Good :
      (dst : Address) (resolved : Option Address) (o : Outcome) (f : Flow)
      → o ≡ wrote
      → Good dst (resolve_and_write key dst resolved o f)
  unfolding resolve_and_write
  resolve_and_write-Good dst none o f e = refused-Good dst f
  resolve_and_write-Good dst (some udp_addr) o f e = write_to-Good udp_addr dst o _ e

  write_or_resolve-Good :
      (direct : Bool) (dst d : Address) (call : Call) (f : Flow)
      → call.outcome ≡ wrote
      → Good dst (write_or_resolve key direct dst d call f)
  unfolding write_or_resolve
  write_or_resolve-Good true dst d call f e = write_to-Good d dst call.outcome f e
  write_or_resolve-Good false dst d call f e =
      resolve_and_write-Good dst call.resolved call.outcome f e

  write_dispatched-Good :
      (dst d : Address) (call : Call) (f : Flow)
      → call.outcome ≡ wrote
      → Good dst (write_dispatched key dst d call f)
  unfolding write_dispatched
  write_dispatched-Good dst d call f e = write_or_resolve-Good _ dst d call f e

  dispatch_and_write-Good :
      (dst : Address) (d : Option Address) (call : Call) (f : Flow)
      → call.outcome ≡ wrote
      → Good dst (dispatch_and_write key dst d call f)
  unfolding dispatch_and_write
  dispatch_and_write-Good dst none call f e = refused-Good dst f
  dispatch_and_write-Good dst (some d) call f e =
      write_dispatched-Good dst d call (note_dispatch key dst d f) e

  write_unresolved-Good :
      (dst : Address) (d : Option Address) (call : Call) (f : Flow)
      → call.outcome ≡ wrote
      → Good dst (write_unresolved key dst d call f)
  unfolding write_unresolved
  write_unresolved-Good dst none call f e = dispatch_and_write-Good dst call.dispatch call f e
  write_unresolved-Good dst (some d) call f e = write_dispatched-Good dst d call f e

  write_cached-Good :
      (dst : Address) (c : Option Address) (call : Call) (f : Flow)
      → c ≡ none
      → call.outcome ≡ wrote
      → Good dst (write_cached key dst c call f)
  unfolding write_cached
  write_cached-Good dst none call f n e =
      write_unresolved-Good dst (lookup ℕ_discrete (key dst) f.dispatch_cache) call f e
  write_cached-Good dst (some udp_addr) call f n e = absurd (cc n)

  -- Where a destination has no resolved address yet, and the packet to it is written without an error
  -- to an address with another key, which is not 0, a reply from that address is handed back as from
  -- the destination, whatever was dispatched and resolved.
  pub write-reply :
      (dst real : Address) (call : Call) (f : Flow)
      → lookup ℕ_discrete (key dst) f.resolved_ip_cache ≡ none
      → call.outcome ≡ wrote
      → (write key dst call f).target ≡ some real
      → key real ≢ key dst
      → key real ≢ 0
      → reply_from key (write key dst call f).flow real ≡ dst
  unfolding write
  write-reply dst real call f new e t other set =
      write_cached-Good dst (lookup ℕ_discrete (key dst) f.resolved_ip_cache) call f new e real t
        other set
