-- ===== src/Nat.antt =====
-- pkg/net/nat/source.go: where the packets of one source are sent, `write`, `WriteTo` and `mapAddr`, and
-- as whose the replies are handed back, `parseComparableAddr` and `parseAddr`. The keys of addresses,
-- `Comparable`, are the parameter `key`. What the dialer's dispatch and the resolver give, and how the
-- write on the connection ends, are an argument of each call; each is asked once at most.
pub mod Replies
pub mod Sticky
pub mod Unmapped
pub mod Table
use yuhaiin.Prelude.{
  ℕ, Bool, true, false, Option, none, some, List, [], ◌∷◌, ◌==◌, if◌then◌else◌, Map, lookup, assign,
  ℕ_discrete,
}
use yuhaiin.Socks.{Address, domain_addr, ip_addr}

-- How `PacketConn.WriteTo` ends: without an error, with `net.ErrClosed`, or with another error.
pub data Outcome : Type 0 where
  wrote : Outcome
  conn_closed : Outcome
  failed : Outcome

pub record Call : Type 0 where
  pub dispatch : Option Address
  pub resolved : Option Address
  pub outcome : Outcome

-- The caches of a `SourceControl`, and the option of its `contextCache` that `write` reads.
pub record Flow : Type 0 where
  pub resolved_ip_cache : Map ℕ Address
  pub dispatch_cache : Map ℕ Address
  pub reverse_nat_map : Map ℕ Address
  pub has_reverse_nat : Bool
  pub skip_resolve_target : Bool

unfoldable pub new_flow : Bool → Flow
new_flow skip = record {
  resolved_ip_cache = [];
  dispatch_cache = [];
  reverse_nat_map = [];
  has_reverse_nat = false;
  skip_resolve_target = skip;
}

-- What `write` leaves, the address that it wrote to, where it came to that, and whether it gives no
-- error.
pub record Written : Type 0 where
  pub flow : Flow
  pub target : Option Address
  pub ok : Bool

unfoldable pub is_fqdn : Address → Bool
is_fqdn (domain_addr host port) = true
is_fqdn (ip_addr ip port) = false

refused : Flow → Written
refused f = record { flow = f; target = none; ok = false }

module _ (key : Address → ℕ) where
  unfoldable pub map_addr : Address → Address → Flow → Flow
  map_addr src dst f = if key src == key dst then f else record f {
    reverse_nat_map = assign ℕ_discrete (key src) dst f.reverse_nat_map;
    has_reverse_nat = true;
  }

  unfoldable pub write_to : Address → Option Address → Outcome → Flow → Written
  unfolding map_addr
  write_to real none wrote f = record { flow = f; target = some real; ok = true }
  write_to real (some origin) wrote f = record {
    flow = map_addr real origin f;
    target = some real;
    ok = true;
  }
  write_to real origin conn_closed f = record { flow = f; target = some real; ok = true }
  write_to real origin failed f = record { flow = f; target = some real; ok = false }

  resolve_and_write : Address → Option Address → Outcome → Flow → Written
  unfolding write_to refused
  resolve_and_write dst none outcome f = refused f
  resolve_and_write dst (some udp_addr) outcome f =
      write_to udp_addr (some dst) outcome
        (record f { resolved_ip_cache = assign ℕ_discrete (key dst) udp_addr f.resolved_ip_cache })

  write_or_resolve : Bool → Address → Address → Call → Flow → Written
  unfolding write_to resolve_and_write
  write_or_resolve true dst dst_addr call f = write_to dst_addr (some dst) call.outcome f
  write_or_resolve false dst dst_addr call f = resolve_and_write dst call.resolved call.outcome f

  -- `write` once the address is dispatched.
  write_dispatched : Address → Address → Call → Flow → Written
  unfolding write_or_resolve is_fqdn
  write_dispatched dst dst_addr call f =
      write_or_resolve (if is_fqdn dst_addr then f.skip_resolve_target else true) dst dst_addr call
        f

  note_dispatch : Address → Address → Flow → Flow
  note_dispatch dst dst_addr f =
      if key dst == key dst_addr
      then f
      else record f { dispatch_cache = assign ℕ_discrete (key dst) dst_addr f.dispatch_cache }

  dispatch_and_write : Address → Option Address → Call → Flow → Written
  unfolding write_dispatched note_dispatch refused
  dispatch_and_write dst none call f = refused f
  dispatch_and_write dst (some dst_addr) call f =
      write_dispatched dst dst_addr call (note_dispatch dst dst_addr f)

  write_unresolved : Address → Option Address → Call → Flow → Written
  unfolding write_dispatched dispatch_and_write
  write_unresolved dst (some dst_addr) call f = write_dispatched dst dst_addr call f
  write_unresolved dst none call f = dispatch_and_write dst call.dispatch call f

  write_cached : Address → Option Address → Call → Flow → Written
  unfolding write_to write_unresolved
  write_cached dst (some udp_addr) call f = write_to udp_addr none call.outcome f
  write_cached dst none call f =
      write_unresolved dst (lookup ℕ_discrete (key dst) f.dispatch_cache) call f

  unfoldable pub write : Address → Call → Flow → Written
  unfolding write_cached
  write dst call f = write_cached dst (lookup ℕ_discrete (key dst) f.resolved_ip_cache) call f

  unfoldable pub run_writes : List (Address × Call) → Flow → Flow
  run_writes [] f = f
  run_writes ((dst, call) ∷ calls) f = run_writes calls (write dst call f).flow

  -- `parseComparableAddr` for an address that `ParseSysAddr` reads.
  unfoldable pub parse_comparable_addr : Address → Bool → Option Address × ℕ
  parse_comparable_addr from need_comparable =
      if need_comparable then (some from, key from) else (none, 0)

  mapped_or : Option Address → Option Address → Address → Address
  mapped_or (some addr) src_addr from = addr
  mapped_or none (some addr) from = addr
  mapped_or none none from = from

  unfoldable pub parse_addr : Flow → Address → Option Address × ℕ → Address
  unfolding mapped_or
  parse_addr f from (src_addr, src_key) =
      mapped_or (if src_key == 0 then none else lookup ℕ_discrete src_key f.reverse_nat_map)
        src_addr from

  -- As whose a packet that `from` sent is handed back.
  unfoldable pub reply_from : Flow → Address → Address
  unfolding parse_addr parse_comparable_addr
  reply_from f from = parse_addr f from (parse_comparable_addr from f.has_reverse_nat)
