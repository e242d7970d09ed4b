-- ===== src/Tests/Sessions.antt =====
-- The theorems on UDP sessions at concrete inputs.
use yuhaiin.Prelude.{
  ℕ, ◌+◌, ◌≡◌, ◌≢◌, refl, false, none, some, [], ◌∷◌, map, lookup, assign, same, ℕ_discrete, arith,
}
use yuhaiin.Socks.{Address, domain_addr, ip_addr}
use yuhaiin.Nat.{Call, Flow, wrote, failed, new_flow, write, run_writes, reply_from}
use yuhaiin.Nat.Replies.{write-reply}
use yuhaiin.Nat.Sticky.{write-sticky}
use yuhaiin.Nat.Unmapped.{reply-unmapped}
use yuhaiin.Nat.Table
use yuhaiin.Nat.Table.{
  Handled, blocked, Event, sweep, handle, Table, new_table, write_table, run_table,
}
use yuhaiin.Nat.Table.Blocked.{blocked-refused}

-- Keys that tell the addresses below apart.
abbrev port_key : Address → ℕ
port_key (domain_addr host port) = port + 1
port_key (ip_addr ip port) = port + 65537

abbrev named : Address
named = domain_addr (b'a' ∷ b'.' ∷ b'c' ∷ []) 443

abbrev numbered : Address
numbered = ip_addr (1 ∷ 2 ∷ 3 ∷ 4 ∷ []) 443

abbrev elsewhere : Address
elsewhere = ip_addr (5 ∷ 6 ∷ 7 ∷ 8 ∷ []) 443

abbrev sends : Call
sends = record { dispatch = some named; resolved = some numbered; outcome = wrote }

abbrev moves : Call
moves = record { dispatch = some named; resolved = some elsewhere; outcome = wrote }

abbrev fails : Call
fails = record { dispatch = some named; resolved = some numbered; outcome = failed }

sent_to : (write port_key named sends (new_flow false)).target ≡ some numbered
unfolding write new_flow lookup
sent_to = refl

keys_differ : port_key numbered ≢ port_key named
keys_differ e = absurd (omega (arith, e))

key_set : port_key numbered ≢ 0
key_set e = absurd (omega (arith, e))

not_resolved : lookup ℕ_discrete (port_key named) (new_flow false).resolved_ip_cache ≡ none
unfolding new_flow lookup
not_resolved = refl

write-reply_example :
    reply_from port_key (write port_key named sends (new_flow false)).flow numbered ≡ named
write-reply_example =
    write-reply port_key named numbered sends (new_flow false) not_resolved refl sent_to keys_differ
      key_set

abbrev flow_after : Call → Flow
flow_after call = (write port_key named call (new_flow false)).flow

resolved_by :
    lookup ℕ_discrete (port_key named) (flow_after sends).resolved_ip_cache ≡ some numbered
unfolding write new_flow lookup assign same ℕ_discrete
resolved_by = refl

write-sticky_example :
    (write port_key named moves
      (run_writes port_key ((elsewhere, sends) ∷ []) (flow_after sends))).target
    ≡ some numbered
write-sticky_example =
    write-sticky port_key named numbered (flow_after sends) ((elsewhere, sends) ∷ []) moves
      resolved_by

resolved_by_failing :
    lookup ℕ_discrete (port_key named) (flow_after fails).resolved_ip_cache ≡ some numbered
unfolding write new_flow lookup assign same ℕ_discrete
resolved_by_failing = refl

not_mapped : (new_flow false).has_reverse_nat ≡ false
unfolding new_flow
not_mapped = refl

reply-unmapped_example :
    reply_from port_key
      (run_writes port_key (map (λ c. (named, c)) (sends ∷ moves ∷ [])) (flow_after fails))
      numbered
    ≡ numbered
reply-unmapped_example =
    reply-unmapped port_key named numbered fails (new_flow false) (sends ∷ moves ∷ []) not_mapped
      (λ e. cc e) resolved_by_failing

abbrev refusing : ℕ → Handled
refusing pkt = blocked

no_source : lookup ℕ_discrete 7 (new_table {P = ℕ}).source_control ≡ none
unfolding new_table lookup
no_source = refl

table_open : (new_table {P = ℕ}).closed ≡ false
unfolding new_table
table_open = refl

blocked-refused_example :
    (write_table 8 7 false 2 900
      (run_table 8 (Table.write 7 false 1 0 ∷ handle 7 refusing ∷ sweep 800 60 ∷ []) new_table)).1
    ≡ false
blocked-refused_example =
    blocked-refused 8 7 1 0 refusing new_table (sweep 800 60 ∷ []) false 2 900 table_open no_source
      (omega arith) refl
