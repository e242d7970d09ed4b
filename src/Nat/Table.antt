-- ===== src/Nat/Table.antt =====
-- pkg/net/nat/table.go and the life of a `SourceControl` of source.go: the table of sources, their
-- packets' queues, the goroutine that handles them, the loops that read a connection, and the sweep of
-- idle sources. Packets are of any type; what handling one comes to, what the context of a write is,
-- and the time are arguments of the events. A goroutine's run is an event; the ring buffer of a queue
-- is its list, with its bound.
pub mod Dead
pub mod Blocked
use yuhaiin.Prelude.{
  ℕ, ◌+◌, ◌-◌, Bool, true, false, ◌&&◌, Option, none, some, List, [], ◌∷◌, ◌++◌, if◌then◌else◌, ltb,
  length, contains, remove_first, Map, lookup, assign, ℕ_discrete, ◌==◌,
}

-- `handleOne` on one packet: a new connection is dialled, the packet is refused by a block rule, it is
-- refused once a new connection is dialled, or none of these.
pub data Handled : Type 0 where
  dialled : Handled
  blocked : Handled
  dialled_blocked : Handled
  other : Handled

-- `conn` is the connection in use, unless there is none or it is closed; `loops` are the connections
-- that a `loopWriteBack` reads, `dials` how many were dialled.
pub record Control {ℓ} (P : Type ℓ) : Type ℓ where
  pub cancelled : Bool
  pub conn : Option ℕ
  pub loops : List ℕ
  pub dials : ℕ
  pub loop_stopped : Bool
  pub loop_stop_time : ℕ
  pub sent_packets : List P

pub data Event {ℓ} (P : Type ℓ) : Type ℓ where
  write : ℕ → Bool → P → ℕ → Event P
  handle : ℕ → (P → Handled) → Event P
  close_conn : ℕ → Event P
  end_loop : ℕ → ℕ → ℕ → Event P
  sweep : ℕ → ℕ → Event P
  close_table : Event P

drop_if : ℕ → Option ℕ → Option ℕ
drop_if id none = none
drop_if id (some current) = if current == id then none else some current

idle_since : ℕ → ℕ → Option ℕ → Bool
idle_since now timeout none = false
idle_since now timeout (some idle_time) = ltb timeout (now - idle_time)

module _ {ℓ} {P : Type ℓ} where
  unfoldable pub new_source_chan : ℕ → Control P
  new_source_chan now = record {
    cancelled = false;
    conn = none;
    loops = [];
    dials = 0;
    loop_stopped = false;
    loop_stop_time = now;
    sent_packets = [];
  }

  unfoldable pub close_control : Control P → Control P
  close_control c = record c { cancelled = true; sent_packets = [] }

  -- `IsIdle`
  unfoldable pub is_idle : Control P → Option ℕ
  is_idle c = if c.loop_stopped then some c.loop_stop_time else none

  -- `WritePacket` with a queue of at most `limit` packets; whether the write's context is done. The
  -- control, and whether there is no error.
  unfoldable pub write_packet : ℕ → Bool → P → Control P → Control P × Bool
  write_packet limit ctx_done pkt c =
      if c.cancelled
      then (c, false)
      else if ctx_done
      then (c, false)
      else if ltb (length c.sent_packets) limit
      then (record c { sent_packets = c.sent_packets ++ pkt ∷ [] }, true)
      else (c, false)

  -- `newPacketConn`, with the start of its `loopWriteBack`, where there is no connection in use.
  dial : Control P → Control P
  dial c = elim c.conn [
    | some id ↦ c
    | none ↦ record c {
      conn = some c.dials;
      loops = c.dials ∷ c.loops;
      dials = c.dials + 1;
      loop_stopped = false;
    }
  ]

  unfoldable pub handle_packets : (P → Handled) → List P → Control P → Control P
  unfolding dial close_control
  handle_packets outcome [] c = record c { sent_packets = [] }
  handle_packets outcome (pkt ∷ pkts) c = elim (outcome pkt) [
    | blocked ↦ close_control c
    | dialled_blocked ↦ close_control (dial c)
    | dialled ↦ handle_packets outcome pkts (dial c)
    | other ↦ handle_packets outcome pkts c
  ]

  -- `run`, which returns once the control is cancelled, and `handle`.
  unfoldable pub run_control : (P → Handled) → Control P → Control P
  unfolding handle_packets
  run_control outcome c = if c.cancelled then c else handle_packets outcome c.sent_packets c

  -- The goroutine that writes back closes the connection.
  unfoldable pub drop_conn : Control P → Control P
  drop_conn c = record c { conn = none }

  -- The end of the `loopWriteBack` of one connection, which closes it.
  unfoldable pub stop_loop : ℕ → ℕ → Control P → Control P
  unfolding drop_if
  stop_loop id now c =
      if contains ℕ_discrete c.loops id
      then record c {
        conn = drop_if id c.conn;
        loops = remove_first ℕ_discrete id c.loops;
        loop_stopped = true;
        loop_stop_time = now;
      }
      else c

  -- A round of the ticker: the sources that go are closed.
  unfoldable pub sweep_controls : ℕ → ℕ → Map ℕ (Control P) → Map ℕ (Control P)
  unfolding idle_since is_idle
  sweep_controls now timeout [] = []
  sweep_controls now timeout ((k, c) ∷ controls) =
      let rest = sweep_controls now timeout controls in
      if idle_since now timeout (is_idle c) then rest else (k, c) ∷ rest

  unfoldable pub close_controls : Map ℕ (Control P) → Map ℕ (Control P)
  unfolding close_control
  close_controls [] = []
  close_controls ((k, c) ∷ controls) = (k, close_control c) ∷ close_controls controls

pub record Table {ℓ} (P : Type ℓ) : Type ℓ where
  pub source_control : Map ℕ (Control P)
  pub closed : Bool

module _ {ℓ} {P : Type ℓ} where
  unfoldable pub new_table : Table P
  new_table = record { source_control = []; closed = false }

  -- `LoadOrCreate`
  unfoldable pub control_at : ℕ → ℕ → Table P → Control P
  unfolding new_source_chan
  control_at key now t = elim (lookup ℕ_discrete key t.source_control) [
    | none ↦ new_source_chan now
    | some c ↦ c
  ]

  pub put_control : ℕ → Control P → Table P → Table P
  put_control key c t = record t { source_control = assign ℕ_discrete key c t.source_control }

  -- `Table.Write` for a source with this key, which is the packet's migrate ID or its address's.
  unfoldable pub write_table : ℕ → ℕ → Bool → P → ℕ → Table P → Table P × Bool
  unfolding put_control control_at write_packet
  write_table limit key ctx_done pkt now t = if t.closed then (t, false) else (
    put_control key (write_packet limit ctx_done pkt (control_at key now t)).0 t,
    (write_packet limit ctx_done pkt (control_at key now t)).1,
  )

  -- What a goroutine of one control does to it, where the table has it.
  unfoldable pub with_control : ℕ → (Control P → Control P) → Table P → Table P
  unfolding put_control
  with_control key f t = elim (lookup ℕ_discrete key t.source_control) [
    | none ↦ t
    | some c ↦ put_control key (f c) t
  ]

  unfoldable pub step_table : ℕ → Event P → Table P → Table P
  unfolding with_control
  step_table limit (write key ctx_done pkt now) t = (write_table limit key ctx_done pkt now t).0
  step_table limit (handle key outcome) t = with_control key (run_control outcome) t
  step_table limit (close_conn key) t = with_control key drop_conn t
  step_table limit (end_loop key id now) t = with_control key (stop_loop id now) t
  step_table limit (sweep now timeout) t = record t {
    source_control = sweep_controls now timeout t.source_control;
  }
  step_table limit close_table t = record {
    source_control = close_controls t.source_control;
    closed = true;
  }

  unfoldable pub run_table : ℕ → List (Event P) → Table P → Table P
  unfolding step_table
  run_table limit [] t = t
  run_table limit (e ∷ es) t = run_table limit es (step_table limit e t)
