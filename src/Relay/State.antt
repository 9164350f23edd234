-- ===== src/Relay/State.antt =====
-- internal/relay/server.go: the state of a relay and its operations. A connection is known by a
-- number, its identity as a pointer; the circuits, which both tickets point to, stand in one list and
-- a ticket holds the place of its circuit there. Each section that holds the mutex is one operation.
use xessenger_cli.Prelude.{
  ℕ, ◌+◌, ◌-◌, ◌/◌, List, [], ◌∷◌, ◌++◌, Bool, true, false, not, ◌&&◌, ltb, leb, ◌==◌,
}
use xessenger_cli.Prelude.{Option, none, some, Result, ok, err, if◌then◌else◌, length, get_or, set}
use xessenger_cli.Prelude.Assoc.{Map, lookup, insert, delete, delete_if}
use xessenger_cli.Crypto.{Bytes}
use xessenger_cli.Relay.Limits.{Limits, Window, sweep, minute, millisecond}

pub record PendingCode : Type 0 where
  pub conn : ℕ
  pub sealed : Bytes
  pub observed : Bytes
  pub created : ℕ

-- `released` says whether the `sync.Once` of `releaseOnce` has run; a side is none while its
-- connection is nil.
pub record Circuit : Type 0 where
  pub side_0 : Option ℕ
  pub side_1 : Option ℕ
  pub started : Bool
  pub created : ℕ
  pub released : Bool

pub record TicketRef : Type 0 where
  pub circuit : ℕ
  pub side : ℕ

-- `pipes` is the circuits made so far.
pub record Server : Type 0 where
  pub pending : Map PendingCode
  pub tickets : Map TicketRef
  pub circuits : ℕ
  pub ip_conns : Map ℕ
  pub publishes : Map Window
  pub pipes : List Circuit

pub data Error : Type 0 where
  no_such_code own_code at_capacity internal_error peer_went_away : Error

abbrev pub rendezvous_id_size : ℕ
rendezvous_id_size = 16

abbrev pub max_reap_interval : ℕ
max_reap_interval = 30000000000

abbrev pub reap_interval : ℕ → ℕ
reap_interval ttl =
    let d = ttl / 2 in
    if ltb max_reap_interval d
    then max_reap_interval
    else if ltb d millisecond
    then millisecond
    else d

abbrev pub new : Server
new = record { pending = []; tickets = []; circuits = 0; ip_conns = []; publishes = []; pipes = [] }

abbrev pub new_circuit : ℕ → Circuit
new_circuit now = record {
  side_0 = none;
  side_1 = none;
  started = false;
  created = now;
  released = false;
}

-- Where a ticket's circuit is looked up, for a place that no ticket holds.
abbrev pub circuit_at : List Circuit → ℕ → Circuit
circuit_at pipes c = get_or pipes c (new_circuit 0)

unfoldable pub add_pending : Limits → ℕ → Bytes → ℕ → Bytes → Bytes → Server → Server × Bool
add_pending limits now rid conn sealed observed s =
    if leb limits.max_pending_codes (length s.pending) then (s, false) else (
      record s {
        pending =
            insert rid (record { conn = conn; sealed = sealed; observed = observed; created = now })
              s.pending;
      },
      true,
    )

unfoldable pub drop_pending : Bytes → ℕ → Server → Server
drop_pending rid conn s = elim (lookup rid s.pending) [
  | none ↦ s
  | some p ↦ if p.conn == conn then record s { pending = delete rid s.pending } else s
]

-- The first critical section of `pair`: the code is taken and a circuit's slot with it.
unfoldable pub claim : Limits → Bytes → ℕ → Server → Server × Result Error PendingCode
claim limits rid claimer s = elim (lookup rid s.pending) [
  | none ↦ (s, err no_such_code)
  | some p ↦
      if p.conn == claimer
      then (s, err own_code)
      else if leb limits.max_circuits s.circuits
      then (s, err at_capacity)
      else (record s { pending = delete rid s.pending; circuits = s.circuits + 1 }, ok p)
]

unfoldable pub release_circuit : Server → Server
release_circuit s = if ltb 0 s.circuits then record s { circuits = s.circuits - 1 } else s

unfoldable pub release_once : ℕ → Server → Server
unfolding release_circuit
release_once c s =
    if (circuit_at s.pipes c).released
    then s
    else release_circuit
        (record s { pipes = set s.pipes c (record (circuit_at s.pipes c) { released = true }) })

-- The second critical section of `pair`: the circuit and its two tickets, in their encoded form.
unfoldable pub issue : ℕ → Bytes → Bytes → Server → Server × ℕ
issue now ticket_a ticket_b s =
    let c = length s.pipes in
    (
      record s {
        pipes = s.pipes ++ (new_circuit now ∷ []);
        tickets =
            insert ticket_b (record { circuit = c; side = 1 })
              (insert ticket_a (record { circuit = c; side = 0 }) s.tickets);
      },
      c,
    )

unfoldable pub drop_circuit : ℕ → Bytes → Bytes → Server → Server
unfolding release_once
drop_circuit c ticket_a ticket_b s =
    release_once c (record s { tickets = delete ticket_b (delete ticket_a s.tickets) })

-- The first critical section of `attachCircuit`: a ticket is spent.
unfoldable pub redeem : Bytes → Server → Server × Option TicketRef
redeem ticket s = elim (lookup ticket s.tickets) [
  | none ↦ (s, none)
  | some ref ↦ (record s { tickets = delete ticket s.tickets }, some ref)
]

-- The section of `attachCircuit` under the circuit's own mutex; the answer says whether this half
-- came second and splices.
abbrev pub is_there : Option ℕ → Bool
is_there none = false
is_there (some conn) = true

-- `c.conns[ref.side] = conn`, and `c.conns[1-ref.side] != nil`.
abbrev pub put_side : ℕ → ℕ → Circuit → Circuit
put_side side conn c =
    if side == 0 then record c { side_0 = some conn } else record c { side_1 = some conn }

abbrev pub other_there : ℕ → Circuit → Bool
other_there side c = if side == 0 then is_there c.side_1 else is_there c.side_0

unfoldable pub join : ℕ → TicketRef → Server → Server × Bool
join conn ref s =
    let c = put_side ref.side conn (circuit_at s.pipes ref.circuit) in
    let second = other_there ref.side c && not c.started in
    (
      record s {
        pipes = set s.pipes ref.circuit (if second then record c { started = true } else c);
      },
      second,
    )

-- `s.ipConns[ip]`, which is 0 where the map has no entry.
abbrev pub conns_of : Bytes → Map ℕ → ℕ
conns_of ip m = elim (lookup ip m) [ none ↦ 0 | some n ↦ n ]

unfoldable pub acquire_ip : Limits → Bytes → Server → Server × Bool
acquire_ip limits ip s =
    if leb limits.max_conns_per_ip (conns_of ip s.ip_conns)
    then (s, false)
    else (record s { ip_conns = insert ip (conns_of ip s.ip_conns + 1) s.ip_conns }, true)

unfoldable pub release_ip : Bytes → Server → Server
release_ip ip s =
    let n = conns_of ip s.ip_conns in
    if leb n 1
    then record s { ip_conns = delete ip s.ip_conns }
    else record s { ip_conns = insert ip (n - 1) s.ip_conns }

-- One sweep of `reap`.
unfoldable pub reap : Limits → ℕ → Server → Server
unfolding sweep
reap limits now s = record s {
  pending = delete_if (λ p. ltb limits.code_ttl (now - p.created)) s.pending;
  tickets =
      delete_if (λ t. ltb limits.code_ttl (now - (circuit_at s.pipes t.circuit).created)) s.tickets;
  publishes = sweep minute now s.publishes;
}

abbrev pub stats : Server → ℕ × ℕ
stats s = (length s.pending, s.circuits)

-- `pump`: what it writes to the other side. A read gives the bytes, whether an error came with them,
-- and whether the write of them succeeds.
unfoldable pub pump : Limits → ℕ → List (Bytes × Bool × Bool) → List Bytes
pump limits total [] = []
pump limits total ((buf, failed, written) ∷ reads) =
    let total' = total + length buf in
    let rest = pump limits total' reads in
    let onward = if failed then [] else rest in
    if ltb 0 (length buf)
    then (if ltb limits.circuit_bytes total' then [] else if written then buf ∷ onward else [])
    else onward
