-- ===== src/Relay/Serve.antt =====
-- internal/relay/server.go and encoding.go: `serveConn` and the handlers it calls. A message received
-- is handled in one step; every message that the handler hands to a send goes to `outbox`, and whether
-- that send succeeds is an argument. The standard library's base64 and `net.SplitHostPort` are the record `Codec`.
use xessenger_cli.Prelude.{ℕ, ◌/◌, List, [], ◌∷◌, ◌++◌, Bool, true, false, not, ◌&&◌, ltb, ◌==◌}
use xessenger_cli.Prelude.{Option, none, some, Result, ok, err, if◌then◌else◌, length}
use xessenger_cli.Crypto.{Bytes, codes}
use xessenger_cli.Relay.Limits.{Limits, allow, minute, millisecond}
use xessenger_cli.Relay.State.{
  Server, Error, PendingCode, add_pending, drop_pending, claim, issue, release_circuit,
  drop_circuit, redeem, join, rendezvous_id_size,
}
use xessenger_cli.Relay.State.{no_such_code, own_code, at_capacity, internal_error, peer_went_away}

pub record Codec : Type 0 where
  pub base64_decode : Bytes → Option Bytes
  pub base64_encode : Bytes → Bytes
  pub split_host_port : Bytes → Option Bytes

-- The `Message` of internal/rendezvous/messages.go, whose fields are filled in as its type says.
pub data Message : Type 0 where
  publish : Bytes → Bytes → Message
  claims : Bytes → Bytes → Message
  circuit : Bytes → Message
  bye : Message
  published : Bytes → Bytes → Message
  paired : Bytes → Bool → Bytes → Bytes → ℕ → Bytes → Message
  circuit_ok : Message
  failure : Bytes → Bytes → Message
  other : Bytes → Message

abbrev pub ticket_size : ℕ
ticket_size = 32

abbrev pub max_control_frame : ℕ
max_control_frame = 8192

-- What the outside does while a message is handled: the time, the two tickets drawn, and whether each
-- send succeeds: `own_send` is the first one to this connection (`published` or `circuit_ok`),
-- `peer_send` that of `paired` to the publisher, `paired_send` that of `paired` to this connection.
pub record World : Type 0 where
  pub now : ℕ
  pub ticket_a : Option Bytes
  pub ticket_b : Option Bytes
  pub own_send : Bool
  pub peer_send : Bool
  pub paired_send : Bool

abbrev pub Outbox : Type 0
Outbox = List (ℕ × Message)

-- The reason sent for an error of `pair`.
abbrev pub reason : Error → Bytes
reason no_such_code = codes "no such invite code"
reason own_code = codes "cannot claim your own invite code"
reason at_capacity = codes "relay is at capacity"
reason internal_error = codes "internal error"
reason peer_went_away = codes "peer went away"

-- What handling a message leaves: the relay, what was handed to a send, the codes this connection has published,
-- and whether the control loop goes on.
pub record Handled : Type 0 where
  pub server : Server
  pub outbox : Outbox
  pub codes_of : List Bytes
  pub goes_on : Bool

abbrev pub stop : Server → Outbox → List Bytes → Handled
stop s out mine = record { server = s; outbox = out; codes_of = mine; goes_on = false }

module _ (codec : Codec) where
  -- `decodeExact`
  unfoldable pub decode_exact : Bytes → ℕ → Option Bytes
  decode_exact s want = elim (codec.base64_decode s) [
    | none ↦ none
    | some b ↦ if length b == want then some b else none
  ]

  unfoldable pub source_ip : Bytes → Bytes
  source_ip addr = elim (codec.split_host_port addr) [ none ↦ addr | some host ↦ host ]

  -- `checkRID`: the reason it refuses for, if it does.
  unfoldable pub check_rid : Bytes → Bytes → Option Bytes
  unfolding decode_exact
  check_rid rid candidates = elim (decode_exact rid rendezvous_id_size) [
    | none ↦ some (codes "malformed rendezvous id")
    | some b ↦
        if ltb max_control_frame (length candidates)
        then some (codes "candidate list too large")
        else none
  ]

  -- The two messages that `pair` sends, the publisher's first.
  abbrev pub pair_messages :
      Limits → Bytes → PendingCode → ℕ → Bytes → Bytes → Bytes → Bytes → Outbox
  pair_messages limits rid p claimer sealed addr ticket_a ticket_b =
      (p.conn, paired rid true sealed addr (limits.punch_delay / millisecond) ticket_a)
      ∷ (claimer, paired rid false p.sealed p.observed (limits.punch_delay / millisecond) ticket_b)
      ∷ []

  -- The part of `pair` after the tickets are drawn.
  unfoldable pub introduce :
      Limits
      → World
      → Bytes
      → PendingCode
      → ℕ
      → Bytes
      → Bytes
      → Bytes
      → Bytes
      → Server
      → Server × Outbox × Result Error (Unit {0})
  introduce limits w rid p claimer sealed addr ticket_a ticket_b s =
      let (issued, c) = issue w.now ticket_a ticket_b s in
      let out = pair_messages limits rid p claimer sealed addr ticket_a ticket_b in
      if w.peer_send && w.paired_send
      then (issued, out, ok tt)
      else (drop_circuit c ticket_a ticket_b issued, out, err peer_went_away)

  unfoldable pub pair :
      Limits
      → World
      → Bytes
      → ℕ
      → Bytes
      → Bytes
      → Server
      → Server × Outbox × Result Error (Unit {0})
  unfolding introduce
  pair limits w rid claimer sealed addr s =
      let (s', r) = claim limits rid claimer s in
      elim r [
        | err e ↦ (s', [], err e)
        | ok p ↦ elim w.ticket_a [
          | none ↦ (release_circuit s', [], err internal_error)
          | some a ↦ elim w.ticket_b [
            | none ↦ (release_circuit s', [], err internal_error)
            | some b ↦
                introduce limits w rid p claimer sealed addr (codec.base64_encode a)
                  (codec.base64_encode b) s'
          ]
        ]
      ]

  unfoldable pub handle_publish :
      Limits → World → ℕ → Bytes → List Bytes → Bytes → Bytes → Server → Handled
  unfolding check_rid source_ip
  handle_publish limits w conn addr mine rid candidates s = elim (check_rid rid candidates) [
    | some why ↦ stop s ((conn, failure rid why) ∷ []) mine
    | none ↦
        let (windows, allowed) =
          allow (source_ip addr) limits.publishes_per_ip_per_min minute w.now s.publishes in
        let (s', added) =
          add_pending limits w.now rid conn candidates addr (record s { publishes = windows }) in
        if not allowed
        then stop (record s { publishes = windows })
            ((conn, failure rid (codes "rate limit exceeded")) ∷ []) mine
        else if not added
        then stop s' ((conn, failure rid (codes "relay is at capacity")) ∷ []) mine
        else record {
          server = s';
          outbox = (conn, published rid addr) ∷ [];
          codes_of = rid ∷ mine;
          goes_on = w.own_send;
        }
  ]

  unfoldable pub handle_claim :
      Limits → World → ℕ → Bytes → List Bytes → Bytes → Bytes → Server → Handled
  unfolding check_rid pair
  handle_claim limits w conn addr mine rid candidates s = elim (check_rid rid candidates) [
    | some why ↦ stop s ((conn, failure rid why) ∷ []) mine
    | none ↦
        if not w.own_send
        then stop s ((conn, published rid addr) ∷ []) mine
        else let (s', out, r) = pair limits w rid conn candidates addr s in
          elim r [
            | ok done ↦ record {
              server = s';
              outbox = (conn, published rid addr) ∷ out;
              codes_of = mine;
              goes_on = true;
            }
            | err e ↦ record {
              server = s';
              outbox = ((conn, published rid addr) ∷ out) ++ ((conn, failure rid (reason e)) ∷ []);
              codes_of = mine;
              goes_on = true;
            }
          ]
  ]

  -- `attachCircuit` up to its wait: the half that came first waits, the second splices.
  unfoldable pub attach_circuit : World → ℕ → List Bytes → Bytes → Server → Handled
  unfolding decode_exact
  attach_circuit w conn mine ticket s = elim (decode_exact ticket ticket_size) [
    | none ↦ stop s ((conn, failure [] (codes "malformed ticket")) ∷ []) mine
    | some b ↦
        let (s', r) = redeem ticket s in
        elim r [
          | none ↦ stop s' ((conn, failure [] (codes "unknown or spent ticket")) ∷ []) mine
          | some ref ↦
              if w.own_send
              then stop (join conn ref s').0 ((conn, circuit_ok) ∷ []) mine
              else stop s' ((conn, circuit_ok) ∷ []) mine
        ]
  ]

  unfoldable pub serve_message :
      Limits → World → ℕ → Bytes → List Bytes → Message → Server → Handled
  unfolding handle_publish handle_claim attach_circuit
  serve_message limits w conn addr mine (publish rid candidates) s =
      handle_publish limits w conn addr mine rid candidates s
  serve_message limits w conn addr mine (claims rid candidates) s =
      handle_claim limits w conn addr mine rid candidates s
  serve_message limits w conn addr mine (circuit ticket) s = attach_circuit w conn mine ticket s
  serve_message limits w conn addr mine bye s = stop s [] mine
  serve_message limits w conn addr mine (published rid o) s =
      stop s ((conn, failure rid (codes "unexpected message")) ∷ []) mine
  serve_message limits w conn addr mine (paired rid role c o ms t) s =
      stop s ((conn, failure rid (codes "unexpected message")) ∷ []) mine
  serve_message limits w conn addr mine circuit_ok s =
      stop s ((conn, failure [] (codes "unexpected message")) ∷ []) mine
  serve_message limits w conn addr mine (failure rid why) s =
      stop s ((conn, failure rid (codes "unexpected message")) ∷ []) mine
  serve_message limits w conn addr mine (other rid) s =
      stop s ((conn, failure rid (codes "unexpected message")) ∷ []) mine

-- The deferred loop of `serveConn`.
unfoldable pub leave : ℕ → List Bytes → Server → Server
leave conn [] s = s
leave conn (rid ∷ rids) s = leave conn rids (drop_pending rid conn s)
