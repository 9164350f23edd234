-- ===== src/Rendezvous/Client/Claims.antt =====
-- internal/relay/server.go: the relay's answer to a claim, and how it reaches a client.
use xessenger_cli.Prelude.{
  ℕ, ◌+◌, ◌*◌, ◌/◌, ◌≤◌, ◌<◌, List, [], ◌∷◌, true, none, some, ok, if◌then◌else◌, ◌==◌, length, set,
  arith, ◌≡◌, ◌≢◌, refl, ap,
}
use xessenger_cli.Prelude.Assoc.{lookup}
use xessenger_cli.Crypto.{Bytes}
use xessenger_cli.Relay.Limits.{Limits}
use xessenger_cli.Relay.State.{Server, PendingCode, claim, rendezvous_id_size}
use xessenger_cli.Relay.Serve
use xessenger_cli.Relay.Serve.{
  Codec, World, Outbox, ticket_size, max_control_frame, decode_exact, check_rid, pair, introduce,
  pair_messages, handle_claim, serve_message, claims, paired, published,
}
use xessenger_cli.Rendezvous.Messages.{wire, b64}
use xessenger_cli.Rendezvous.Sealed.{max_sealed_candidates}
use xessenger_cli.Rendezvous.Client.Waiters.{Waiter, Client, waiter_at, deliver, dispatch}

-- What encoding/base64 documents.
pub record CodecLaws (codec : Codec) : Type 0 where
  pub decode_encode : (b : Bytes) → codec.base64_decode (codec.base64_encode b) ≡ some b
  pub length_encode : (b : Bytes) → length (codec.base64_encode b) ≤ (length b + 2) / 3 * 4

-- The messages of an outbox for one connection, in order.
unfoldable pub inbox : ℕ → Outbox → List Serve.Message
inbox conn [] = []
inbox conn ((to, msg) ∷ out) = if to == conn then msg ∷ inbox conn out else inbox conn out

pub deliver_found :
    (f : Waiter → Waiter) (k : Bytes) (c : Client) (i : ℕ)
    → lookup k c.waiters ≡ some i
    → deliver f k c ≡ record c { made = set c.made i (f (waiter_at c.made i)) }
unfolding deliver
deliver_found f k c i e = rw (deliver, e) refl

pub inbox_first :
    (m n : ℕ) (x y z : Serve.Message) → m ≢ n → inbox m ((n, x) ∷ (m, y) ∷ (n, z) ∷ []) ≡ y ∷ []
unfolding inbox
inbox_first m n x y z h = ground (arith, h)

pub inbox_second :
    (m n : ℕ) (x y z : Serve.Message) → m ≢ n → inbox n ((n, x) ∷ (m, y) ∷ (n, z) ∷ []) ≡ x ∷ z ∷ []
unfolding inbox
inbox_second m n x y z h = ground (arith, h)

-- `readPump` over messages that arrive.
unfoldable pub hear : List Serve.Message → Client → Client
hear [] c = c
hear (msg ∷ msgs) c = hear msgs (dispatch (wire msg) c)

module _ (codec : Codec) (laws : CodecLaws codec) where
  check_rid-b64 :
      (rid sealed : Bytes)
      → length rid ≡ rendezvous_id_size
      → length sealed ≤ max_sealed_candidates
      → check_rid codec (b64 codec rid) (b64 codec sealed) ≡ none
  unfolding check_rid
  check_rid-b64 rid sealed h k =
      ground (arith, laws.decode_encode rid, h, laws.length_encode sealed, k)

  module _ (limits : Limits) (conn : ℕ) (s : Server) (q : PendingCode) (rid : Bytes)
      (e : lookup rid s.pending ≡ some q) (other : q.conn ≢ conn)
      (room : s.circuits < limits.max_circuits) where
    claim_ok : (claim limits rid conn s).1 ≡ ok q
    unfolding claim
    claim_ok = ground (arith, e, other, room)

    pair_ok :
        (w : World) (sealed addr a b : Bytes)
        → w.ticket_a ≡ some a
        → w.ticket_b ≡ some b
        → w.peer_send ≡ true
        → w.paired_send ≡ true
        → ((pair codec limits w rid conn sealed addr s).1
            ≡ pair_messages codec limits rid q conn sealed addr (b64 codec a) (b64 codec b))
          × ((pair codec limits w rid conn sealed addr s).2 ≡ ok tt)
    unfolding pair introduce
    pair_ok w sealed addr a b ea eb ep es =
        (rw (pair, claim_ok, ea, eb, ep, es) refl, rw (pair, claim_ok, ea, eb, ep, es) refl)

  -- The relay's answer to a claim of a code that is pending, when it has room and its sends succeed.
  pub claim_outbox :
      (limits : Limits) (w : World) (conn : ℕ) (addr : Bytes) (mine : List Bytes) (s : Server)
      (q : PendingCode) (rid sealed a b : Bytes)
      → length rid ≡ rendezvous_id_size
      → length sealed ≤ max_sealed_candidates
      → lookup (b64 codec rid) s.pending ≡ some q
      → q.conn ≢ conn
      → s.circuits < limits.max_circuits
      → w.ticket_a ≡ some a
      → w.ticket_b ≡ some b
      → w.own_send ≡ true
      → w.peer_send ≡ true
      → w.paired_send ≡ true
      → (serve_message codec limits w conn addr mine
          (claims (b64 codec rid) (b64 codec sealed))
          s).outbox
        ≡ (conn, published (b64 codec rid) addr)
          ∷ pair_messages codec limits
              (b64 codec rid)
              q
              conn
              (b64 codec sealed)
              addr
              (b64 codec a)
              (b64 codec b)
  unfolding serve_message handle_claim
  claim_outbox limits w conn addr mine s q rid sealed a b hr hs e other room ea eb eo ep es =
      let (out, done) =
        pair_ok limits conn s q (b64 codec rid) e other room w (b64 codec sealed) addr a b ea eb ep
          es in
      rw (handle_claim, check_rid-b64 rid sealed hr hs, eo, done)
        (ap (λ ms. (conn, published (b64 codec rid) addr) ∷ ms) out)
