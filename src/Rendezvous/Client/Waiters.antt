-- ===== src/Rendezvous/Client/Waiters.antt =====
-- internal/rendezvous/client.go: the client's state and its operations.
use xessenger_cli.Prelude.{
  ℕ, List, [], ◌∷◌, ◌++◌, Bool, true, false, Option, none, some, Result, ok, err, if◌then◌else◌,
  length, get_or, set,
}
use xessenger_cli.Prelude.Assoc.{Map, lookup, insert, delete}
use xessenger_cli.Prelude.Bytes.{bytes_eq}
use xessenger_cli.Crypto.{Bytes}
use xessenger_cli.Rendezvous.Messages
use xessenger_cli.Rendezvous.Sealed
use xessenger_cli.Rendezvous.Messages.{
  Message, bare, msg_publish, msg_published, msg_claim, msg_paired, msg_circuit, msg_circuit_ok,
  msg_error, b64,
}
use xessenger_cli.Relay.Serve.{Codec}

pub record Waiter : Type 0 where
  pub published : Option Message
  pub paired : Option Message
  pub sealed : Bytes
  pub claim : Bool
  pub sent : Bool

-- `waiters` leads to places of `made`; `connected` says whether the channel of that name is closed.
pub record Client : Type 0 where
  pub conn : Option ℕ
  pub rung : ℕ
  pub observed : Bytes
  pub waiters : Map ℕ
  pub made : List Waiter
  pub connected : Bool
  pub closed : Bool

pub data Error : Type 0 where
  client_closed expired already_outstanding send_failed recv_failed dial_failed : Error
  bad_field : Messages.Error → Error
  bad_candidates : Sealed.Error → Error
  malformed_ticket : Error
  relay_refused : Bytes → Error
  unexpected : Bytes → Error

abbrev pub new_client : Client
new_client = record {
  conn = none;
  rung = 0;
  observed = [];
  waiters = [];
  made = [];
  connected = false;
  closed = false;
}

abbrev pub new_waiter : Bytes → Bool → Waiter
new_waiter sealed claim = record {
  published = none;
  paired = none;
  sealed = sealed;
  claim = claim;
  sent = false;
}

-- The waiter of a place that the map or an invite holds.
abbrev pub waiter_at : List Waiter → ℕ → Waiter
waiter_at made i = get_or made i (new_waiter [] false)

-- `select { case ch <- msg: default: }` on a channel of one place.
abbrev pub put : Option Message → Message → Option Message
put none msg = some msg
put (some m) msg = some m

abbrev pub put_published : Message → Waiter → Waiter
put_published msg w = record w { published = put w.published msg }

abbrev pub put_paired : Message → Waiter → Waiter
put_paired msg w = record w { paired = put w.paired msg }

unfoldable pub deliver : (Waiter → Waiter) → Bytes → Client → Client
deliver f rid c = elim (lookup rid c.waiters) [
  | none ↦ c
  | some i ↦ record c { made = set c.made i (f (waiter_at c.made i)) }
]

-- `dispatch`: the lookup, which holds the mutex, and the send on the waiter's channel after it, which
-- does not, are one section here.
unfoldable pub dispatch : Message → Client → Client
unfolding deliver
dispatch msg c =
    if bytes_eq msg.kind msg_published
    then deliver (put_published msg) msg.rendezvous_id
        (if bytes_eq msg.observed [] then c else record c { observed = msg.observed })
    else if bytes_eq msg.kind msg_paired
    then deliver (put_paired msg) msg.rendezvous_id c
    else if bytes_eq msg.kind msg_error
    then deliver (λ w. put_paired msg (put_published msg w)) msg.rendezvous_id c
    else c

-- The first section of `resendWaiters`: the waiters not sent, with their keys.
unfoldable pub pending_of : Map ℕ → List Waiter → List (Bytes × ℕ)
pending_of [] made = []
pending_of ((rid, i) ∷ m) made =
    if (waiter_at made i).sent then pending_of m made else (rid, i) ∷ pending_of m made

abbrev pub request : Codec → Bytes → Waiter → Message
request codec rid w = record (bare (if w.claim then msg_claim else msg_publish)) {
  rendezvous_id = rid;
  candidates = b64 codec w.sealed;
}

-- `p.w.sent = true`
unfoldable pub mark_sent : ℕ → Client → Client
mark_sent i c = record c { made = set c.made i (record (waiter_at c.made i) { sent = true }) }

-- The loop of `resendWaiters`: each send with whether it succeeds, and what is sent to the connection.
unfoldable pub resend_loop :
    Codec → ℕ → List (Bytes × ℕ) → List Bool → Client → Client × List (ℕ × Message)
unfolding mark_sent
resend_loop codec conn [] sends c = (c, [])
resend_loop codec conn (p ∷ ps) [] c = (c, [])
resend_loop codec conn ((rid, i) ∷ ps) (sent ∷ sends) c =
    let rest = resend_loop codec conn ps sends (mark_sent i c) in
    if sent then (rest.0, (conn, request codec rid (waiter_at c.made i)) ∷ rest.1) else (c, [])

unfoldable pub resend_waiters : Codec → List Bool → Client → Client × List (ℕ × Message)
unfolding pending_of resend_loop
resend_waiters codec sends c = elim c.conn [
  | none ↦ (c, [])
  | some conn ↦ resend_loop codec conn (pending_of c.waiters c.made) sends c
]

-- The critical section of `register`; the answer is the waiter's place.
unfoldable pub add_waiter : Bytes → Waiter → Client → Client × Result Error ℕ
add_waiter rid w c = elim (lookup rid c.waiters) [
  | some i ↦ (c, err already_outstanding)
  | none ↦ (
    record c { waiters = insert rid (length c.made) c.waiters; made = c.made ++ (w ∷ []) },
    ok (length c.made),
  )
]

unfoldable pub unregister : Bytes → Client → Client
unregister rid c = record c { waiters = delete rid c.waiters }

-- `supervise` once a dial has succeeded, and once the connection has failed.
unfoldable pub connect : ℕ → ℕ → Client → Client
connect conn rung c = record c { conn = some conn; rung = rung; connected = true }

unfoldable pub unsend_all : Map ℕ → List Waiter → List Waiter
unsend_all [] made = made
unsend_all ((rid, i) ∷ m) made =
    unsend_all m (set made i (record (waiter_at made i) { sent = false }))

unfoldable pub lose : Client → Client
unfolding unsend_all
lose c = record c { conn = none; connected = false; made = unsend_all c.waiters c.made }

-- `Close`, with the connection that it closes.
unfoldable pub close : Client → Client × Option ℕ
close c = (record c { closed = true; conn = none }, c.conn)

-- The case of a `select` that goes on: what is waited for, the client's end, or the caller's deadline.
pub data Wake : Type 0 where
  message shut deadline : Wake

-- `Wait`: none while the case is not ready.
unfoldable pub wait : Wake → Client → Option (Result Error (Unit {0}))
wait message c = if c.connected then some (ok tt) else none
wait shut c = if c.closed then some (err client_closed) else none
wait deadline c = some (err expired)

-- `await` on the channel `w.published` or `w.paired`: none while the case is not ready.
unfoldable pub await :
    Wake
    → (Waiter → Option Message)
    → (Waiter → Waiter)
    → ℕ
    → Client
    → Option (Client × Result Error Message)
await message channel taken i c = elim (channel (waiter_at c.made i)) [
  | none ↦ none
  | some msg ↦ some (record c { made = set c.made i (taken (waiter_at c.made i)) }, ok msg)
]
await shut channel taken i c = if c.closed then some (c, err client_closed) else none
await deadline channel taken i c = some (c, err expired)

abbrev pub take_published : Waiter → Waiter
take_published w = record w { published = none }

abbrev pub take_paired : Waiter → Waiter
take_paired w = record w { paired = none }

pub record Invite : Type 0 where
  pub rid : Bytes
  pub waiter : ℕ
  pub observed : Bytes

-- A message that a wait gave, as `Publish`, `Claim` and `Invite.Wait` take it.
abbrev pub accepted : Message → Result Error Message
accepted msg = if bytes_eq msg.kind msg_error then err (relay_refused msg.reason) else ok msg

-- `Publish` up to its wait, with what it sends.
unfoldable pub begin :
    Codec → List Bool → Bytes → Bytes → Bool → Client → Client × List (ℕ × Message) × Result Error ℕ
unfolding add_waiter resend_waiters
begin codec sends rid sealed claims c =
    let (c', r) = add_waiter (b64 codec rid) (new_waiter sealed claims) c in
    elim r [
      | err e ↦ (c', [], err e)
      | ok i ↦ let (c'', out) = resend_waiters codec sends c' in (c'', out, ok i)
    ]

-- `Publish` after its wait for the relay's acknowledgement.
unfoldable pub publish_end :
    Codec → Bytes → ℕ → Client × Result Error Message → Client × Result Error Invite
unfolding unregister
publish_end codec rid i (c, err e) = (unregister (b64 codec rid) c, err e)
publish_end codec rid i (c, ok msg) = elim (accepted msg) [
  | err e ↦ (unregister (b64 codec rid) c, err e)
  | ok m ↦ (c, ok (record { rid = b64 codec rid; waiter = i; observed = m.observed }))
]

abbrev pub cancel : Invite → Client → Client
cancel inv c = unregister inv.rid c
