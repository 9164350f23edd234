-- ===== src/Manager/Shake.antt =====
-- internal/session/manager.go: `runHandshake` and `confirmPairing`. A frame connection is the frames
-- that arrive on it before its deadline, those written to it, and whether writes succeed (their bytes are
-- Transport's). The frames that arrive after the handshake are arguments of `read_loop`.
use xessenger_cli.Prelude.{
  ℕ, List, [], ◌∷◌, ◌++◌, Bool, true, false, Option, none, some, Result, ok, err, if◌then◌else◌,
  ◌==◌, length,
}
use xessenger_cli.Crypto.{Bytes, Primitives}
use xessenger_cli.Peers.{TrustLevel, trust_unknown, trust_changed, observe, fingerprint_of}
use xessenger_cli.Proto.Frame.{Error as ProtoError, pair_confirm_failed, type_pair_confirm}
use xessenger_cli.Proto.Session.{Session, open'}
use xessenger_cli.Proto.Handshake.{
  Identity, Handshaker, HandshakeResult, new_handshaker, init_message, handle_message,
  seal_pair_confirm, verify_pair_confirm,
}
use xessenger_cli.Manager.{
  event_security_warning, event_error, Event, path_direct, Conn, Manager, Error, proto, send_failed,
  recv_failed, no_session, not_saved, emit, register,
}

pub record FrameIo : Type 0 where
  pub inbox : List Bytes
  pub outbox : List Bytes
  pub up : Bool
  pub remote_addr : Bytes

pub record AdoptOptions : Type 0 where
  pub initiator : Bool
  pub pairing_key : Bytes
  pub path : Bytes

-- What the CSPRNG gives: the ephemeral key, the nonce of the handshake's answer, and that of the
-- pairing confirmation.
pub record Drawn : Type 0 where
  pub eph : Option Bytes
  pub auth : Option Bytes
  pub confirm : Option Bytes

-- A failed handshake; `reported` says that the user is told, as of a possible MITM.
pub record Failure : Type 0 where
  pub error : Error
  pub reported : Bool

abbrev pub Op {ℓ} : Type ℓ → Type ℓ
Op A = FrameIo → FrameIo × Result Failure A

abbrev pub proceed {ℓ κ} :
    {A : Type ℓ} {B : Type κ} → (A → Op B) → FrameIo × Result Failure A → FrameIo × Result Failure B
proceed f (io, ok a) = f a io
proceed f (io, err e) = (io, err e)

infixl 5 ◌>>=◌ ◌>>◌
abbrev pub ◌>>=◌ {ℓ κ} : {A : Type ℓ} {B : Type κ} → Op A → (A → Op B) → Op B
◌>>=◌ m f io = proceed f (m io)

abbrev pub ◌>>◌ {ℓ} : {B : Type ℓ} → Op (Unit {0}) → Op B → Op B
m >> k = m >>= λ _. k

abbrev pub pure {ℓ} : {A : Type ℓ} → A → Op A
pure a io = (io, ok a)

abbrev quiet : Error → Failure
quiet e = record { error = e; reported = false }

-- `FrameIO.Send` and `FrameIO.Recv`
unfoldable pub send_frame : Bytes → Op (Unit {0})
send_frame buf io =
    if io.up
    then (record io { outbox = io.outbox ++ (buf ∷ []) }, ok tt)
    else (io, err (quiet send_failed))

unfoldable pub recv_frame : Op Bytes
recv_frame io = elim io.inbox [
  | [] ↦ (io, err (quiet recv_failed))
  | buf ∷ rest ↦ (record io { inbox = rest }, ok buf)
]

-- A step of the handshaker; `reported` for the one whose failure is reported.
unfoldable pub step_of {ℓ} : {A : Type ℓ} → Bool → Result ProtoError A → Op A
step_of reported (ok a) io = (io, ok a)
step_of reported (err e) io = (io, err (record { error = proto e; reported = reported }))

-- A nil message is sent as an empty frame.
abbrev pub message_of : Option Bytes → Bytes
message_of none = []
message_of (some msg) = msg

unfoldable pub require : Option HandshakeResult → Op HandshakeResult
require none io = (io, err (quiet no_session))
require (some r) io = (io, ok r)

module _ (p : Primitives) where
  -- The two branches of `runHandshake` on the role.
  unfoldable pub exchange_initiator : Drawn → Handshaker → Op HandshakeResult
  exchange_initiator drawn hs = do
    msg1 ← step_of false (init_message p hs)
    send_frame msg1
    msg2 ← recv_frame
    (msg3, r) ← step_of true (handle_message p drawn.auth msg2 hs).1
    send_frame (message_of msg3)
    require r

  unfoldable pub exchange_responder : Drawn → Handshaker → Op HandshakeResult
  exchange_responder drawn hs = do
    msg1 ← recv_frame
    (msg2, _) ← step_of false (handle_message p drawn.auth msg1 hs).1
    send_frame (message_of msg2)
    msg3 ← recv_frame
    (_, r) ← step_of true (handle_message p none msg3 (handle_message p drawn.auth msg1 hs).0).1
    require r

  unfoldable pub exchange : Drawn → Identity → Bool → Op HandshakeResult
  exchange drawn id initiator = do
    hs ← step_of false (new_handshaker p drawn.eph id initiator)
    if initiator then exchange_initiator drawn hs else exchange_responder drawn hs

  -- The loop of `confirmPairing` over the frames that arrive in time.
  unfoldable pub await_proof :
      Bytes → Bytes → List Bytes → Session → Session × Result Error (Unit {0})
  await_proof pairing_key transcript [] s = (s, err recv_failed)
  await_proof pairing_key transcript (buf ∷ rest) s =
      let (s', r) = open' p buf s in
      let more = await_proof pairing_key transcript rest s' in
      elim r [
        | err e ↦ (s', err (proto pair_confirm_failed))
        | ok f ↦
            if f.0 == type_pair_confirm
            then (
              s',
              (if verify_pair_confirm p pairing_key transcript f.1
                  then ok tt
                  else err (proto pair_confirm_failed)),
            )
            else more
      ]

  -- What it gives comes with the frame connection after it, less the frames that have been read.
  unfoldable pub confirm_pairing :
      Option Bytes
      → HandshakeResult
      → Bytes
      → FrameIo
      → FrameIo × (Session × Result Error (Unit {0}))
  confirm_pairing drawn res pairing_key io =
      let (s, r) = seal_pair_confirm p drawn pairing_key res.transcript res.session in
      elim r [
        | err e ↦ (io, (s, err (proto e)))
        | ok out ↦
            if io.up
            then (
              record io { outbox = io.outbox ++ (out ∷ []) },
              await_proof pairing_key res.transcript io.inbox s,
            )
            else (io, (s, err send_failed))
      ]

  abbrev pub warning : HandshakeResult → TrustLevel → Event
  warning res trust = record {
    typ = event_security_warning;
    peer = res.peer_name;
    fingerprint = fingerprint_of p res.peer_key;
    text = [];
    trust = trust;
    path = [];
  }

  abbrev handshake_error : Event
  handshake_error = record {
    typ = event_error;
    peer = [];
    fingerprint = [];
    text = [];
    trust = trust_unknown;
    path = [];
  }

  abbrev pub new_conn : HandshakeResult → Session → TrustLevel → AdoptOptions → FrameIo → Conn
  new_conn res s trust opts io = record {
    fp = fingerprint_of p res.peer_key;
    name = res.peer_name;
    addr = io.remote_addr;
    path = if length opts.path == 0 then path_direct else opts.path;
    trust = trust;
    sess = s;
    queue = [];
    written = io.outbox;
    done = false;
    unanswered = 0;
    announced = false;
  }

  -- The rest of `runHandshake` once the peer is to be recorded. `saves` says whether the store's file
  -- is written, an error of which comes after the record has changed in memory.
  unfoldable pub adopt_peer :
      ℕ
      → Bool
      → HandshakeResult
      → Session
      → AdoptOptions
      → FrameIo
      → Manager
      → Manager × Result Error (Unit {0})
  adopt_peer now saves res s opts io m =
      let (store, trust) = observe p res.peer_name io.remote_addr res.peer_key now m.store in
      let m' = record m { store = store } in
      let m'' : Manager = elim trust [
        | trust_changed ↦ emit (warning res trust_changed) m'
        | _ ↦ m'
      ] in
      if saves
      then ((register (new_conn res s trust opts io) m'').0, ok tt)
      else (m', err not_saved)

  -- What follows the pairing confirmation, or the lack of one.
  unfoldable pub run_confirmed :
      ℕ
      → Bool
      → HandshakeResult
      → AdoptOptions
      → FrameIo × (Session × Result Error (Unit {0}))
      → Manager
      → Manager × Result Error (Unit {0})
  run_confirmed now saves res opts (io, (s, ok u)) m = adopt_peer now saves res s opts io m
  run_confirmed now saves res opts (io, (s, err e)) m = (emit (warning res trust_unknown) m, err e)

  unfoldable pub run_agreed :
      Drawn
      → ℕ
      → Bool
      → AdoptOptions
      → FrameIo × Result Failure HandshakeResult
      → Manager
      → Manager × Result Error (Unit {0})
  run_agreed drawn now saves opts (io, ok res) m =
      if length opts.pairing_key == 0
      then adopt_peer now saves res res.session opts io m
      else run_confirmed now saves res opts (confirm_pairing drawn.confirm res opts.pairing_key io)
          m
  run_agreed drawn now saves opts (io, err f) m =
      ((if f.reported then emit handshake_error m else m), err f.error)

  unfoldable pub run_handshake :
      Drawn → ℕ → Bool → AdoptOptions → FrameIo → Manager → Manager × Result Error (Unit {0})
  run_handshake drawn now saves opts io m =
      run_agreed drawn now saves opts (exchange drawn m.id opts.initiator io) m
