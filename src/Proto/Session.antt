-- ===== src/Proto/Session.antt =====
-- internal/proto/session.go: an established session. An operation takes the session and returns the
-- session after it with the result, an error being a value: what was changed before an error stays
-- changed. The mutex makes each operation one step. Sequence numbers and epochs wrap as uint64 and
-- uint32 do. `chainForEpochLocked` returns a pointer to a chain, used at once: here it is the key.
pub mod Epochs
pub mod Sealing
pub mod Delivery
pub mod Stream
pub mod Start
pub mod Opening
pub mod Steps
pub mod Safety
pub mod Numbers
pub mod Forgery
pub mod Closed
use xessenger_cli.Prelude.{
  ℕ, zero, suc, ◌+◌, ◌/◌, ◌%◌, ◌^◌, ◌≤◌, ◌<◌, List, [], ◌∷◌, ◌++◌, Bool, true, false, not, ◌&&◌,
  ltb, ◌==◌,
}
use xessenger_cli.Prelude.{length, Option, none, some, Result, ok, err, guard, if◌then◌else◌}
use xessenger_cli.Prelude.{◌>>=◌ as and_then}
use xessenger_cli.Prelude.Bytes.{put_uint, uint}
use xessenger_cli.Crypto
use xessenger_cli.Crypto.{
  Bytes, Primitives, Error as CryptoError, codes, derive_key, zeroise, key_size,
}
use xessenger_cli.Proto.Frame.{
  Frame, Error, crypto, auth, replay, bad_session, bad_epoch, session_closed, payload_too_large,
}
use xessenger_cli.Proto.Frame.{
  marshal_header_only, marshal_frame, parse_frame, max_plaintext, encode_chat_payload, type_chat,
}
use xessenger_cli.Proto.Replay.{ReplayWindow, new_window, check}

abbrev pub info_root : Bytes
info_root = codes "heimdall v1 root"

abbrev pub info_send_ab : Bytes
info_send_ab = codes "heimdall v1 send A-to-B"

abbrev pub info_send_ba : Bytes
info_send_ba = codes "heimdall v1 send B-to-A"

abbrev pub info_msg : Bytes
info_msg = codes "heimdall v1 msg"

abbrev pub info_rotate : Bytes
info_rotate = codes "heimdall v1 rotate"

abbrev pub info_session : Bytes
info_session = codes "heimdall v1 session id"

abbrev pub rotation_interval : ℕ
rotation_interval = 1000

-- A chain is its key; `none` is Go's nil pointer, and `[]` a nil root.
pub record Session : Type 0 where
  pub session_id : ℕ
  pub send : Option Bytes
  pub recv : Option Bytes
  pub recv_old : Option Bytes
  pub epoch : ℕ
  pub send_seq : ℕ
  pub recv_win : ReplayWindow
  pub closed : Bool
  pub initiator : Bool
  pub root : Bytes

abbrev pub Op {ℓ} : Type ℓ → Type ℓ
Op A = Session → Session × Result Error A

infixl 5 ◌>>=◌ ◌>>◌
abbrev pub ◌>>=◌ {ℓ κ} : {A : Type ℓ} {B : Type κ} → Op A → (A → Op B) → Op B
◌>>=◌ m f s = let (s', r) = m s in elim r [ ok a ↦ f a s' | err e ↦ (s', err e) ]

abbrev pub ◌>>◌ {ℓ} : {B : Type ℓ} → Op (Unit {0}) → Op B → Op B
m >> k = m >>= λ _. k

-- A result that does not depend on the session.
abbrev pub lift {ℓ} : {A : Type ℓ} → Result Error A → Op A
lift r s = (s, r)

-- An error of the crypto package, returned as it is.
abbrev pub from_crypto {ℓ} : {A : Type ℓ} → Result CryptoError A → Result Error A
from_crypto (ok a) = ok a
from_crypto (err e) = err (crypto e)

-- The loop of `itoa`: the digits of `v` before `acc`. Its buffer holds ten digits.
itoa_loop : ℕ → ℕ → Bytes → Bytes
itoa_loop zero v acc = acc
itoa_loop (suc room) v acc =
    let more = itoa_loop room (v / 10) ((b'0' + v % 10) ∷ acc) in if v == 0 then acc else more

unfoldable pub itoa : ℕ → Bytes
unfolding itoa_loop
itoa v = if v == 0 then b'0' ∷ [] else itoa_loop 10 v []

-- A session before its first epoch is installed.
abbrev pub blank_session : ℕ → Bool → Bytes → Session
blank_session sid initiator root = record {
  session_id = sid;
  send = none;
  recv = none;
  recv_old = none;
  epoch = 0;
  send_seq = 0;
  recv_win = new_window;
  closed = false;
  initiator = initiator;
  root = root;
}

-- The key of a chain; a nil chain would be a panic, and no session has one after `new_session`.
abbrev pub chain_key : Option Bytes → Bytes
chain_key none = []
chain_key (some k) = k

-- The frame that `Seal` fills in before it encrypts.
abbrev pub header_of : Session → ℕ → Frame
header_of s typ = record {
  typ = typ;
  session = s.session_id;
  sequence = s.send_seq;
  rotation = s.epoch;
  blob = [];
}

-- The end of `Seal`: the counter moves on only when there is a blob to send.
unfoldable pub send_sealed : Frame → Session → Result Error Bytes → Session × Result Error Bytes
send_sealed header s (ok blob) = (
  record s { send_seq = (s.send_seq + 1) % 2 ^ 64 },
  ok (marshal_frame (record header { blob = blob })),
)
send_sealed header s (err e) = (s, err e)

module _ (p : Primitives) where
  -- `chain.messageKey`
  unfoldable pub message_key : Bytes → ℕ → Result Error Bytes
  message_key key seq = from_crypto (derive_key p key (put_uint 8 seq) info_msg key_size)

  unfoldable pub epoch_seed : Bytes → ℕ → Result Error Bytes
  epoch_seed root epoch =
      from_crypto (derive_key p root [] (info_rotate ++ (b' ' ∷ itoa epoch)) key_size)

  -- The two directions' keys of an epoch, A to B first: the derivations of `installEpochLocked`.
  unfoldable pub epoch_keys : Bytes → ℕ → Result Error (Bytes × Bytes)
  epoch_keys root epoch = and_then (epoch_seed root epoch) λ seed.
      and_then (from_crypto (derive_key p seed [] info_send_ab key_size))
        λ ab. and_then (from_crypto (derive_key p seed [] info_send_ba key_size)) λ ba. ok (ab, ba)

  -- The assignments of `installEpochLocked`.
  unfoldable pub assign_epoch : ℕ → Bytes × Bytes → Session → Session
  assign_epoch epoch (ab, ba) s = record s {
    recv_old = elim s.recv [ none ↦ s.recv_old | some k ↦ some k ];
    send = some (if s.initiator then ab else ba);
    recv = some (if s.initiator then ba else ab);
    epoch = epoch;
  }

  unfoldable pub install_epoch : ℕ → Op (Unit {0})
  unfolding assign_epoch
  install_epoch epoch s = elim (epoch_keys s.root epoch) [
    | ok keys ↦ (assign_epoch epoch keys s, ok tt)
    | err e ↦ (s, err e)
  ]

  unfoldable pub new_session : Bytes → Bytes → Bool → Result Error Session
  unfolding install_epoch
  new_session shared transcript initiator =
      and_then (from_crypto (derive_key p shared transcript info_root key_size)) λ root.
        and_then (from_crypto (derive_key p root [] info_session 8)) λ sid.
          let (s, r) = install_epoch 0 (blank_session (uint sid) initiator root) in
          and_then r λ _. ok s

  -- Rotation at the interval boundary, before a frame is sealed.
  unfoldable pub rotate_if_due : Op (Unit {0})
  unfolding install_epoch
  rotate_if_due s =
      if ltb 0 s.send_seq && (s.send_seq % rotation_interval == 0)
      then install_epoch ((s.epoch + 1) % 2 ^ 32) s
      else (s, ok tt)

  -- The rest of `Seal`, when the epoch is in place. `drawn` is the nonce from the CSPRNG.
  unfoldable pub seal_frame : Option Bytes → ℕ → Bytes → Op Bytes
  unfolding send_sealed
  seal_frame drawn typ plaintext s =
      let header = header_of s typ in
      send_sealed header s (
        and_then (message_key (chain_key s.send) s.send_seq)
          λ key. from_crypto (Crypto.seal p drawn key (marshal_header_only header) plaintext))

  unfoldable pub seal : Option Bytes → ℕ → Bytes → Op Bytes
  unfolding rotate_if_due seal_frame
  seal drawn typ plaintext s =
      if s.closed
      then (s, err session_closed)
      else if ltb max_plaintext (length plaintext)
      then (s, err payload_too_large)
      else (rotate_if_due >>= λ _. seal_frame drawn typ plaintext) s

  -- `chainForEpochLocked`
  unfoldable pub chain_for_epoch : ℕ → Op Bytes
  unfolding install_epoch
  chain_for_epoch epoch s =
      if epoch == s.epoch
      then (s, ok (chain_key s.recv))
      else if epoch == (s.epoch + 1) % 2 ^ 32
      then (do install_epoch epoch; λ s'. (s', ok (chain_key s'.recv))) s
      else elim s.recv_old [
        | none ↦ (s, err bad_epoch)
        | some k ↦ if (epoch + 1) % 2 ^ 32 == s.epoch then (s, ok k) else (s, err bad_epoch)
      ]

  -- Decryption under the key of the frame's sequence number; any failure of it is `ErrAuth`.
  unfoldable pub decrypt_frame : Bytes → Frame → Result Error Bytes
  decrypt_frame chain f = and_then (message_key chain f.sequence) λ key.
      elim (Crypto.open' p key (marshal_header_only f) f.blob) [ ok pt ↦ ok pt | err e ↦ err auth ]

  -- The replay window, once the frame is authentic.
  unfoldable pub admit : Frame → Bytes → Op (ℕ × Bytes)
  admit f pt s =
      let (win, fresh) = check s.recv_win f.sequence in
      (record s { recv_win = win }, (if fresh then ok (f.typ, pt) else err replay))

  unfoldable pub open' : Bytes → Op (ℕ × Bytes)
  unfolding chain_for_epoch decrypt_frame admit
  open' buf s =
      if s.closed
      then (s, err session_closed)
      else (do
        f ← lift (parse_frame buf)
        lift (guard (f.session == s.session_id) bad_session)
        chain ← chain_for_epoch f.rotation
        pt ← lift (decrypt_frame chain f)
        admit f pt)
          s

  -- `SealChat` of chatframe.go.
  pub seal_chat : Option Bytes → Bytes → Op Bytes
  unfolding seal
  seal_chat drawn text = seal drawn type_chat (encode_chat_payload text)

abbrev zeroise_chain : Option Bytes → Option Bytes
zeroise_chain none = none
zeroise_chain (some k) = some (zeroise k)

-- `Close` overwrites every key in place.
unfoldable pub close : Session → Session
close s = record s {
  closed = true;
  send = zeroise_chain s.send;
  recv = zeroise_chain s.recv;
  recv_old = zeroise_chain s.recv_old;
  root = [];
}
