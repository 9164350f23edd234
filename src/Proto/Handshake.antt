-- ===== src/Proto/Handshake.antt =====
-- internal/proto/handshake.go and pairing.go: the handshake of two peers, one side of it at a time, and
-- the pairing confirmation. A handler returns the handshaker as it leaves it, on errors too. A nil
-- transcript is the empty one, since a hash is not empty; what the CSPRNG gives is an argument.
pub mod Wire
pub mod Verified
pub mod Honest
pub mod Agreement
pub mod Linked
pub mod Pairing
use xessenger_cli.Prelude.{
  ℕ, ◌+◌, ◌-◌, ◌%◌, ◌^◌, List, [], ◌∷◌, ◌++◌, Bool, true, false, not, ◌&&◌, ◌||◌, ltb, leb, ◌==◌,
}
use xessenger_cli.Prelude.{
  length, get_or, take, drop, Option, none, some, Result, ok, err, guard, if◌then◌else◌, ◌>>=◌,
  ◌>>◌,
}
use xessenger_cli.Prelude.Bytes.{put_uint, uint, slice, bytes_eq}
use xessenger_cli.Crypto
use xessenger_cli.Crypto.{Bytes, Primitives, codes, derive_key, zeroise, key_size}
use xessenger_cli.Proto.Frame.{
  Error, handshake, bad_signature, self_connection, no_private_key, not_initiator, csprng_failed,
  pair_confirm_failed, empty_pairing_key, empty_transcript, type_pair_confirm,
}
use xessenger_cli.Proto.Session.{Session, new_session, from_crypto, seal}

abbrev pub info_hs2 : Bytes
info_hs2 = codes "heimdall v1 hs2"

abbrev pub info_hs3 : Bytes
info_hs3 = codes "heimdall v1 hs3"

abbrev pub info_pair_confirm : Bytes
info_pair_confirm = codes "heimdall v1 pairing confirm"

abbrev pub handshake_domain : Bytes
handshake_domain = codes "heimdall v1 handshake"

abbrev pub hs_aad : Bytes
hs_aad = codes "heimdall v1 hs aad"

abbrev pub hs_type_init : ℕ
hs_type_init = 1

abbrev pub hs_type_auth : ℕ
hs_type_auth = 2

abbrev pub max_hs_size : ℕ
max_hs_size = 4096

abbrev pub max_peer_name : ℕ
max_peer_name = 64

abbrev pub pair_confirm_size : ℕ
pair_confirm_size = 32

-- An identity of internal/identity; `private_key` is none for a peer's.
pub record Identity : Type 0 where
  pub name : Bytes
  pub public_key : Bytes
  pub private_key : Option Bytes

pub record HandshakeResult : Type 0 where
  pub session : Session
  pub peer_name : Bytes
  pub peer_key : Bytes
  pub transcript : Bytes

pub record Handshaker : Type 0 where
  pub id : Identity
  pub initiator : Bool
  pub eph : Bytes
  pub eph_pub : Bytes
  pub peer_eph : Bytes
  pub transcript : Bytes
  pub shared : Bytes
  pub done : Bool

-- What a message leads to: the answer to send, and the result on completion.
abbrev pub Answer : Type 0
Answer = Option Bytes × Option HandshakeResult

abbrev pub parse_init : Bytes → Result Error Bytes
parse_init msg = do
  guard (not (ltb (length msg) 3 || not (get_or msg 0 0 == hs_type_init))) handshake
  guard ((uint (slice 1 2 msg) == 32) && (length msg == 3 + uint (slice 1 2 msg))) handshake
  ok (drop 3 msg)

abbrev pub marshal_auth : Bytes → Bytes → Bytes
marshal_auth eph_pub blob = hs_type_auth ∷ (eph_pub ++ (put_uint 4 (length blob) ++ blob))

-- `int(binary.BigEndian.Uint32(…))` is not negative where `int` has 64 bits.
abbrev pub parse_auth : Bytes → Result Error (Bytes × Bytes)
parse_auth msg = do
  guard (not (ltb (length msg) 37 || not (get_or msg 0 0 == hs_type_auth))) handshake
  guard (ltb 0 (uint (slice 33 4 msg)) && (length msg == 37 + uint (slice 33 4 msg))) handshake
  ok (slice 1 32 msg, drop 37 msg)

abbrev pub marshal_auth_plain : Bytes → Bytes → Bytes → Bytes
marshal_auth_plain pub_key name sig = pub_key ++ (put_uint 2 (length name) ++ (name ++ sig))

abbrev pub parse_auth_plain : Bytes → Result Error (Bytes × Bytes × Bytes)
parse_auth_plain b = do
  guard (not (ltb (length b) 98)) handshake
  guard
      (ltb 0 (uint (slice 32 2 b))
        && leb (uint (slice 32 2 b)) max_peer_name
        && (length b == 98 + uint (slice 32 2 b)))
      handshake
  ok (take 32 b, slice 34 (uint (slice 32 2 b)) b, drop (34 + uint (slice 32 2 b)) b)

-- `finish`
abbrev pub finish : Handshaker → Handshaker
finish h = record h { done = true; shared = []; eph = [] }

-- The handshaker at the end: finished if there is a result.
abbrev pub conclude :
    Handshaker → Result Error (Option Bytes × HandshakeResult) → Handshaker × Result Error Answer
conclude h (ok (msg, result)) = (finish h, ok (msg, some result))
conclude h (err e) = (h, err e)

-- A failure of decryption is `ErrHandshake`.
abbrev pub as_handshake {ℓ} : {A : Type ℓ} → Result Crypto.Error A → Result Error A
as_handshake (ok a) = ok a
as_handshake (err e) = err handshake

module _ (p : Primitives) where
  -- `NewHandshaker`; `drawn` is the new X25519 private key.
  abbrev pub new_handshaker : Option Bytes → Identity → Bool → Result Error Handshaker
  new_handshaker drawn id initiator = elim id.private_key [
    | none ↦ err no_private_key
    | some priv ↦ elim drawn [
      | none ↦ err csprng_failed
      | some eph ↦ ok (record {
        id = id;
        initiator = initiator;
        eph = eph;
        eph_pub = p.x25519_public eph;
        peer_eph = [];
        transcript = [];
        shared = [];
        done = false;
      })
    ]
  ]

  abbrev pub transcript_hash : Bytes → Bytes → Bytes
  transcript_hash eph_a eph_b = p.sha256 (handshake_domain ++ (eph_a ++ eph_b))

  -- `Identity.Sign`
  abbrev pub sign : Identity → Bytes → Result Error Bytes
  sign id msg = elim id.private_key [
    | none ↦ err no_private_key
    | some priv ↦ ok (p.ed25519_sign priv msg)
  ]

  -- `identity.VerifyWith`
  abbrev pub verify_with : Bytes → Bytes → Bytes → Bool
  verify_with pub_key msg sig = p.ed25519_verify pub_key msg sig

  -- `InitMessage`
  abbrev pub init_message : Handshaker → Result Error Bytes
  init_message h =
      if h.initiator
      then ok (hs_type_init ∷ (put_uint 2 (length h.eph_pub) ++ h.eph_pub))
      else err not_initiator

  -- `deriveShared`
  unfoldable pub derive_shared : Handshaker → Handshaker × Result Error (Unit {0})
  derive_shared h = elim (p.x25519_ecdh h.eph h.peer_eph) [
    | none ↦ (h, err handshake)
    | some s ↦ (record h { shared = s }, ok tt)
  ]

  unfoldable pub seal_auth : Option Bytes → Bytes → Handshaker → Result Error Bytes
  seal_auth drawn info h = do
    k ← from_crypto (derive_key p h.shared h.transcript info key_size)
    sig ← sign h.id h.transcript
    from_crypto (Crypto.seal p drawn k hs_aad (marshal_auth_plain h.id.public_key h.id.name sig))

  unfoldable pub open_auth : Bytes → Bytes → Handshaker → Result Error (Bytes × Bytes × Bytes)
  open_auth blob info h = do
    k ← from_crypto (derive_key p h.shared h.transcript info key_size)
    plain ← as_handshake (Crypto.open' p k hs_aad blob)
    parse_auth_plain plain

  -- The checks that both sides make of the peer's identity.
  unfoldable pub check_peer : Bytes → Bytes → Handshaker → Result Error (Bytes × Bytes)
  unfolding open_auth
  check_peer blob info h = do
    (pub_key, name, sig) ← open_auth blob info h
    guard (verify_with pub_key h.transcript sig) bad_signature
    guard (not (bytes_eq pub_key h.id.public_key)) self_connection
    ok (pub_key, name)

  unfoldable pub result_of : Bytes × Bytes → Handshaker → Result Error HandshakeResult
  result_of (pub_key, name) h = do
    session ← new_session p h.shared h.transcript h.initiator
    ok (record {
      session = session;
      peer_name = name;
      peer_key = pub_key;
      transcript = h.transcript;
    })

  -- The assignments of the peer's ephemeral key, the transcript and the shared secret.
  unfoldable pub agree : Bytes → Bytes → Handshaker → Handshaker × Result Error (Unit {0})
  unfolding derive_shared
  agree peer_eph transcript h =
      derive_shared (record h { peer_eph = peer_eph; transcript = transcript })

  unfoldable pub handle_init : Option Bytes → Bytes → Handshaker → Handshaker × Result Error Answer
  unfolding agree seal_auth
  handle_init drawn msg h = elim (parse_init msg) [
    | err e ↦ (h, err e)
    | ok peer_eph ↦
        let (h', r) = agree peer_eph (transcript_hash peer_eph h.eph_pub) h in
        (
          h',
          (do
            r
            blob ← seal_auth drawn info_hs2 h'
            ok (some (marshal_auth h'.eph_pub blob), none)),
        )
  ]

  unfoldable pub handle_auth_initiator :
      Option Bytes → Bytes → Handshaker → Handshaker × Result Error Answer
  unfolding agree check_peer seal_auth result_of
  handle_auth_initiator drawn msg h = elim (parse_auth msg) [
    | err e ↦ (h, err e)
    | ok parts ↦
        let (h', r) = agree parts.0 (transcript_hash h.eph_pub parts.0) h in
        conclude h' (do
          r
          peer ← check_peer parts.1 info_hs2 h'
          blob ← seal_auth drawn info_hs3 h'
          result ← result_of peer h'
          ok (some (marshal_auth h'.eph_pub blob), result))
  ]

  unfoldable pub handle_auth_responder : Bytes → Handshaker → Handshaker × Result Error Answer
  unfolding check_peer result_of
  handle_auth_responder msg h =
      if length h.transcript == 0
      then (h, err handshake)
      else conclude h (do
        parts ← parse_auth msg
        peer ← check_peer parts.1 info_hs3 h
        result ← result_of peer h
        ok (none, result))

  unfoldable pub handle_message :
      Option Bytes → Bytes → Handshaker → Handshaker × Result Error Answer
  unfolding handle_init handle_auth_initiator handle_auth_responder
  handle_message drawn msg h =
      if h.done
      then (h, err handshake)
      else if (length msg == 0) || ltb max_hs_size (length msg)
      then (h, err handshake)
      else if not h.initiator && ((get_or msg 0 0 == hs_type_init) && (length h.transcript == 0))
      then handle_init drawn msg h
      else if get_or msg 0 0 == hs_type_auth
      then (if h.initiator then handle_auth_initiator drawn msg h else handle_auth_responder msg h)
      else (h, err handshake)

  -- `PairConfirm`
  unfoldable pub pair_confirm : Bytes → Bytes → Result Error Bytes
  pair_confirm pairing_key transcript = do
    guard (not (length pairing_key == 0)) empty_pairing_key
    guard (not (length transcript == 0)) empty_transcript
    from_crypto (derive_key p pairing_key transcript info_pair_confirm pair_confirm_size)

  unfoldable pub verify_pair_confirm : Bytes → Bytes → Bytes → Bool
  unfolding pair_confirm
  verify_pair_confirm pairing_key transcript got = elim (pair_confirm pairing_key transcript) [
    | err e ↦ false
    | ok want ↦ bytes_eq want got
  ]

  unfoldable pub seal_pair_confirm :
      Option Bytes → Bytes → Bytes → Session → Session × Result Error Bytes
  unfolding pair_confirm
  seal_pair_confirm drawn pairing_key transcript s = elim (pair_confirm pairing_key transcript) [
    | err e ↦ (s, err e)
    | ok confirm ↦ seal p drawn type_pair_confirm confirm s
  ]
