-- ===== src/Proto/Frame.antt =====
-- internal/proto/frame.go, chatframe.go and `marshalHeaderOnly` of session.go: the wire form of
-- session frames and of chat payloads.
pub mod RoundTrip
pub mod Chat
use xessenger_cli.Prelude.{
  ℕ, ◌+◌, ◌-◌, ◌^◌, ◌≤◌, ◌<◌, List, [], ◌∷◌, ◌++◌, Bool, ◌||◌, not, ltb, ◌==◌,
}
use xessenger_cli.Prelude.{
  length, get_or, take, drop, Result, ok, err, guard, ◌>>=◌, ◌>>◌, if◌then◌else◌,
}
use xessenger_cli.Crypto.{Error as CryptoError}
use xessenger_cli.Prelude.Bytes.{put_uint, uint, slice}

abbrev pub protocol_version : ℕ
protocol_version = 1

abbrev pub type_chat : ℕ
type_chat = 1

abbrev pub type_ping : ℕ
type_ping = 2

abbrev pub type_pong : ℕ
type_pong = 3

abbrev pub type_close : ℕ
type_close = 4

abbrev pub type_pair_confirm : ℕ
type_pair_confirm = 5

abbrev pub header_size : ℕ
header_size = 22

abbrev pub max_plaintext : ℕ
max_plaintext = 4096

abbrev pub max_frame : ℕ
max_frame = header_size + max_plaintext + 64

-- The errors of the package, with those that its functions build on the spot.
pub data Error : Type 0 where
  malformed auth replay bad_session bad_epoch : Error
  session_closed payload_too_large : Error
  crypto : CryptoError → Error
  pair_confirm_failed empty_pairing_key empty_transcript : Error
  handshake bad_signature self_connection no_private_key not_initiator csprng_failed : Error

-- Go's `frame`; `blob` is nonce, ciphertext and tag.
pub record Frame : Type 0 where
  pub typ : ℕ
  pub session : ℕ
  pub sequence : ℕ
  pub rotation : ℕ
  pub blob : List ℕ

unfoldable pub marshal_header_only : Frame → List ℕ
marshal_header_only f =
    protocol_version
    ∷ f.typ
    ∷ (put_uint 8 f.session ++ (put_uint 8 f.sequence ++ put_uint 4 f.rotation))

unfoldable pub marshal_frame : Frame → List ℕ
unfolding marshal_header_only
marshal_frame f = marshal_header_only f ++ f.blob

-- The types that the switch of `parseFrame` lets through.
unfoldable pub known_type : ℕ → Bool
known_type t =
    t == type_chat
    || (t == type_ping || (t == type_pong || (t == type_close || t == type_pair_confirm)))

unfoldable pub parse_frame : List ℕ → Result Error Frame
parse_frame buf = do
  guard (not (ltb (length buf) header_size)) malformed
  guard (not (ltb max_frame (length buf))) malformed
  guard (get_or buf 0 0 == protocol_version) malformed
  guard (known_type (get_or buf 1 0)) malformed
  ok (record {
    typ = get_or buf 1 0;
    session = uint (slice 2 8 buf);
    sequence = uint (slice 10 8 buf);
    rotation = uint (slice 18 4 buf);
    blob = drop header_size buf;
  })

-- `PutUint16` keeps the low 16 bits of the length.
unfoldable pub encode_chat_payload : List ℕ → List ℕ
encode_chat_payload text = put_uint 2 (length text) ++ text

unfoldable pub decode_chat_payload : List ℕ → Result Error (List ℕ)
decode_chat_payload b = do
  guard (not (ltb (length b) 2)) malformed
  guard (not (ltb (length b - 2) (uint (take 2 b)))) malformed
  ok (slice 2 (uint (take 2 b)) b)
