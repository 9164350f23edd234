-- ===== src/Rendezvous/Messages.antt =====
-- internal/rendezvous/messages.go: the control messages between a client and a relay, as the client
-- reads and writes them. `encoding/json` on `Message` is the record `Json`, and base64 that of the
-- relay's `Codec`. The relay fills in the fields of a message as its type says; `wire` is that form.
use xessenger_cli.Prelude.{
  ℕ, ◌≤◌, [], false, not, Option, some, Result, ok, guard, or_fail, ◌>>=◌, ◌>>◌, if◌then◌else◌, ltb,
  length, arith, ◌≡◌, inl, inr, Option-cases,
}
use xessenger_cli.Prelude.Bytes.{bytes_eq}
use xessenger_cli.Crypto.{Bytes, codes}
use xessenger_cli.Relay.Serve
use xessenger_cli.Relay.Serve.{Codec, max_control_frame}

-- `punch_in_ms` is an int64 as its bit pattern.
pub record Message : Type 0 where
  pub kind : Bytes
  pub rendezvous_id : Bytes
  pub candidates : Bytes
  pub observed : Bytes
  pub role : Bytes
  pub peer_candidates : Bytes
  pub peer_observed : Bytes
  pub punch_in_ms : ℕ
  pub ticket : Bytes
  pub reason : Bytes

abbrev pub msg_publish : Bytes
msg_publish = codes "publish"

abbrev pub msg_published : Bytes
msg_published = codes "published"

abbrev pub msg_claim : Bytes
msg_claim = codes "claim"

abbrev pub msg_paired : Bytes
msg_paired = codes "paired"

abbrev pub msg_circuit : Bytes
msg_circuit = codes "circuit"

abbrev pub msg_circuit_ok : Bytes
msg_circuit_ok = codes "circuit_ok"

abbrev pub msg_error : Bytes
msg_error = codes "error"

abbrev pub msg_bye : Bytes
msg_bye = codes "bye"

abbrev pub role_publisher : Bytes
role_publisher = codes "publisher"

abbrev pub role_claimer : Bytes
role_claimer = codes "claimer"

-- The message of a type whose other fields are empty.
abbrev pub bare : Bytes → Message
bare k = record {
  kind = k;
  rendezvous_id = [];
  candidates = [];
  observed = [];
  role = [];
  peer_candidates = [];
  peer_observed = [];
  punch_in_ms = 0;
  ticket = [];
  reason = [];
}

abbrev pub wire : Serve.Message → Message
wire (Serve.publish rid sealed) = record (bare msg_publish) {
  rendezvous_id = rid;
  candidates = sealed;
}
wire (Serve.claims rid sealed) = record (bare msg_claim) {
  rendezvous_id = rid;
  candidates = sealed;
}
wire (Serve.circuit t) = record (bare msg_circuit) { ticket = t }
wire Serve.bye = bare msg_bye
wire (Serve.published rid addr) = record (bare msg_published) {
  rendezvous_id = rid;
  observed = addr;
}
wire (Serve.paired rid publisher sealed addr ms t) = record (bare msg_paired) {
  rendezvous_id = rid;
  role = if publisher then role_publisher else role_claimer;
  peer_candidates = sealed;
  peer_observed = addr;
  punch_in_ms = ms;
  ticket = t;
}
wire Serve.circuit_ok = bare msg_circuit_ok
wire (Serve.failure rid why) = record (bare msg_error) { rendezvous_id = rid; reason = why }
wire (Serve.other rid) = record (bare []) { rendezvous_id = rid }

pub data Error : Type 0 where
  marshal_failed control_too_large bad_message no_type bad_base64 field_too_long : Error

-- `json.Marshal` and `json.Unmarshal` on a `Message`.
pub record Json : Type 0 where
  pub marshal : Message → Option Bytes
  pub unmarshal : Bytes → Option Message

unfoldable pub encode_message : Json → Message → Result Error Bytes
encode_message j m = do
  buf ← or_fail (j.marshal m) marshal_failed
  guard (not (ltb max_control_frame (length buf))) control_too_large
  ok buf

unfoldable pub decode_message : Json → Bytes → Result Error Message
decode_message j buf = do
  guard (not (ltb max_control_frame (length buf))) control_too_large
  m ← or_fail (j.unmarshal buf) bad_message
  guard (not (bytes_eq m.kind [])) no_type
  ok m

abbrev pub b64 : Codec → Bytes → Bytes
b64 codec b = codec.base64_encode b

unfoldable pub unb64 : Codec → Bytes → ℕ → Result Error Bytes
unb64 codec s max = do
  b ← or_fail (codec.base64_decode s) bad_base64
  guard (not (ltb max (length b))) field_too_long
  ok b

-- What an encoding gives, within the size that a frame may have and with a type, is decoded again.
pub decode-encode_message :
    (j : Json) (m : Message) (buf : Bytes)
    → ((x : Bytes) → j.marshal m ≡ some x → j.unmarshal x ≡ some m)
    → bytes_eq m.kind [] ≡ false
    → encode_message j m ≡ ok buf
    → decode_message j buf ≡ ok m
unfolding encode_message decode_message
decode-encode_message j m buf law typed e = elim (Option-cases (j.marshal m)) [
  | inl f ↦ absurd (ground (arith, e, f))
  | inr (x, f) ↦ ground (arith, e, f, law x f, typed)
]

pub unb64-b64 :
    (codec : Codec) (b : Bytes) (max : ℕ)
    → codec.base64_decode (codec.base64_encode b) ≡ some b
    → length b ≤ max
    → unb64 codec (b64 codec b) max ≡ ok b
unfolding unb64
unb64-b64 codec b max law h = ground (arith, law, h)

pub length-unb64 :
    (codec : Codec) (s b : Bytes) (max : ℕ) → unb64 codec s max ≡ ok b → length b ≤ max
unfolding unb64
length-unb64 codec s b max e = ground (arith, e)
