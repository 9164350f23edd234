-- ===== src/Examples/Wire.antt =====
-- Messages of internal/proto and internal/transport, at which the wire theorems are applied.
use xessenger_cli.Prelude.{
  ◌≤◌, ◌<◌, ◌^◌, [], ◌∷◌, ◌++◌, All, replicate, ok, err, arith, ◌≡◌, ◌↔◌, refl,
}
use xessenger_cli.Prelude.Bytes.{IsByte, put_uint, uint}
use xessenger_cli.Crypto.{Bytes}
use xessenger_cli.Proto.Frame.{Frame, parse_frame, marshal_frame, known_type, decode_chat_payload}
use xessenger_cli.Proto.Frame.RoundTrip.{IsSendable, parse_frame_iff}
use xessenger_cli.Examples.Sessions.{all_small-All}
use xessenger_cli.Transport.{send, recv_before, recv_before-send, max_frame_size, frame_too_large}

abbrev pinged : Frame
pinged = record { typ = 2; session = 300; sequence = 5; rotation = 1; blob = 7 ∷ 8 ∷ [] }

pinged-IsSendable : IsSendable pinged
unfolding known_type
pinged-IsSendable = record {
  known = refl;
  session_u64 = omega arith;
  sequence_u64 = omega arith;
  rotation_u32 = omega arith;
  fits = omega arith;
}

-- The bytes of that frame.
abbrev wire : Bytes
wire =
    1
    ∷ 2
    ∷ (replicate 6 0 ++ (1 ∷ 44 ∷ (replicate 7 0 ++ (5 ∷ (replicate 3 0 ++ (1 ∷ 7 ∷ 8 ∷ []))))))

wire_parses : parse_frame wire ≡ ok pinged
unfolding parse_frame known_type uint
wire_parses = refl

wire_bytes : All IsByte wire
wire_bytes = all_small-All wire refl

chat_decodes : decode_chat_payload (0 ∷ 1 ∷ 72 ∷ 9 ∷ []) ≡ ok (72 ∷ [])
unfolding decode_chat_payload uint
chat_decodes = refl

parse_frame_iff_example :
    (parse_frame wire ≡ ok pinged) ↔ ((marshal_frame pinged ≡ wire) × IsSendable pinged)
parse_frame_iff_example = parse_frame_iff wire pinged wire_bytes

recv_before-send_example :
    (3 ≤ max_frame_size
      → (w : Bytes) × (send (1 ∷ 2 ∷ 3 ∷ []) ≡ ok w)
        × (recv_before (w ++ (9 ∷ [])) ≡ ok (1 ∷ 2 ∷ 3 ∷ [], 9 ∷ [])))
    × (max_frame_size < 3
        → 3 < 2 ^ 32
        → (send (1 ∷ 2 ∷ 3 ∷ []) ≡ err frame_too_large)
          × (recv_before (put_uint 4 3 ++ (9 ∷ [])) ≡ err frame_too_large))
recv_before-send_example = recv_before-send (1 ∷ 2 ∷ 3 ∷ []) (9 ∷ [])
