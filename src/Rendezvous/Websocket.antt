-- ===== src/Rendezvous/Websocket.antt =====
-- internal/rendezvous/ws.go: RFC 6455 frames under a relay connection. A connection is the bytes that
-- have arrived on it and are not read yet, those written to it so far, and the reader's state; `up`
-- says whether writes succeed, and `draw i` is what the CSPRNG gives the draw number `i`. The end of
-- the arrived bytes is the end of the stream. The HTTP upgrade and the deadlines are not modelled.
use xessenger_cli.Prelude.{
  ℕ, zero, suc, ◌+◌, ◌-◌, ◌*◌, ◌/◌, ◌%◌, ◌^◌, ◌≤◌, ◌<◌, List, [], ◌∷◌, ◌++◌, map, Bool, true, false,
  not, ◌&&◌, ◌||◌, Option, none, some, Result, ok, err, guard, or_fail, ◌>>=◌, ◌>>◌, if◌then◌else◌,
  if_elim, ltb, leb, ◌==◌, length, get_or, set, take, drop, replicate, All, arith, ◌≡◌, ◌≢◌, ◌↔◌,
  ◌⊎◌, inl, inr, refl, sym, ap, subst, ◌∙◌, Bool-cases, Option-cases, Result-cases, ltb→lt, lt→ltb,
  ltb-false, ltb_false→le, leb→le, ==_iff, ==_refl, length-append, length-take, length-drop,
  take-append, drop-append, take-append-drop, take_all, drop_all, String,
}
pub mod Header
pub mod Sent
pub mod Rounds
pub mod Current
pub mod Stream
pub mod Ends
pub mod Delivery
pub mod Steady
pub mod Totality
pub mod Roles
use Prim.Native.Nat.{bit_and, bit_or, bit_xor, min}
use xessenger_cli.Prelude.Bytes.{put_uint, uint, slice}

abbrev pub Bytes : Type 0
Bytes = List ℕ

abbrev pub op_continuation : ℕ
op_continuation = 0

abbrev pub op_text : ℕ
op_text = 1

abbrev pub op_binary : ℕ
op_binary = 2

abbrev pub op_close : ℕ
op_close = 8

abbrev pub op_ping : ℕ
op_ping = 9

abbrev pub op_pong : ℕ
op_pong = 10

abbrev pub max_ws_payload : ℕ
max_ws_payload = 1049600

abbrev pub max_control_payload : ℕ
max_control_payload = 125

-- `reserved_bits` to `bad_opcode` are the cases of `ErrWSProtocol`; `eof` is also a read that came
-- short, and `out_of_fuel` is the model's own.
pub data Error : Type 0 where
  reserved_bits frame_too_large unmasked_frame masked_frame unexpected_text : Error
  malformed_ping malformed_pong bad_opcode outbound_too_large : Error
  eof write_failed csprng_failed out_of_fuel : Error

pub record WsConn : Type 0 where
  pub mask : Bool
  pub input : Bytes
  pub output : Bytes
  pub up : Bool
  pub draw : ℕ → Option Bytes
  pub drawn : ℕ
  pub rem : ℕ
  pub rmask : Bytes
  pub rmasked : Bool
  pub rmask_pos : ℕ

abbrev pub new_ws_conn : Bytes → (ℕ → Option Bytes) → Bool → WsConn
new_ws_conn input draw client = record {
  mask = client;
  input = input;
  output = [];
  up = true;
  draw = draw;
  drawn = 0;
  rem = 0;
  rmask = [];
  rmasked = false;
  rmask_pos = 0;
}

abbrev pub Op {ℓ} : Type ℓ → Type ℓ
Op A = WsConn → WsConn × Result Error A

abbrev pub proceed {ℓ κ} :
    {A : Type ℓ} {B : Type κ} → (A → Op B) → WsConn × Result Error A → WsConn × Result Error B
proceed f (c, ok a) = f a c
proceed f (c, err e) = (c, err e)

infixl 5 ◌>>>=◌
abbrev pub ◌>>>=◌ {ℓ κ} : {A : Type ℓ} {B : Type κ} → Op A → (A → Op B) → Op B
◌>>>=◌ m f c = proceed f (m c)

-- The loop that masks or unmasks a buffer, from a place of the key on.
unfoldable pub mask_from : Bytes → ℕ → Bytes → Bytes
mask_from key pos [] = []
mask_from key pos (b ∷ bs) = bit_xor b (get_or key (pos % 4) 0) ∷ mask_from key (pos + 1) bs

-- `c.conn.Write`
unfoldable pub write_out : Bytes → Op (Unit {0})
write_out out c =
    if c.up then (record c { output = c.output ++ out }, ok tt) else (c, err write_failed)

-- The header of a frame; `flag` is the bit that says that it is masked.
unfoldable pub frame_header : ℕ → ℕ → ℕ → Bytes
frame_header opcode flag n =
    if ltb n 126
    then bit_or 128 opcode ∷ bit_or n flag ∷ []
    else if leb n 65535
    then bit_or 128 opcode ∷ bit_or 126 flag ∷ put_uint 2 n
    else bit_or 128 opcode ∷ bit_or 127 flag ∷ put_uint 8 n

unfoldable pub write_frame : ℕ → Bytes → Op (Unit {0})
unfolding write_out mask_from frame_header
write_frame opcode payload c =
    if c.mask
    then (elim (c.draw c.drawn) [
      | none ↦ (record c { drawn = c.drawn + 1 }, err csprng_failed)
      | some key ↦
          write_out (frame_header opcode 128 (length payload) ++ (key ++ mask_from key 0 payload))
            (record c { drawn = c.drawn + 1 })
    ])
    else write_out (frame_header opcode 0 (length payload) ++ payload) c

unfoldable pub write_control : ℕ → Bytes → Op (Unit {0})
unfolding write_frame
write_control opcode payload c = write_frame opcode (take max_control_payload payload) c

-- `Write`, and `Ping`.
unfoldable pub write : Bytes → Op ℕ
unfolding write_frame
write p c =
    if ltb max_ws_payload (length p)
    then (c, err outbound_too_large)
    else (let (c', r) = write_frame op_binary p c in
        elim r [ ok u ↦ (c', ok (length p)) | err e ↦ (c', err e) ])

abbrev pub ping : Op (Unit {0})
ping c = write_control op_ping [] c

-- `io.ReadFull` of `n` bytes; one that comes short has taken what there was.
unfoldable pub read_full : ℕ → Op Bytes
read_full n c =
    if ltb (length c.input) n
    then (record c { input = [] }, err eof)
    else (record c { input = drop n c.input }, ok (take n c.input))

unfoldable pub read_payload : ℕ → Bytes → Bool → Op Bytes
unfolding read_full
read_payload n key masked c =
    if n == 0
    then (c, ok [])
    else (let (c', r) = read_full n c in
        elim r [
          | ok buf ↦ (c', ok (if masked then mask_from key 0 buf else buf))
          | err e ↦ (c', err e)
        ])

-- The length that the second header byte announces, read on where it is extended.
unfoldable pub read_length : ℕ → Op ℕ
unfolding read_full
read_length small c =
    if small == 126
    then (let (c', r) = read_full 2 c in
        elim r [ ok ext ↦ (c', ok (uint ext)) | err e ↦ (c', err e) ])
    else if small == 127
    then (let (c', r) = read_full 8 c in
        elim r [ ok ext ↦ (c', ok (uint ext)) | err e ↦ (c', err e) ])
    else (c, ok small)

-- The checks of a length and of the masking role.
unfoldable pub check_frame : ℕ → Bool → Op (Unit {0})
check_frame n masked c = (
  c,
  (do
    guard (not (ltb max_ws_payload n)) frame_too_large
    guard (c.mask || masked) unmasked_frame
    guard (not (c.mask && masked)) masked_frame),
)

-- The key of a masked frame.
unfoldable pub read_key : Bool → Op Bytes
unfolding read_full
read_key masked c = if masked then read_full 4 c else (c, ok (0 ∷ 0 ∷ 0 ∷ 0 ∷ []))

-- Whether the loop of `nextFrame` returns or goes round again.
pub data Next : Type 0 where
  returns goes_on : Next

-- The switch of `nextFrame` on the opcode.
unfoldable pub handle_frame : ℕ → Bool → ℕ → Bytes → Bool → Op Next
unfolding read_payload write_control
handle_frame opcode fin n key masked c =
    if (opcode == op_binary) || (opcode == op_continuation)
    then (
      record c { rem = n; rmask = key; rmasked = masked; rmask_pos = 0 },
      ok (if n == 0 then goes_on else returns),
    )
    else if opcode == op_text
    then (c, err unexpected_text)
    else if opcode == op_close
    then (read_payload n key masked >>>= λ p. λ c'. ((write_control op_close [] c').0, err eof)) c
    else if opcode == op_ping
    then (if ltb max_control_payload n || not fin
        then (c, err malformed_ping)
        else (read_payload n key masked >>>= λ p.
              write_control op_pong p >>>= λ u. λ c'. (c', ok goes_on))
            c)
    else if opcode == op_pong
    then (if ltb max_control_payload n || not fin
        then (c, err malformed_pong)
        else (read_payload n key masked >>>= λ p. λ c'. (c', ok goes_on)) c)
    else (c, err bad_opcode)

-- The rest of a round of `nextFrame` once the length is read, and the round after its header bytes.
unfoldable pub frame_tail : ℕ → Bool → Bool → ℕ → Op Next
unfolding check_frame read_key handle_frame
frame_tail opcode fin masked n =
    check_frame n masked >>>= λ u. read_key masked >>>= λ key. handle_frame opcode fin n key masked

unfoldable pub frame_body : ℕ → ℕ → Op Next
unfolding read_length frame_tail
frame_body b0 b1 c =
    if not (bit_and b0 112 == 0)
    then (c, err reserved_bits)
    else (read_length (bit_and b1 127)
          >>>= frame_tail (bit_and b0 15) (not (bit_and b0 128 == 0)) (not (bit_and b1 128 == 0)))
        c

unfoldable pub frame_round : Op Next
unfolding read_full frame_body
frame_round c = (read_full 2 >>>= λ hdr. frame_body (get_or hdr 0 0) (get_or hdr 1 0)) c

unfoldable pub next_frame : ℕ → Op (Unit {0})
unfolding frame_round
next_frame zero c = (c, err out_of_fuel)
next_frame (suc fuel) c =
    (frame_round >>>= λ n. elim n [ returns ↦ λ c'. (c', ok tt) | goes_on ↦ next_frame fuel ]) c

-- What `Read` gives: the bytes, with an error if there was one.
abbrev pub Got : Type 0
Got = Bytes × Option Error

-- The branch of `Read` for a current frame with bytes left.
unfoldable pub read_data : ℕ → WsConn → WsConn × Got
unfolding mask_from
read_data len c =
    let buf = take (min len c.rem) c.input in
    (
      record c {
        input = drop (min len c.rem) c.input;
        rem = c.rem - length buf;
        rmask_pos = if c.rmasked then c.rmask_pos + length buf else c.rmask_pos;
      },
      (
        (if c.rmasked then mask_from c.rmask c.rmask_pos buf else buf),
        (if ltb (length c.input) (min len c.rem) then some eof else none),
      ),
    )

-- `Read` into a buffer of `len` bytes. A round of `nextFrame` takes two bytes at least, so the length
-- of the input is fuel enough, and after it the current frame has bytes left.
unfoldable pub read : ℕ → WsConn → WsConn × Got
unfolding next_frame read_data
read len c =
    if ltb 0 c.rem
    then read_data len c
    else (let (c', r) = next_frame (suc (length c.input)) c in
        elim r [ ok u ↦ read_data len c' | err e ↦ (c', ([], some e)) ])
