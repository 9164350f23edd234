-- ===== src/Rendezvous/Channel/Messaging.antt =====
-- internal/rendezvous/ws.go: a control message from one side of a connection to the other.
use xessenger_cli.Prelude.{
  ℕ, ◌≤◌, ◌<◌, [], ◌∷◌, ◌++◌, Bool, false, not, Option, none, some, ok, ltb, ◌==◌, length, All,
  arith, ◌≡◌, inl, inr, refl, sym, ap, subst, ◌∙◌, Option-cases,
}
use mathlib.Core.List.{append-nil}
use xessenger_cli.Prelude.Bytes.{IsByte, bytes_eq}
use xessenger_cli.Crypto.{Bytes}
use xessenger_cli.Relay.Serve.{max_control_frame}
use xessenger_cli.Rendezvous.Messages.{
  Message, Json, encode_message, decode_message, decode-encode_message,
}
use xessenger_cli.Rendezvous.Channel.{send_message, recv_message, received, from_frame}
use xessenger_cli.Rendezvous.Websocket.{WsConn, new_ws_conn, write_frame, read, op_binary}
use xessenger_cli.Rendezvous.Websocket.Header.{binary}
use xessenger_cli.Rendezvous.Websocket.Rounds.{Draws, binary_round}
use xessenger_cli.Rendezvous.Websocket.Sent.{Sent, wire, covered, key_of}
use xessenger_cli.Rendezvous.Websocket.Current.{IsTraffic, wires, Ready, Carries, read_data-Carries}
use xessenger_cli.Rendezvous.Websocket.Stream.{binary-Carries, next_frame-returns}
use xessenger_cli.Rendezvous.Websocket.Ends.{read-next_frame}
use xessenger_cli.Rendezvous.Websocket.Delivery.{write_frame-Sends}

-- What an encoded message is: at most a control frame.
encode_message_inverse :
    (j : Json) (m : Message) (buf : Bytes)
    → encode_message j m ≡ ok buf
    → (j.marshal m ≡ some buf) × (length buf ≤ max_control_frame)
unfolding encode_message
encode_message_inverse j m buf e = elim (Option-cases (j.marshal m)) [
  | inl f ↦ absurd (ground (arith, e, f))
  | inr (x, f) ↦ (ground (arith, e, f), ground (arith, e, f))
]

-- One data frame on a connection is read whole, and leaves nothing of itself.
read_frame :
    (masked : Bool) (c : WsConn) (x : Sent) (len : ℕ)
    → Ready masked c
    → IsTraffic x
    → x.kind ≡ binary
    → c.rem ≡ 0
    → c.input ≡ wires masked (x ∷ [])
    → 0 < length x.payload
    → length x.payload ≤ len
    → (c' : WsConn) × (read len c ≡ (c', (x.payload, none))) × (c'.rem ≡ 0)
unfolding wires
read_frame masked c x len r t k empty e some_bytes fits =
    let full : (length x.payload == 0) ≡ false = ground (arith, some_bytes) in
    let framed : WsConn = record c {
      input = covered masked x ++ [];
      rem = length x.payload;
      rmask = key_of masked x;
      rmasked = masked;
      rmask_pos = 0;
    } in
    let carried : Carries masked framed x.payload [] = binary-Carries masked c x [] r t tt in
    let (c', got, carries) =
      read_data-Carries masked framed x.payload [] [] len
        (subst (λ l. Carries masked framed l []) (sym (append-nil x.payload)) carried)
        (omega (arith, ap length (append-nil x.payload), fits)) in
    (
      c',
      read-next_frame len c framed empty (
            next_frame-returns (length c.input) c framed
              (binary_round masked x [] c t.sent k r.role e ∙ rw full refl))
          ∙ got,
      carries.left,
    )

received_whole :
    (j : Json) (c : WsConn) (buf : Bytes) (m : Message)
    → c.rem ≡ 0
    → decode_message j buf ≡ ok m
    → (received j (c, (buf, none))).1 ≡ ok m
received_whole j c buf m empty e =
    let none_left : ltb 0 c.rem ≡ false = ground (arith, empty) in rw (none_left, e) refl

recv_message-read :
    (j : Json) (c c' : WsConn) (buf : Bytes) (m : Message)
    → read max_control_frame c ≡ (c', (buf, none))
    → c'.rem ≡ 0
    → decode_message j buf ≡ ok m
    → (recv_message j c).1 ≡ ok m
unfolding recv_message
recv_message-read j c c' buf m e empty d =
    ap (λ r. (received j r).1) e ∙ received_whole j c' buf m empty d

send_message-write_frame :
    (j : Json) (m : Message) (buf : Bytes) (c c' : WsConn)
    → encode_message j m ≡ ok buf
    → write_frame op_binary buf c ≡ (c', ok tt)
    → send_message j m c ≡ (c', ok tt)
unfolding send_message
send_message-write_frame j m buf c c' e run =
    rw (send_message, e) (ap (λ r. (r.0, from_frame r.1)) run)

-- A control message with a type, whose encoding is not empty, fits a control frame and is decoded by JSON, is sent in one frame on a new connection in either role, and the side of the other role receives it.
pub recv_message-send_message :
    (j : Json) (m : Message) (buf : Bytes) (client : Bool) (draw draw' : ℕ → Option Bytes)
    → encode_message j m ≡ ok buf
    → ((x : Bytes) → j.marshal m ≡ some x → j.unmarshal x ≡ some m)
    → bytes_eq m.kind [] ≡ false
    → 0 < length buf
    → All IsByte buf
    → Draws (new_ws_conn [] draw client)
    → Draws (new_ws_conn [] draw' (not client))
    → (let (c, r) = send_message j m (new_ws_conn [] draw client) in
        (r ≡ ok tt) × ((recv_message j (new_ws_conn c.output draw' (not client))).1 ≡ ok m))
unfolding wires
recv_message-send_message j m buf client draw draw' e law typed some_bytes byte h h' =
    let (marshalled, small) = encode_message_inverse j m buf e in
    let (c', x, run, s, k, held, sent) =
      write_frame-Sends binary buf (new_ws_conn [] draw client) refl h (omega (arith, small))
        byte in
    let reader : WsConn = new_ws_conn c'.output draw' (not client) in
    let (c'', got, empty) =
      read_frame client reader x max_control_frame (record { role = refl; up = refl; draws = h' })
        (record { sent = sent; kinds = inl k }) k refl
        (s.output_is ∙ sym (append-nil (wire client x))) (omega (arith, ap length held, some_bytes))
        (omega (arith, ap length held, small)) in
    let done = send_message-write_frame j m buf (new_ws_conn [] draw client) c' e run in
    (
      ap (λ r. r.1) done,
      ap (λ r. (recv_message j (new_ws_conn r.0.output draw' (not client))).1) done
          ∙ recv_message-read j reader c'' x.payload m got empty (
              subst (λ b. decode_message j b ≡ ok m) (sym held)
                (decode-encode_message j m buf law typed e)),
    )
