-- ===== src/Rendezvous/Websocket/Roles.antt =====
-- internal/rendezvous/ws.go: frames whose masking does not fit the reader's role.
use xessenger_cli.Prelude.{
  ℕ, suc, ◌≤◌, [], ◌++◌, Bool, true, false, some, ok, err, if◌then◌else◌, length, arith, ◌≡◌, ap,
  ◌∙◌,
}
use xessenger_cli.Rendezvous.Websocket.{
  Bytes, max_ws_payload, Error, unmasked_frame, masked_frame, WsConn, proceed, ◌>>>=◌, frame_header,
  check_frame, read_key, returns, goes_on, handle_frame, frame_tail, frame_round, next_frame, read,
}
use xessenger_cli.Rendezvous.Websocket.Header.{Kind, code_of, flag_of}
use xessenger_cli.Rendezvous.Websocket.Sent.{frame_round-frame_tail}

abbrev pub role_error : Bool → Error
role_error masked = if masked then masked_frame else unmasked_frame

frame_tail_refused :
    (op n : ℕ) (masked : Bool) (c : WsConn)
    → n ≤ max_ws_payload
    → c.mask ≡ masked
    → frame_tail op true masked n c ≡ (c, err (role_error masked))
unfolding frame_tail check_frame
frame_tail_refused op n masked c fits role =
    ap (proceed (λ u. read_key masked >>>= λ key. handle_frame op true n key masked))
      (refused masked role)
  where
    refused : (b : Bool) → c.mask ≡ b → check_frame n b c ≡ (c, err (role_error b))
    refused true r = ap (λ x. (c, x)) (ground (arith, r, fits))
    refused false r = ap (λ x. (c, x)) (ground (arith, r, fits))

next_frame_refused :
    (fuel : ℕ) (c c' : WsConn) (e : Error)
    → frame_round c ≡ (c', err e)
    → next_frame (suc fuel) c ≡ (c', err e)
unfolding next_frame
next_frame_refused fuel c c' e h =
    ap (proceed (λ n. elim n [ returns ↦ λ d. (d, ok tt) | goes_on ↦ next_frame fuel ])) h

-- When the next bytes are the header of a final frame with the opcode of a binary, close, ping or pong frame and a length of at most `maxWSPayload`, whose sender masks and the reader's side masks too, or neither does, then `Read` gives no byte and fails with the protocol error of that role.
pub read_refuses :
    (masked : Bool) (k : Kind) (n len : ℕ) (rest : Bytes) (c : WsConn)
    → n ≤ max_ws_payload
    → c.mask ≡ masked
    → c.rem ≡ 0
    → c.input ≡ frame_header (code_of k) (flag_of masked) n ++ rest
    → (read len c).1 ≡ ([], some (role_error masked))
unfolding read
read_refuses masked k n len rest c fits role empty e =
    let r : frame_round c ≡ (record c { input = rest }, err (role_error masked)) =
      frame_round-frame_tail k masked n rest c fits e
      ∙ frame_tail_refused (code_of k) n masked (record c { input = rest }) fits role in
    let run =
      next_frame_refused (length c.input) c (record c { input = rest }) (role_error masked) r in
    ground (arith, empty, run)
