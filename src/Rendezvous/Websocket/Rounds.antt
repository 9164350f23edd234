-- ===== src/Rendezvous/Websocket/Rounds.antt =====
-- internal/rendezvous/ws.go: one round of `nextFrame` on a frame that the other side wrote.
use xessenger_cli.Prelude.{
  ℕ, ◌+◌, ◌≤◌, ◌++◌, Bool, true, false, not, some, ok, if◌then◌else◌, ltb, ◌==◌, length, take, All,
  arith, ◌≡◌, inl, inr, refl, ◌∙◌, Bool-cases,
}
use xessenger_cli.Prelude.Bytes.{IsByte}
use xessenger_cli.Rendezvous.Websocket.{
  Bytes, op_pong, max_control_payload, WsConn, ◌>>>=◌, mask_from, write_out, frame_header,
  write_frame, write_control, read_payload, returns, goes_on, handle_frame, frame_round,
}
use xessenger_cli.Rendezvous.Websocket.Header.{binary, pong_frame, ping_frame}
use xessenger_cli.Rendezvous.Websocket.Sent.{
  Sent, wire, IsSent, bind_ok, key_of, covered, frame_round-key, read_payload-covered,
}

-- What control frames leave as it was.
pub record Moves (c c' : WsConn) (rest : Bytes) : Type 0 where
  pub input_is : c'.input ≡ rest
  pub mask_is : c'.mask ≡ c.mask
  pub up_is : c'.up ≡ c.up
  pub draw_is : c'.draw ≡ c.draw
  pub rem_is : c'.rem ≡ c.rem

-- A CSPRNG that does not fail and gives four bytes when asked for four.
abbrev pub Draws : WsConn → Type 0
Draws c = (i : ℕ) → (key : Bytes) × (c.draw i ≡ some key) × (length key ≡ 4) × All IsByte key

write_frame-Moves :
    (op : ℕ) (payload : Bytes) (c : WsConn)
    → c.up ≡ true
    → Draws c
    → (c' : WsConn) × (write_frame op payload c ≡ (c', ok tt)) × Moves c c' c.input
unfolding write_frame write_out
write_frame-Moves op payload c up draws = elim (Bool-cases c.mask) [
  | inr m ↦ (
    record c { output = c.output ++ (frame_header op 0 (length payload) ++ payload) },
    ground (arith, m, up),
    record { input_is = refl; mask_is = refl; up_is = refl; draw_is = refl; rem_is = refl },
  )
  | inl m ↦
      let (key, d, four, key_bytes) = draws c.drawn in
      (
        record c {
          output =
              c.output
              ++ (frame_header op 128 (length payload) ++ (key ++ mask_from key 0 payload));
          drawn = c.drawn + 1;
        },
        ground (arith, m, up, d),
        record { input_is = refl; mask_is = refl; up_is = refl; draw_is = refl; rem_is = refl },
      )
]

-- A data frame ends the loop if it is not empty; a ping is answered and a pong dropped.
pub binary_round :
    (masked : Bool) (x : Sent) (rest : Bytes) (c : WsConn)
    → IsSent x
    → x.kind ≡ binary
    → c.mask ≡ not masked
    → c.input ≡ wire masked x ++ rest
    → frame_round c ≡ (
      record c {
        input = covered masked x ++ rest;
        rem = length x.payload;
        rmask = key_of masked x;
        rmasked = masked;
        rmask_pos = 0;
      },
      ok (if length x.payload == 0 then goes_on else returns),
    )
unfolding handle_frame
binary_round masked x rest c s k role e = frame_round-key masked x rest c s role e ∙ rw k refl

pub pong_round :
    (masked : Bool) (x : Sent) (rest : Bytes) (c : WsConn)
    → IsSent x
    → x.kind ≡ pong_frame
    → length x.payload ≤ max_control_payload
    → c.mask ≡ not masked
    → c.input ≡ wire masked x ++ rest
    → frame_round c ≡ (record c { input = rest }, ok goes_on)
unfolding handle_frame
pong_round masked x rest c s k fits role e =
    frame_round-key masked x rest c s role e
    ∙ rw (k, not_long)
        (bind_ok (read_payload (length x.payload) (key_of masked x) masked)
          (λ p. λ c'. (c', ok goes_on)) (record c { input = covered masked x ++ rest })
          (record c { input = rest }) x.payload
          (read_payload-covered masked x.key x.payload rest c s.key_bytes s.payload_bytes))
  where
    not_long : ltb max_control_payload (length x.payload) ≡ false
    not_long = ground (arith, fits)

pub ping_round :
    (masked : Bool) (x : Sent) (rest : Bytes) (c : WsConn)
    → IsSent x
    → x.kind ≡ ping_frame
    → length x.payload ≤ max_control_payload
    → c.mask ≡ not masked
    → c.up ≡ true
    → Draws c
    → c.input ≡ wire masked x ++ rest
    → (c' : WsConn) × (frame_round c ≡ (c', ok goes_on)) × Moves c c' rest
unfolding handle_frame write_control
ping_round masked x rest c s k fits role up draws e =
    let (c', sent, moves) =
      write_frame-Moves op_pong (take max_control_payload x.payload) (record c { input = rest }) up
        draws in
    (
      c',
      frame_round-key masked x rest c s role e
          ∙ rw (k, not_long)
              (bind_ok (read_payload (length x.payload) (key_of masked x) masked)
                  (λ p. write_control op_pong p >>>= λ u. λ c''. (c'', ok goes_on))
                  (record c { input = covered masked x ++ rest }) (record c { input = rest })
                  x.payload
                  (read_payload-covered masked x.key x.payload rest c s.key_bytes s.payload_bytes)
                ∙ bind_ok (write_control op_pong x.payload) (λ u. λ c''. (c'', ok goes_on))
                    (record c { input = rest }) c' tt sent),
      record {
        input_is = moves.input_is;
        mask_is = moves.mask_is;
        up_is = moves.up_is;
        draw_is = moves.draw_is;
        rem_is = moves.rem_is;
      },
    )
  where
    not_long : ltb max_control_payload (length x.payload) ≡ false
    not_long = ground (arith, fits)
