-- ===== src/Rendezvous/Websocket/Delivery.antt =====
-- internal/rendezvous/ws.go: what one side writes on a connection, read by the other side.
use xessenger_cli.Prelude.{
  ℕ, ◌+◌, ◌≤◌, List, [], ◌∷◌, ◌++◌, Bool, true, false, not, Option, Result, ok, length, take, All,
  arith, ◌≡◌, inl, inr, refl, sym, ap, subst, ◌∙◌, Bool-cases,
}
use mathlib.Core.List.{append_assoc}
use xessenger_cli.Prelude.Bytes.{IsByte}
use xessenger_cli.Rendezvous.Websocket.{
  Bytes, op_binary, max_ws_payload, Error, WsConn, new_ws_conn, Op, ◌>>>=◌, write_out, write_frame,
  write_control, write, ping,
}
use xessenger_cli.Rendezvous.Websocket.Header.{Kind, code_of, binary, ping_frame}
use xessenger_cli.Rendezvous.Websocket.Rounds.{Draws}
use xessenger_cli.Rendezvous.Websocket.Sent.{Sent, wire, IsSent, bind_ok}
use xessenger_cli.Rendezvous.Websocket.Stream.{
  data_of-binary, data_of-ping_frame, data_of-binary, data_of-ping_frame,
}
use xessenger_cli.Rendezvous.Websocket.Current.{IsTraffic, data_of, content, wires}
use xessenger_cli.Rendezvous.Websocket.Ends.{read_fully, read_fully-Carries}
use mathlib.Core.List.{append-nil}

-- What a side sends on a connection: the bytes of a `Write`, or a `Ping`.
pub data Sending : Type 0 where
  bytes : Bytes → Sending
  a_ping : Sending

unfoldable pub send_all : List Sending → Op (Unit {0})
unfolding write write_control
send_all [] c = (c, ok tt)
send_all (bytes p ∷ xs) c = (write p >>>= λ n. send_all xs) c
send_all (a_ping ∷ xs) c = (ping >>>= λ u. send_all xs) c

unfoldable pub bytes_of : List Sending → Bytes
bytes_of [] = []
bytes_of (bytes p ∷ xs) = p ++ bytes_of xs
bytes_of (a_ping ∷ xs) = bytes_of xs

-- What one `Write` takes.
abbrev pub Fits : Sending → Type 0
Fits (bytes p) = (length p ≤ max_ws_payload) × All IsByte p
Fits a_ping = Unit

-- What is written is a frame, and nothing else of the connection that a writer sees changes.
pub record Sends (c c' : WsConn) (x : Sent) : Type 0 where
  pub output_is : c'.output ≡ c.output ++ wire c.mask x
  pub mask_is : c'.mask ≡ c.mask
  pub up_is : c'.up ≡ c.up
  pub draw_is : c'.draw ≡ c.draw

pub write_frame-Sends :
    (k : Kind) (payload : Bytes) (c : WsConn)
    → c.up ≡ true
    → Draws c
    → length payload ≤ max_ws_payload
    → All IsByte payload
    → (c' : WsConn) × (x : Sent) × (write_frame (code_of k) payload c ≡ (c', ok tt))
      × Sends c c' x
      × (x.kind ≡ k)
      × (x.payload ≡ payload)
      × IsSent x
unfolding write_frame write_out
write_frame-Sends k payload c up draws fits byte =
    let (key, d, four, key_bytes) = draws c.drawn in
    let x : Sent = record { kind = k; key = key; payload = payload } in
    elim (Bool-cases c.mask) [
      | inl m ↦ (
        record c { output = c.output ++ wire true x; drawn = c.drawn + 1 },
        x,
        ground (arith, m, up, d),
        record { output_is = rw m refl; mask_is = refl; up_is = refl; draw_is = refl },
        refl,
        refl,
        record { four = four; key_bytes = key_bytes; payload_bytes = byte; fits = fits },
      )
      | inr m ↦ (
        record c { output = c.output ++ wire false x },
        x,
        ground (arith, m, up),
        record { output_is = rw m refl; mask_is = refl; up_is = refl; draw_is = refl },
        refl,
        refl,
        record { four = four; key_bytes = key_bytes; payload_bytes = byte; fits = fits },
      )
    ]

-- A sent list of writes and pings is a list of frames that hold the written bytes.
abbrev Delivers : WsConn → (WsConn × Result Error (Unit {0})) → Bytes → Type 0
Delivers c r out =
    (c' : WsConn) × (xs : List Sent) × (r ≡ (c', ok tt))
    × (c'.output ≡ c.output ++ wires c.mask xs)
    × (content xs ≡ out)
    × All IsTraffic xs

write-write_frame :
    (p : Bytes) (c c' : WsConn)
    → length p ≤ max_ws_payload
    → write_frame op_binary p c ≡ (c', ok tt)
    → write p c ≡ (c', ok (length p))
unfolding write
write-write_frame p c c' fits e = ground (arith, fits, e)

Delivers-wire :
    (c c' : WsConn) (x : Sent) (r : WsConn × Result Error (Unit {0})) (out : Bytes)
    → Sends c c' x
    → IsTraffic x
    → Delivers c' r out
    → Delivers c r (data_of x ++ out)
unfolding wires content
Delivers-wire c c' x r out s t (c'', xs, run, written, held, traffic) = (
  c'',
  x ∷ xs,
  run,
  written ∙ rw (s.output_is, s.mask_is) (append_assoc c.output (wire c.mask x) (wires c.mask xs)),
  ap (λ l. data_of x ++ l) held,
  (t, traffic),
)

send_all-Delivers :
    (ss : List Sending) (c : WsConn)
    → c.up ≡ true
    → Draws c
    → All Fits ss
    → Delivers c (send_all ss c) (bytes_of ss)
unfolding send_all bytes_of wires content write_control
send_all-Delivers [] c up draws fits = (c, [], refl, sym (append-nil c.output), refl, tt)
send_all-Delivers (bytes p ∷ ss) c up draws ((short, byte), fits) =
    let (c', x, run, s, k, held, sent) = write_frame-Sends binary p c up draws short byte in
    subst (λ out. Delivers c (send_all (bytes p ∷ ss) c) (out ++ bytes_of ss))
      (data_of-binary x k ∙ held)
      (subst (λ r. Delivers c r (data_of x ++ bytes_of ss))
        (sym (
          bind_ok (write p) (λ n. send_all ss) c c' (length p)
            (write-write_frame p c c' short run)))
        (Delivers-wire c c' x (send_all ss c') (bytes_of ss) s
          (record { sent = sent; kinds = inl k })
          (send_all-Delivers ss c' (s.up_is ∙ up) (λ i. rw (s.draw_is) (draws i)) fits)))
send_all-Delivers (a_ping ∷ ss) c up draws (_, fits) =
    let (c', x, run, s, k, held, sent) =
      write_frame-Sends ping_frame [] c up draws (omega arith) tt in
    subst (λ out. Delivers c (send_all (a_ping ∷ ss) c) (out ++ bytes_of ss))
      (data_of-ping_frame x k)
      (subst (λ r. Delivers c r (data_of x ++ bytes_of ss))
        (sym (bind_ok ping (λ u. send_all ss) c c' tt run))
        (Delivers-wire c c' x (send_all ss c') (bytes_of ss) s
          (record { sent = sent; kinds = inr (inl (k, omega (arith, ap length held))) })
          (send_all-Delivers ss c' (s.up_is ∙ up) (λ i. rw (s.draw_is) (draws i)) fits)))

-- What one side writes on a new connection, pings between the writes included, the side of the other
-- role reads: a buffer of any size within the written bytes is filled with the first of them.
pub read_fully-send_all :
    (client : Bool) (draw draw' : ℕ → Option Bytes) (ss : List Sending) (n : ℕ)
    → Draws (new_ws_conn [] draw client)
    → Draws (new_ws_conn [] draw' (not client))
    → All Fits ss
    → n ≤ length (bytes_of ss)
    → ((send_all ss (new_ws_conn [] draw client)).1 ≡ ok tt)
      × ((read_fully n n
            (new_ws_conn (send_all ss (new_ws_conn [] draw client)).0.output draw' (not client))).1
          ≡ ok (take n (bytes_of ss)))
read_fully-send_all client draw draw' ss n h h' fits within =
    let (c', xs, run, written, held, traffic) =
      send_all-Delivers ss (new_ws_conn [] draw client) refl h fits in
    let (c'', cur, ys, filled, rest, carries) =
      read_fully-Carries n n client (reader c'.output) [] xs (omega arith)
        (record {
          ready = record { role = refl; up = refl; draws = h' };
          left = refl;
          input_is = written;
          key_bytes = tt;
          cur_bytes = tt;
          traffic = traffic;
        })
        (subst (λ l. n ≤ length l) (sym held) within) in
    (
      ap (λ r. r.1) run,
      ap (λ r. (read_fully n n (reader r.0.output)).1) run
          ∙ ap (λ r. r.1) filled
          ∙ ap (λ l. ok (take n l)) held,
    )
  where
    reader : Bytes → WsConn
    reader input = new_ws_conn input draw' (not client)
