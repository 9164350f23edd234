-- ===== src/Examples/Sockets.antt =====
-- Runs of internal/rendezvous/ws.go.
use xessenger_cli.Prelude.{
  ℕ, List, [], ◌∷◌, Bool, true, false, Option, some, ok, arith, ◌≡◌, ◌≢◌, refl,
}
use xessenger_cli.Rendezvous.Websocket.{
  Bytes, WsConn, new_ws_conn, out_of_fuel, unmasked_frame, read, frame_header,
}
use xessenger_cli.Rendezvous.Messages.{Json, bare, msg_bye, encode_message}
use xessenger_cli.Rendezvous.Channel.{send_message, recv_message}
use xessenger_cli.Rendezvous.Channel.Messaging.{recv_message-send_message}
use xessenger_cli.Rendezvous.Websocket.Header.{binary}
use xessenger_cli.Rendezvous.Websocket.Rounds.{Draws}
use xessenger_cli.Rendezvous.Websocket.Ends.{read_fully}
use xessenger_cli.Rendezvous.Websocket.Delivery.{
  Sending, bytes, a_ping, send_all, bytes_of, read_fully-send_all,
}
use xessenger_cli.Rendezvous.Websocket.Totality.{read_ends}
use xessenger_cli.Rendezvous.Websocket.Roles.{read_refuses}

abbrev draw : ℕ → Option Bytes
draw i = some (1 ∷ 2 ∷ 3 ∷ 4 ∷ [])

draws : (input : Bytes) (client : Bool) → Draws (new_ws_conn input draw client)
draws input client i =
    (1 ∷ 2 ∷ 3 ∷ 4 ∷ [], refl, refl, (omega arith, (omega arith, (omega arith, (omega arith, tt)))))

abbrev sent : List Sending
sent = bytes (72 ∷ 105 ∷ []) ∷ a_ping ∷ bytes (33 ∷ 33 ∷ []) ∷ []

abbrev client_conn : WsConn
client_conn = new_ws_conn [] draw true

read_fully-send_all_example :
    ((send_all sent client_conn).1 ≡ ok tt)
    × ((read_fully 3 3 (new_ws_conn (send_all sent client_conn).0.output draw false)).1
        ≡ ok (72 ∷ 105 ∷ 33 ∷ []))
unfolding bytes_of
read_fully-send_all_example =
    read_fully-send_all true draw draw sent 3 (draws [] true) (draws [] false)
      (
        (omega arith, (omega arith, (omega arith, tt))),
        (tt, ((omega arith, (omega arith, (omega arith, tt))), tt)),
      )
      (omega arith)

-- Two pings and a piece of a frame.
abbrev pings : Bytes
pings = 137 ∷ 0 ∷ 137 ∷ 0 ∷ 130 ∷ []

read_ends_example : (read 8 (new_ws_conn pings draw true)).1.1 ≢ some out_of_fuel
read_ends_example = read_ends 8 (new_ws_conn pings draw true)

-- A frame of one byte that its sender did not mask, for a server.
read_refuses_example :
    (read 8 (new_ws_conn (130 ∷ 1 ∷ 65 ∷ []) draw false)).1 ≡ ([], some unmasked_frame)
unfolding frame_header
read_refuses_example =
    read_refuses false binary 1 8 (65 ∷ []) (new_ws_conn (130 ∷ 1 ∷ 65 ∷ []) draw false)
      (omega arith) refl refl refl

-- JSON that keeps the type of a message alone.
abbrev kind_json : Json
kind_json = record { marshal = λ m. some m.kind; unmarshal = λ b. some (bare b) }

goodbye : encode_message kind_json (bare msg_bye) ≡ ok msg_bye
unfolding encode_message
goodbye = refl

recv_message-send_message_example :
    ((send_message kind_json (bare msg_bye) client_conn).1 ≡ ok tt)
    × ((recv_message kind_json
          (new_ws_conn (send_message kind_json (bare msg_bye) client_conn).0.output draw false)).1
        ≡ ok (bare msg_bye))
recv_message-send_message_example =
    recv_message-send_message kind_json (bare msg_bye) msg_bye true draw draw goodbye reads_back
      refl (omega arith) (omega arith, (omega arith, (omega arith, tt))) (draws [] true)
      (draws [] false)
  where
    reads_back : (x : List ℕ) → some msg_bye ≡ some x → some (bare x) ≡ some (bare msg_bye)
    reads_back x h = cc
