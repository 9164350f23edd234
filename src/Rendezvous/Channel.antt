-- ===== src/Rendezvous/Channel.antt =====
-- internal/rendezvous/ws.go: control messages over a WebSocket connection. The write deadline is not
-- modelled.
pub mod Messaging
use xessenger_cli.Prelude.{
  ℕ, zero, suc, ◌+◌, ◌-◌, ◌*◌, ◌/◌, ◌%◌, ◌^◌, ◌≤◌, ◌<◌, List, [], ◌∷◌, ◌++◌, map, Bool, true, false,
  not, ◌&&◌, ◌||◌, Option, none, some, Result, ok, err, guard, or_fail, ◌>>=◌, ◌>>◌, if◌then◌else◌,
  if_elim, ltb, leb, ◌==◌, length, get_or, set, take, drop, replicate, All, arith, ◌≡◌, ◌≢◌, ◌↔◌,
  ◌⊎◌, inl, inr, refl, sym, ap, subst, ◌∙◌, Bool-cases, Option-cases, Result-cases, ltb→lt, lt→ltb,
  ltb-false, ltb_false→le, leb→le, ==_iff, ==_refl, length-append, length-take, length-drop,
  take-append, drop-append, take-append-drop, take_all, drop_all, String,
}
use xessenger_cli.Relay.Serve.{max_control_frame}
use xessenger_cli.Rendezvous.Messages
use xessenger_cli.Rendezvous.Messages.{Message, Json, encode_message, decode_message}
use xessenger_cli.Rendezvous.Websocket
use xessenger_cli.Rendezvous.Websocket.{WsConn, write_frame, read, op_binary}

pub data Error : Type 0 where
  in_message : Messages.Error → Error
  in_frame : Websocket.Error → Error

abbrev pub from_message {ℓ} : {A : Type ℓ} → Result Messages.Error A → Result Error A
from_message (ok a) = ok a
from_message (err e) = err (in_message e)

abbrev pub from_frame {ℓ} : {A : Type ℓ} → Result Websocket.Error A → Result Error A
from_frame (ok a) = ok a
from_frame (err e) = err (in_frame e)

unfoldable pub send_message : Json → Message → WsConn → WsConn × Result Error (Unit {0})
send_message j m c = elim (encode_message j m) [
  | err e ↦ (c, err (in_message e))
  | ok buf ↦ let (c', r) = write_frame op_binary buf c in (c', from_frame r)
]

-- What `RecvMessage` makes of what `Read` gave.
abbrev pub received :
    Json → WsConn × (List ℕ × Option Websocket.Error) → WsConn × Result Error Message
received j (c, (buf, some e)) = (c, err (in_frame e))
received j (c, (buf, none)) =
    if ltb 0 c.rem
    then (c, err (in_message Messages.control_too_large))
    else (c, from_message (decode_message j buf))

unfoldable pub recv_message : Json → WsConn → WsConn × Result Error Message
unfolding read
recv_message j c = received j (read max_control_frame c)
