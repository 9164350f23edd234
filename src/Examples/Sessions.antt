-- ===== src/Examples/Sessions.antt =====
-- Runs of internal/proto/session.go and replay.go, with the toy primitives.
use xessenger_cli.Prelude.{
  ℕ, ◌+◌, ◌^◌, ◌<◌, [], ◌∷◌, ◌++◌, Bool, true, false, ◌&&◌, ltb, All, replicate, length, none, some,
  ok, err, arith, ◌≡◌, refl,
}
use xessenger_cli.Prelude.Bytes.{IsByte, put_uint, uint}
use xessenger_cli.Crypto.{Bytes, derive_key, aead, random_bytes}
use xessenger_cli.Crypto
use xessenger_cli.Crypto.Toy.{toy, toy_laws}
use xessenger_cli.Proto.Frame.{
  Frame, Error, parse_frame, marshal_frame, marshal_header_only, known_type, auth, bad_epoch,
}
use xessenger_cli.Proto.Frame.RoundTrip.{IsSendable, parse_frame-marshal_frame}
use xessenger_cli.Proto.Replay.{new_window, check}
use xessenger_cli.Proto.Replay.Runs.{answers, history_answers, answers-history_answers, run}
use xessenger_cli.Proto.Session.{
  Session, new_session, open', message_key, decrypt_frame, admit, chain_for_epoch,
}
use xessenger_cli.Proto.Session.Delivery.{Payload, IsPayload}
use xessenger_cli.Proto.Session.Stream.{received}
use xessenger_cli.Proto.Session.Start.{Established, new_session_lem, new_session-received}
use xessenger_cli.Proto.Session.Safety.{seals, opens, closes, apply_all, open'_once}
use xessenger_cli.Proto.Session.Numbers.{sent_numbers, Consecutive, sent_numbers-Consecutive}
use xessenger_cli.Proto.Session.Forgery.{IsLive, IsForged, forged_rotations_lock_out}

abbrev secret : Bytes
secret = replicate 32 3

abbrev hash : Bytes
hash = replicate 32 4

abbrev pub hello : Payload
hello = record { nonce = replicate 12 0; typ = 1; text = 0 ∷ 1 ∷ 65 ∷ [] }

abbrev ping : Payload
ping = record { nonce = replicate 12 1; typ = 2; text = [] }

pub hello-IsPayload : IsPayload hello
unfolding known_type
hello-IsPayload = record { nonce_12 = refl; known = refl; fits = omega arith }

ping-IsPayload : IsPayload ping
unfolding known_type
ping-IsPayload = record { nonce_12 = refl; known = refl; fits = omega arith }

new_session-received_example :
    (a : Session) × (b : Session) × (new_session toy secret hash true ≡ ok a)
    × (new_session toy secret hash false ≡ ok b)
    × (received toy a b (hello ∷ ping ∷ []) ≡ ok (1, 0 ∷ 1 ∷ 65 ∷ []) ∷ ok (2, []) ∷ [])
new_session-received_example =
    new_session-received toy_laws secret hash true (hello ∷ ping ∷ []) (omega arith)
      (hello-IsPayload, (ping-IsPayload, tt)) (omega arith)

-- The two ends of a new session.
both : Established toy_laws secret hash
both = new_session_lem toy_laws secret hash (omega arith)

abbrev alice : Session
alice = both.session true

abbrev bob : Session
bob = both.session false

alice-IsLive : IsLive toy_laws alice
alice-IsLive = record {
  keyed = (both.in_order true).linked.a_keyed;
  up = (both.in_order true).linked.a_open;
}

-- A frame that nobody sealed: its blob is one byte.
abbrev junk : ℕ → Frame
junk e = record { typ = 1; session = alice.session_id; sequence = 0; rotation = e; blob = 0 ∷ [] }

junk-IsSendable : (e : ℕ) → e < 2 ^ 32 → IsSendable (junk e)
unfolding known_type
junk-IsSendable e small = record {
  known = refl;
  session_u64 = (both.in_order true).linked.id_u64;
  sequence_u64 = omega arith;
  rotation_u32 = small;
  fits = omega arith;
}

junk_fails :
    (e : ℕ) (chain : Bytes) → length chain ≡ 32 → decrypt_frame toy chain (junk e) ≡ err auth
unfolding decrypt_frame message_key derive_key Crypto.open' aead
junk_fails e chain h = ground (arith, h)

junk-IsForged : (e : ℕ) → e < 2 ^ 32 → IsForged toy_laws alice e (marshal_frame (junk e))
junk-IsForged e small = record {
  frame = junk e;
  parsed = parse_frame-marshal_frame (junk e) (junk-IsSendable e small);
  session_is = refl;
  rotation_is = refl;
  fails = junk_fails e;
}

zero_epoch : alice.epoch ≡ 0
zero_epoch = (both.from_zero true).1

forged_rotations_lock_out_example :
    (open' toy
      (marshal_frame (junk alice.epoch))
      (open' toy
        (marshal_frame (junk (alice.epoch + 2)))
        (open' toy (marshal_frame (junk (alice.epoch + 1))) alice).0).0).1
    ≡ err bad_epoch
forged_rotations_lock_out_example =
    forged_rotations_lock_out toy_laws alice (marshal_frame (junk (alice.epoch + 1)))
      (marshal_frame (junk (alice.epoch + 2))) (marshal_frame (junk alice.epoch)) (junk alice.epoch)
      alice-IsLive (omega (arith, zero_epoch))
      (junk-IsForged (alice.epoch + 1) (omega (arith, zero_epoch)))
      (junk-IsForged (alice.epoch + 2) (omega (arith, zero_epoch)))
      (parse_frame-marshal_frame (junk alice.epoch)
        (junk-IsSendable alice.epoch (omega (arith, zero_epoch))))
      refl refl

-- A session and a frame for it, as literals.
abbrev receiver : Session
receiver = record {
  session_id = 7;
  send = some (replicate 32 5);
  recv = some (replicate 32 6);
  recv_old = none;
  epoch = 0;
  send_seq = 0;
  recv_win = new_window;
  closed = false;
  initiator = true;
  root = replicate 32 8;
}

abbrev arrived : Bytes
arrived = 1 ∷ 1 ∷ (replicate 7 0 ++ (7 ∷ (replicate 24 0 ++ (65 ∷ replicate 16 9))))

abbrev pub all_small : Bytes → Bool
all_small [] = true
all_small (b ∷ bs) = ltb b 256 && all_small bs

pub all_small-All : (bs : Bytes) → all_small bs ≡ true → All IsByte bs
all_small-All [] h = tt
all_small-All (b ∷ bs) h = (ground (arith, h), all_small-All bs (ground (arith, h)))

arrived_bytes : All IsByte arrived
arrived_bytes = all_small-All arrived refl

opens_arrived : (open' toy arrived receiver).1 ≡ ok (1, 65 ∷ [])
unfolding open' parse_frame known_type chain_for_epoch decrypt_frame admit message_key derive_key
    Crypto.open' aead put_uint uint marshal_header_only check
opens_arrived = refl

open'_once_example :
    (e : Error) × ((open' toy arrived
        (apply_all toy (open' toy arrived (apply_all toy receiver [])).0 (closes ∷ []))).1
      ≡ err e)
unfolding apply_all
open'_once_example =
    open'_once toy receiver [] (closes ∷ []) arrived (1, 65 ∷ []) refl tt (tt, tt) arrived_bytes
      opens_arrived

sent_numbers-Consecutive_example : Consecutive 0 (
    sent_numbers toy receiver
      (seals (some (replicate 12 0)) 1 (65 ∷ []) ∷ opens arrived ∷ seals none 2 [] ∷ []))
sent_numbers-Consecutive_example =
    sent_numbers-Consecutive toy receiver
      (seals (some (replicate 12 0)) 1 (65 ∷ []) ∷ opens arrived ∷ seals none 2 [] ∷ [])
      (omega arith)

answers-history_answers_example :
    answers new_window (5 ∷ 5 ∷ 70000 ∷ 3 ∷ []) ≡ history_answers [] (5 ∷ 5 ∷ 70000 ∷ 3 ∷ [])
answers-history_answers_example =
    answers-history_answers (5 ∷ 5 ∷ 70000 ∷ 3 ∷ [])
      (omega arith, (omega arith, (omega arith, (omega arith, tt))))

fresh : (check (run new_window []) 9).1 ≡ true
unfolding run check
fresh = refl
