-- ===== src/Examples/Managers.antt =====
-- Runs of internal/session/manager.go, with the toy primitives.
use xessenger_cli.Prelude.{
  ℕ, ◌<◌, List, [], ◌∷◌, ◌++◌, true, false, none, some, ok, err, replicate, arith, ◌≡◌, ◌≢◌, refl,
  ap,
}
use mathlib.Core.List.Permᴰ.{swap}
use xessenger_cli.Prelude.Bytes.{put_uint, uint}
use xessenger_cli.Prelude.Assoc.{lookup, insert}
use xessenger_cli.Crypto
use xessenger_cli.Crypto.{Bytes, codes, derive_key, aead, random_bytes}
use xessenger_cli.Crypto.Toy.{toy}
use xessenger_cli.Peers.{trust_unknown}
use xessenger_cli.Proto.Frame.{marshal_frame, parse_frame, known_type, type_pair_confirm}
use xessenger_cli.Proto.Session
use xessenger_cli.Proto.Replay.{check}
use xessenger_cli.Proto.Session.{Session, blank_session, open', new_session}
use xessenger_cli.Proto.Handshake.{
  handle_init, handle_auth_responder, agree, derive_shared, seal_auth, open_auth, check_peer,
  result_of, Identity, HandshakeResult, hs_type_init, marshal_auth, marshal_auth_plain,
  handle_message, pair_confirm, verify_pair_confirm, seal_pair_confirm,
}
use xessenger_cli.Manager.{
  Conn, Manager, recv_failed, register, enter, put, announce, send, drop_conn, refuses,
  keepalive_tick, trust_of,
}
use xessenger_cli.Manager.Shake.{
  FrameIo, AdoptOptions, Drawn, run_handshake, run_agreed, run_confirmed, adopt_peer, exchange,
  exchange_responder, recv_frame, send_frame, step_of, require, confirm_pairing, await_proof,
}
use xessenger_cli.Manager.Registry.{IsWf, IsSound}
use xessenger_cli.Manager.Sections.{
  System, unrun, done_closed, set_stage, on_manager, close_done, IsFresh, register_begins,
  drop_begins, registers, Run, here, next,
}
use xessenger_cli.Manager.Consistent.{new_manager, new_system, IsConsistent}
use xessenger_cli.Manager.Reachable.{Run-IsConsistent}
use xessenger_cli.Manager.Deadlock.{register_drop_deadlock}
use xessenger_cli.Manager.Trace.{Untouched, run_handshake-Untouched}
use xessenger_cli.Manager.Invite.{Proved, run_handshake-Proved}
use xessenger_cli.Manager.Duplicates.{IsNew, kept_session, register_all, least, register_all-least}
use xessenger_cli.Manager.Quiet.{idle, sending}
use xessenger_cli.Manager.Keepalive.{Ticks, before, tick, ticks_drop}
use xessenger_cli.Manager.Stale.{register_stale}
use xessenger_cli.Manager.Once.{announce-drop_conn_once}
use xessenger_cli.Manager.Connections.{register-IsWf}

abbrev secret : Bytes
secret = replicate 32 3

abbrev key : Bytes
key = replicate 32 8

abbrev nobody : Conn
nobody = record {
  fp = [];
  name = [];
  addr = [];
  path = [];
  trust = trust_unknown;
  sess = blank_session 0 false [];
  queue = [];
  written = [];
  done = false;
  unanswered = 0;
  announced = false;
}

abbrev me : Identity
me = record { name = codes "bob"; public_key = secret; private_key = some secret }

abbrev fresh : Manager
fresh = new_manager me [] nobody

nobody-IsSound : IsSound nobody
nobody-IsSound = ((λ e. e), omega arith)

abbrev drawn : Drawn
drawn = record { eph = some secret; auth = some (replicate 12 0); confirm = some (replicate 12 1) }

abbrev code : Bytes
code = replicate 32 6

abbrev opts : AdoptOptions
opts = record { initiator = false; pairing_key = code; path = [] }

-- What a peer sends that takes part as the initiator: its two messages and its confirmation.
abbrev msg1 : Bytes
msg1 = hs_type_init ∷ (put_uint 2 32 ++ secret)

abbrev msg3 : Bytes
msg3 =
    marshal_auth secret
      (replicate 12 0 ++ (marshal_auth_plain key (codes "a") (replicate 64 7) ++ replicate 16 9))

abbrev proof_frame : Bytes
proof_frame = marshal_frame (record {
  typ = type_pair_confirm;
  session = 6365935209750747224;
  sequence = 0;
  rotation = 0;
  blob = replicate 12 0 ++ (replicate 32 155 ++ replicate 16 9);
})

abbrev connection : List Bytes → FrameIo
connection inbox = record { inbox = inbox; outbox = []; up = true; remote_addr = codes "1.2.3.4:5" }

abbrev proves : FrameIo
proves = connection (msg1 ∷ msg3 ∷ proof_frame ∷ [])

-- The peer stops before its confirmation.
abbrev stalls : FrameIo
stalls = connection (msg1 ∷ msg3 ∷ [])

accepted : (run_handshake toy drawn 5 true opts proves fresh).1 ≡ ok tt
unfolding run_handshake run_agreed exchange exchange_responder recv_frame send_frame step_of require
    handle_message handle_init handle_auth_responder agree derive_shared seal_auth open_auth
    check_peer result_of new_session derive_key Crypto.seal Crypto.open' aead random_bytes uint
    put_uint confirm_pairing await_proof pair_confirm verify_pair_confirm seal_pair_confirm
    run_confirmed adopt_peer Session.seal Session.open' parse_frame marshal_frame Session.epoch_keys
    Session.epoch_seed Session.message_key known_type check
accepted = refl

refused : (run_handshake toy drawn 5 true opts stalls fresh).1 ≡ err recv_failed
unfolding run_handshake run_agreed exchange exchange_responder recv_frame send_frame step_of require
    handle_message handle_init handle_auth_responder agree derive_shared seal_auth open_auth
    check_peer result_of new_session derive_key Crypto.seal Crypto.open' aead random_bytes uint
    put_uint confirm_pairing await_proof pair_confirm verify_pair_confirm seal_pair_confirm
    run_confirmed adopt_peer Session.seal Session.open' parse_frame marshal_frame Session.epoch_keys
    Session.epoch_seed Session.message_key known_type check
refused = refl

run_handshake-Untouched_example :
    Untouched fresh (run_handshake toy drawn 5 true opts stalls fresh).0
run_handshake-Untouched_example =
    run_handshake-Untouched toy drawn 5 opts stalls fresh recv_failed refused

run_handshake-Proved_example :
    (res : HandshakeResult) × (io : FrameIo) × (exchange toy drawn me false proves ≡ (io, ok res))
    × Proved toy code res.transcript io.inbox
        (seal_pair_confirm toy (some (replicate 12 1)) code res.transcript res.session).0
run_handshake-Proved_example =
    run_handshake-Proved toy drawn 5 true opts proves fresh (omega arith) accepted

-- Two connections to one peer, of sessions 7 and 3.
abbrev to_peer : ℕ → Conn
to_peer n = record nobody { fp = codes "f"; name = codes "a"; sess = blank_session n false [] }

register_all-least_example :
    (kept_session (codes "f") (register_all (to_peer 7 ∷ to_peer 3 ∷ []) fresh)
      ≡ least (7 ∷ 3 ∷ []))
    × (kept_session (codes "f") (register_all (to_peer 3 ∷ to_peer 7 ∷ []) fresh)
        ≡ kept_session (codes "f") (register_all (to_peer 7 ∷ to_peer 3 ∷ []) fresh))
unfolding lookup
register_all-least_example =
    register_all-least (codes "f") (codes "f") (to_peer 7 ∷ to_peer 3 ∷ [])
      (to_peer 3 ∷ to_peer 7 ∷ []) fresh fresh refl refl (new 7, (new 3, tt)) (new 3, (new 7, tt))
      (swap refl refl)
  where
    new : (n : ℕ) → IsNew (codes "f") (to_peer n)
    new n = record { fp_is = refl; quiet = refl; answered = refl }

fresh-IsWf : IsWf fresh
unfolding lookup
fresh-IsWf = record {
  tidy = record {
    sound = λ i. nobody-IsSound;
    named = λ n i h. absurd (ground (arith, h));
    few_events = omega arith;
  };
  registered = λ k i h. absurd (ground (arith, h));
  current = λ i (l, d). absurd (omega (arith, l));
}

-- A manager with one connection.
abbrev with_peer : Manager
with_peer = (register (to_peer 7) fresh).0

with_peer-IsWf : IsWf with_peer
with_peer-IsWf = register-IsWf (to_peer 7) fresh refl ((λ e. e), omega arith) fresh-IsWf

one_peer : 0 < with_peer.count
unfolding register lookup enter put
one_peer = omega arith

-- The user sends before the last of four ticks, and the write loop writes it.
abbrev silent : Manager
silent = keepalive_tick toy none 0 (keepalive_tick toy none 0 (keepalive_tick toy none 0 with_peer))

abbrev chatted : Manager
chatted = (send toy none (codes "a") (codes "hi") silent).0

four_ticks : Ticks toy 0 with_peer 4 (keepalive_tick toy none 0 chatted)
four_ticks =
    tick none
      (tick none (tick none (tick none (before idle) idle) idle)
        (sending idle none (codes "a") (codes "hi")))
      idle

ticks_drop_example :
    (((keepalive_tick toy none 0 chatted).heap 0).done ≡ true)
    × ((k : Bytes) → lookup k (keepalive_tick toy none 0 chatted).conns ≢ some 0)
ticks_drop_example =
    ticks_drop toy 4 0 with_peer (keepalive_tick toy none 0 chatted) one_peer with_peer-IsWf
      (omega arith) four_ticks

nobody-IsFresh : (n : ℕ) → IsFresh (to_peer n)
nobody-IsFresh n = record { open_ = refl; empty = refl }

abbrev empty_system : System
empty_system = new_system fresh

abbrev one_system : System
one_system = register_begins (to_peer 7) empty_system

-- A connection whose drop has begun when another one of the same peer comes to replace it.
abbrev late : System
late = register_begins (to_peer 3) (set_stage 0 done_closed (on_manager (close_done 0) one_system))

one_there : lookup (codes "f") one_system.manager.conns ≡ some 0
unfolding register_begins lookup enter put insert
one_there = refl

one_counted : 0 < one_system.manager.count
unfolding register_begins lookup enter put
one_counted = omega arith

one_unrun : one_system.stages 0 ≡ unrun
unfolding register_begins lookup
one_unrun = refl

one_idle : one_system.replacing ≡ none
unfolding register_begins lookup
one_idle = refl

three_wins : refuses (one_system.manager.heap 0) (to_peer 3) ≡ false
unfolding register_begins lookup enter put
three_wins = refl

still_idle : (set_stage 0 done_closed (on_manager (close_done 0) one_system)).replacing ≡ none
still_idle = one_idle

Run-IsConsistent_example : IsConsistent late
Run-IsConsistent_example =
    Run-IsConsistent toy me [] nobody late (record { open_ = refl; empty = refl })
      (next
        (next (next here (registers (to_peer 7) (nobody-IsFresh 7) refl))
          (drop_begins 0 one_counted one_unrun))
        (registers (to_peer 3) (nobody-IsFresh 3) still_idle))

register_drop_deadlock_example :
    (t : System) × Run toy one_system t
    × (t.replacing ≡ some (to_peer 3))
    × (¬ ((u : System) × Run toy t u × (u.replacing ≡ none)))
register_drop_deadlock_example =
    register_drop_deadlock toy (to_peer 3) 0 one_system (nobody-IsFresh 3) one_idle one_there
      one_counted one_unrun three_wins

announce-drop_conn_once_example :
    (announce 0 (announce 0 with_peer) ≡ announce 0 with_peer)
    × (drop_conn 0 (drop_conn 0 with_peer) ≡ drop_conn 0 with_peer)
announce-drop_conn_once_example = announce-drop_conn_once 0 with_peer

-- The same peer under another name, in a session with a smaller number.
abbrev renamed : Conn
renamed = record (to_peer 3) { name = codes "b" }

register_stale_example :
    (lookup (codes "a") (register renamed with_peer).0.by_name ≡ some 0)
    × (((register renamed with_peer).0.heap 0).done ≡ true)
    × ((trust_of (codes "a") (register renamed with_peer).0).1 ≡ true)
unfolding register lookup enter put insert
register_stale_example =
    register_stale 0 renamed with_peer with_peer-IsWf (one_peer, refl) refl refl
      (λ e. not_b (ap (λ l. elim l [ [] ↦ 0 | x ∷ xs ↦ x ]) e)) refl
  where
    not_b : ◌≡◌ {A = ℕ} 98 97 → ⊥
    not_b e = absurd (omega (arith, e))
