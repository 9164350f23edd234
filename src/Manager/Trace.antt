-- ===== src/Manager/Trace.antt =====
-- internal/session/manager.go: what a handshake leaves behind in the manager.
use xessenger_cli.Prelude.{
  ℕ, Bool, true, false, Result, ok, err, if_elim, ltb, ◌==◌, length, ◌≡◌, refl, ap,
}
use mathlib.Core.Bool.{true≢false}
use xessenger_cli.Crypto.{Primitives}
use xessenger_cli.Peers.{trust_unknown}
use xessenger_cli.Proto.Session.{Session}
use xessenger_cli.Proto.Handshake.{HandshakeResult}
use xessenger_cli.Manager.{Event, events_capacity, Manager, Error, emit}
use xessenger_cli.Manager.Shake.{
  FrameIo, AdoptOptions, Drawn, Failure, exchange, confirm_pairing, warning, adopt_peer,
  run_confirmed, run_agreed, run_handshake,
}

-- Only the events may differ.
pub record Untouched (m m' : Manager) : Type 0 where
  pub same_store : m'.store ≡ m.store
  pub same_conns : m'.conns ≡ m.conns
  pub same_names : m'.by_name ≡ m.by_name
  pub same_heap : m'.heap ≡ m.heap
  pub same_count : m'.count ≡ m.count

emit-Untouched : (e : Event) (m : Manager) → Untouched m (emit e m)
unfolding emit
emit-Untouched e m =
    if_elim (Untouched m) (ltb (length m.events) events_capacity) _ _
      (λ e. record {
        same_store = refl;
        same_conns = refl;
        same_names = refl;
        same_heap = refl;
        same_count = refl;
      })
      (λ e. record {
        same_store = refl;
        same_conns = refl;
        same_names = refl;
        same_heap = refl;
        same_count = refl;
      })

refl-Untouched : (m : Manager) → Untouched m m
refl-Untouched m = record {
  same_store = refl;
  same_conns = refl;
  same_names = refl;
  same_heap = refl;
  same_count = refl;
}

-- The result of an operation is a failure, or what it says of a failure holds.
abbrev Leaves : Manager → Manager × Result Error (Unit {0}) → Type 0
Leaves m r = (e : Error) → r.1 ≡ err e → Untouched m r.0

pub ok_ne_err : {e : Error} → ◌≡◌ {A = Result Error (Unit {0})} (ok tt) (err e) → ⊥
ok_ne_err h = true≢false (ap (λ r. elim r as (λ x. Bool) [ ok u ↦ true | err x ↦ false ]) h)

module _ (p : Primitives) where
  adopt_peer-Leaves :
      (now : ℕ) (res : HandshakeResult) (s : Session) (opts : AdoptOptions) (io : FrameIo)
      (m : Manager)
      → Leaves m (adopt_peer p now true res s opts io m)
  unfolding adopt_peer
  adopt_peer-Leaves now res s opts io m e h = absurd (ok_ne_err h)

  run_confirmed-Leaves :
      (now : ℕ) (res : HandshakeResult) (opts : AdoptOptions)
      (r : FrameIo × (Session × Result Error (Unit {0}))) (m : Manager)
      → Leaves m (run_confirmed p now true res opts r m)
  unfolding run_confirmed
  run_confirmed-Leaves now res opts (io, (s, ok u)) m = adopt_peer-Leaves now res s opts io m
  run_confirmed-Leaves now res opts (io, (s, err x)) m =
      λ e h. emit-Untouched (warning p res trust_unknown) m

  run_agreed-Leaves :
      (drawn : Drawn) (now : ℕ) (opts : AdoptOptions) (r : FrameIo × Result Failure HandshakeResult)
      (m : Manager)
      → Leaves m (run_agreed p drawn now true opts r m)
  unfolding run_agreed
  run_agreed-Leaves drawn now opts (io, ok res) m =
      if_elim (Leaves m) (length opts.pairing_key == 0) _ _
        (λ e. adopt_peer-Leaves now res res.session opts io m)
        (λ e.
          run_confirmed-Leaves now res opts
            (confirm_pairing p drawn.confirm res opts.pairing_key io) m)
  run_agreed-Leaves drawn now opts (io, err f) m =
      λ e h. if_elim (Untouched m) f.reported _ _ (λ e. emit-Untouched _ m) (λ e. refl-Untouched m)

  -- When the store's file can be written, a handshake that fails, at whatever step and with or without an invite code, leaves the trust store, the registry and every connection as they were.
  pub run_handshake-Untouched :
      (drawn : Drawn) (now : ℕ) (opts : AdoptOptions) (io : FrameIo) (m : Manager) (e : Error)
      → (run_handshake p drawn now true opts io m).1 ≡ err e
      → Untouched m (run_handshake p drawn now true opts io m).0
  unfolding run_handshake
  run_handshake-Untouched drawn now opts io m =
      run_agreed-Leaves drawn now opts (exchange p drawn m.id opts.initiator io) m
