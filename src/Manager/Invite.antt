-- ===== src/Manager/Invite.antt =====
-- internal/session/manager.go: the pairing confirmation in a handshake under an invite code.
use xessenger_cli.Prelude.{
  ℕ, ◌<◌, List, [], ◌∷◌, ◌++◌, Bool, true, false, Option, Result, ok, err, if◌then◌else◌, ◌==◌,
  length, arith, ◌≡◌, ◌⊎◌, inl, inr, refl, sym, ap, ◌∙◌, ==_iff,
}
use xessenger_cli.Crypto.{Bytes, Primitives}
use xessenger_cli.Proto.Frame.{Error as ProtoError, pair_confirm_failed, type_pair_confirm}
use xessenger_cli.Proto.Session.{Session, open'}
use xessenger_cli.Proto.Handshake.{
  HandshakeResult, pair_confirm, seal_pair_confirm, verify_pair_confirm,
}
use xessenger_cli.Proto.Handshake.Pairing.{verify_pair_confirm_iff}
use xessenger_cli.Manager.{Manager, Error, proto, send_failed}
use xessenger_cli.Manager.Shake.{
  FrameIo, AdoptOptions, Drawn, Failure, exchange, await_proof, confirm_pairing, adopt_peer,
  run_confirmed, run_agreed, run_handshake,
}
use xessenger_cli.Manager.Trace.{ok_ne_err}

pick :
    (is_confirm verified : Bool) (s : Session) (more : Session × Result Error (Unit {0}))
    (e : Error)
    → (if is_confirm then (s, (if verified then ok tt else err e)) else more).1 ≡ ok tt
    → ((is_confirm ≡ true) × (verified ≡ true)) ⊎ (more.1 ≡ ok tt)
pick true true s more e h = inl (refl, refl)
pick true false s more e h = absurd (ok_ne_err (sym h))
pick false verified s more e h = inr h

module _ (p : Primitives) where
  -- A session after it has been given some frames to open.
  unfoldable pub after_frames : List Bytes → Session → Session
  after_frames [] s = s
  after_frames (buf ∷ rest) s = after_frames rest (open' p buf s).0

  -- A frame of the inbox that the session opens as a confirmation, in the state that the frames before
  -- it have left, with the proof in it.
  pub record Proved (pairing_key transcript : Bytes) (inbox : List Bytes) (s : Session)
      : Type 0 where
    pub before : List Bytes
    pub frame : Bytes
    pub after : List Bytes
    pub arrived : inbox ≡ before ++ (frame ∷ after)
    pub proof : Bytes
    pub opened : (open' p frame (after_frames before s)).1 ≡ ok (type_pair_confirm, proof)
    pub expected : pair_confirm p pairing_key transcript ≡ ok proof

  await_proof-Proved :
      (pairing_key transcript : Bytes) (inbox : List Bytes) (s : Session)
      → (await_proof p pairing_key transcript inbox s).1 ≡ ok tt
      → Proved pairing_key transcript inbox s
  unfolding await_proof after_frames
  await_proof-Proved key transcript [] s h = absurd (ok_ne_err (sym h))
  await_proof-Proved key transcript (buf ∷ rest) s h =
      go (await_proof-Proved key transcript rest (open' p buf s).0) (open' p buf s).1 refl h
    where
      s' : Session
      s' = (open' p buf s).0

      more : Session × Result Error (Unit {0})
      more = await_proof p key transcript rest s'

      found :
          (more.1 ≡ ok tt → Proved key transcript rest s')
          → (typ : ℕ) (pt : Bytes) → (open' p buf s).1 ≡ ok (typ, pt)
          → ((typ ≡ type_pair_confirm) × (verify_pair_confirm p key transcript pt ≡ true))
            ⊎ (more.1 ≡ ok tt)
          → Proved key transcript (buf ∷ rest) s
      found ih typ pt e (inl (t, v)) = record {
        before = [];
        frame = buf;
        after = rest;
        arrived = refl;
        proof = pt;
        opened = e ∙ ap (λ n. ok (n, pt)) t;
        expected = (verify_pair_confirm_iff p key transcript pt).0 v;
      }
      found ih typ pt e (inr m) =
          let q = ih m in
          record {
            before = buf ∷ q.before;
            frame = q.frame;
            after = q.after;
            arrived = ap (λ l. buf ∷ l) q.arrived;
            proof = q.proof;
            opened = q.opened;
            expected = q.expected;
          }

      go :
          (more.1 ≡ ok tt → Proved key transcript rest s')
          → (r : Result ProtoError (ℕ × Bytes)) → (open' p buf s).1 ≡ r
          → (elim r as (λ x. Session × Result Error (Unit {0})) [
            | err e ↦ (s', err (proto pair_confirm_failed))
            | ok f ↦
                if f.0 == type_pair_confirm
                then (
                  s',
                  (if verify_pair_confirm p key transcript f.1
                      then ok tt
                      else err (proto pair_confirm_failed)),
                )
                else more
          ]).1
            ≡ ok tt
          → Proved key transcript (buf ∷ rest) s
      go ih (err e) d h = absurd (ok_ne_err (sym h))
      go ih (ok (typ, pt)) d h =
          found ih typ pt d
            (elim (pick (typ == type_pair_confirm) (verify_pair_confirm p key transcript pt) s' more
              (proto pair_confirm_failed) h) [
                | inl (t, v) ↦ inl ((==_iff typ type_pair_confirm).0 t, v)
                | inr m ↦ inr m
              ])

  confirm_pairing-Proved :
      (drawn : Option Bytes) (res : HandshakeResult) (key : Bytes) (io : FrameIo)
      → (confirm_pairing p drawn res key io).1.1 ≡ ok tt
      → Proved key res.transcript io.inbox
          (seal_pair_confirm p drawn key res.transcript res.session).0
  unfolding confirm_pairing
  confirm_pairing-Proved drawn res key io h =
      go (seal_pair_confirm p drawn key res.transcript res.session).1 h
    where
      s : Session
      s = (seal_pair_confirm p drawn key res.transcript res.session).0

      after_send : Bool → Bytes → FrameIo × (Session × Result Error (Unit {0}))
      after_send up out =
          if up
          then (
            record io { outbox = io.outbox ++ (out ∷ []) },
            await_proof p key res.transcript io.inbox s,
          )
          else (io, (s, err send_failed))

      sent :
          (up : Bool) (out : Bytes)
          → (after_send up out).1.1 ≡ ok tt
          → Proved key res.transcript io.inbox
              (seal_pair_confirm p drawn key res.transcript res.session).0
      sent true out h = await_proof-Proved key res.transcript io.inbox s h
      sent false out h = absurd (ok_ne_err (sym h))

      go :
          (r : Result ProtoError Bytes)
          → (elim r as (λ x. FrameIo × (Session × Result Error (Unit {0}))) [
            | err e ↦ (io, (s, err (proto e)))
            | ok out ↦ after_send io.up out
          ]).1.1
            ≡ ok tt
          → Proved key res.transcript io.inbox
              (seal_pair_confirm p drawn key res.transcript res.session).0
      go (err e) h = absurd (ok_ne_err (sym h))
      go (ok out) h = sent io.up out h

  run_confirmed-ok :
      (now : ℕ) (saves : Bool) (res : HandshakeResult) (opts : AdoptOptions)
      (x : FrameIo × (Session × Result Error (Unit {0}))) (m : Manager)
      → (run_confirmed p now saves res opts x m).1 ≡ ok tt
      → x.1.1 ≡ ok tt
  unfolding run_confirmed
  run_confirmed-ok now saves res opts (io, (s, ok u)) m h = refl
  run_confirmed-ok now saves res opts (io, (s, err e)) m h = sym (absurd (ok_ne_err (sym h)))

  run_agreed-Proved :
      (drawn : Drawn) (now : ℕ) (saves : Bool) (opts : AdoptOptions)
      (r : FrameIo × Result Failure HandshakeResult) (m : Manager)
      → 0 < length opts.pairing_key
      → (run_agreed p drawn now saves opts r m).1 ≡ ok tt
      → (res : HandshakeResult) × (io' : FrameIo) × (r ≡ (io', ok res))
        × Proved opts.pairing_key res.transcript io'.inbox
            (seal_pair_confirm p drawn.confirm opts.pairing_key res.transcript res.session).0
  unfolding run_agreed
  run_agreed-Proved drawn now saves opts (io, err f) m code h = absurd (ok_ne_err (sym h))
  run_agreed-Proved drawn now saves opts (io, ok res) m code h = (
    res,
    io,
    refl,
    confirm_pairing-Proved drawn.confirm res opts.pairing_key io (
        run_confirmed-ok now saves res opts
          (confirm_pairing p drawn.confirm res opts.pairing_key io) m
          (ap
              (λ b.
                (if b
                  then adopt_peer p now saves res res.session opts io m
                  else run_confirmed p now saves res opts
                      (confirm_pairing p drawn.confirm res opts.pairing_key io) m).1)
              (sym has_code)
            ∙ h)),
  )
    where
      has_code : (length opts.pairing_key == 0) ≡ false
      has_code = ground (arith, code)

  -- When a handshake under an invite code succeeds, the key exchange gave a session, and one of the frames that arrived after it was opened by that session, in the state left by sealing our own confirmation and opening the frames before, as a confirmation whose value is that of the code and the exchange's transcript, the one which our own confirmation holds as well.
  pub run_handshake-Proved :
      (drawn : Drawn) (now : ℕ) (saves : Bool) (opts : AdoptOptions) (io : FrameIo) (m : Manager)
      → 0 < length opts.pairing_key
      → (run_handshake p drawn now saves opts io m).1 ≡ ok tt
      → (res : HandshakeResult) × (io' : FrameIo) × (exchange p drawn m.id opts.initiator io
          ≡ (io', ok res))
        × Proved opts.pairing_key res.transcript io'.inbox
            (seal_pair_confirm p drawn.confirm opts.pairing_key res.transcript res.session).0
  unfolding run_handshake
  run_handshake-Proved drawn now saves opts io m =
      run_agreed-Proved drawn now saves opts (exchange p drawn m.id opts.initiator io) m
