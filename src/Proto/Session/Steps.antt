-- ===== src/Proto/Session/Steps.antt =====
-- internal/proto/session.go: one call of `Open` or `Seal` on the replay window and the counter.
use xessenger_cli.Prelude.{ℕ, ◌+◌, ◌%◌, ◌^◌, ltb}
use xessenger_cli.Prelude.{
  Option, Result, ok, err, if◌then◌else◌, arith, ◌≡◌, refl, ap, sym, ◌∙◌, ◌⊎◌, inl, inr, if_elim,
  length,
}
use xessenger_cli.Crypto.{Bytes, Primitives}
use xessenger_cli.Proto.Frame.{
  Frame, Error, parse_frame, marshal_frame, marshal_header_only, max_plaintext, replay,
}
use xessenger_cli.Proto.Replay.{check}
use mathlib.Core.Path.{subst}
use xessenger_cli.Crypto
use xessenger_cli.Prelude.{◌>>=◌ as and_then}
use xessenger_cli.Proto.Session.{
  Session, message_key, chain_key, from_crypto, header_of, send_sealed, ◌>>=◌, chain_for_epoch,
  admit, open', assign_epoch, seal, rotate_if_due, seal_frame,
}
use xessenger_cli.Proto.Session.Opening.{chain_for_epoch-Rolls, open'_elim}

module _ (p : Primitives) where
  -- What a call of `Open` does to the replay window, beside its result.
  abbrev pub WindowStep : Session → Bytes → Session × Result Error (ℕ × Bytes) → Type 0
  WindowStep s buf r =
      ((r.0.recv_win ≡ s.recv_win) × ((e : Error) × (r.1 ≡ err e)))
      ⊎ ((f : Frame) × (pt : Bytes) × (parse_frame buf ≡ ok f)
          × (r.0.recv_win ≡ (check s.recv_win f.sequence).0)
          × (r.1 ≡ (if (check s.recv_win f.sequence).1 then ok (f.typ, pt) else err replay)))

  rolled_window :
      (s t : Session) (e : ℕ) (r : Result Error Bytes)
      → chain_for_epoch p e s ≡ (t, r)
      → t.recv_win ≡ s.recv_win
  unfolding assign_epoch
  rolled_window s t e r h = ground (arith, ap (λ x. x.0) h, chain_for_epoch-Rolls p s e)

  pub open'-WindowStep : (s : Session) (buf : Bytes) → WindowStep s buf (open' p buf s)
  unfolding admit
  open'-WindowStep s buf =
      open'_elim p s (WindowStep s buf) buf (λ _. inl (refl, (_, refl)))
        (λ e _. inl (refl, (e, refl))) (λ f _ _. inl (refl, (_, refl)))
        (λ f t e _ c. inl (rolled_window s t f.rotation (err e) c, (e, refl)))
        (λ f t k e _ c _. inl (rolled_window s t f.rotation (ok k) c, (e, refl)))
        (λ f t k pt _ h _ c _.
          let w : t.recv_win ≡ s.recv_win = rolled_window s t f.rotation (ok k) c in
          inr (
            f,
            pt,
            h,
            ap (λ x. (check x f.sequence).0) w,
            ap (λ x. if (check x f.sequence).1 then ok (f.typ, pt) else err replay) w,
          ))

  -- `Open` sends nothing: it keeps the counter.
  abbrev pub OpenKeeps : Session → Session × Result Error (ℕ × Bytes) → Type 0
  OpenKeeps s r = r.0.send_seq ≡ s.send_seq

  rolled_counter :
      (s t : Session) (e : ℕ) (r : Result Error Bytes)
      → chain_for_epoch p e s ≡ (t, r)
      → t.send_seq ≡ s.send_seq
  unfolding assign_epoch
  rolled_counter s t e r h = ground (arith, ap (λ x. x.0) h, chain_for_epoch-Rolls p s e)

  pub open'-OpenKeeps : (s : Session) (buf : Bytes) → OpenKeeps s (open' p buf s)
  unfolding admit
  open'-OpenKeeps s buf =
      open'_elim p s (OpenKeeps s) buf (λ _. refl) (λ e _. refl) (λ f _ _. refl)
        (λ f t e _ c. rolled_counter s t f.rotation (err e) c)
        (λ f t k e _ c _. rolled_counter s t f.rotation (ok k) c)
        (λ f t k pt _ h _ c _. rolled_counter s t f.rotation (ok k) c)

module _ (p : Primitives) where
  rotated_kept :
      (s : Session)
      → ((rotate_if_due p s).0.recv_win ≡ s.recv_win)
        × ((rotate_if_due p s).0.send_seq ≡ s.send_seq)
        × ((rotate_if_due p s).0.session_id ≡ s.session_id)
  unfolding rotate_if_due assign_epoch
  rotated_kept s = ground arith

  -- A call of `Seal` fails and keeps the counter, or sends a frame under the counter's number.
  abbrev pub SealStep : Session → ℕ → Session × Result Error Bytes → Type 0
  SealStep s typ r =
      (r.0.recv_win ≡ s.recv_win)
      × (((r.0.send_seq ≡ s.send_seq) × ((e : Error) × (r.1 ≡ err e)))
          ⊎ ((f : Frame) × (r.1 ≡ ok (marshal_frame f))
              × (f.typ ≡ typ)
              × (f.session ≡ s.session_id)
              × (f.sequence ≡ s.send_seq)
              × (r.0.send_seq ≡ (s.send_seq + 1) % 2 ^ 64)))

  sent_step :
      (typ : ℕ) (s : Session) (r : Result Error Bytes)
      → SealStep s typ (send_sealed (header_of s typ) s r)
  unfolding send_sealed
  sent_step typ s (ok blob) =
      (refl, inr (record (header_of s typ) { blob = blob }, refl, refl, refl, refl, refl))
  sent_step typ s (err e) = (refl, inl (refl, (e, refl)))

  step_from :
      (s t : Session) (typ : ℕ) (r : Session × Result Error Bytes)
      → t.recv_win ≡ s.recv_win
      → t.send_seq ≡ s.send_seq
      → t.session_id ≡ s.session_id
      → SealStep t typ r
      → SealStep s typ r
  step_from s t typ r w n i (kept, inl (same, failed)) = (kept ∙ w, inl (same ∙ n, failed))
  step_from s t typ r w n i (kept, inr (f, sent, a, b, c, d)) =
      (kept ∙ w, inr (f, sent, a, b ∙ i, c ∙ n, d ∙ ap (λ x. (x + 1) % 2 ^ 64) n))

  frame_step :
      (drawn : Option Bytes) (typ : ℕ) (pt : Bytes) (s : Session)
      → SealStep s typ (seal_frame p drawn typ pt s)
  unfolding seal_frame
  frame_step drawn typ pt s = sent_step typ s (
      and_then (message_key p (chain_key s.send) s.send_seq)
        λ key. from_crypto (Crypto.seal p drawn key (marshal_header_only (header_of s typ)) pt))

  after_rotation :
      (drawn : Option Bytes) (typ : ℕ) (pt : Bytes) (s : Session)
      (r : Session × Result Error (Unit {0}))
      → rotate_if_due p s ≡ r
      → SealStep s typ ((rotate_if_due p >>= λ _. seal_frame p drawn typ pt) s)
  after_rotation drawn typ pt s (t, err e) h =
      let q : (rotate_if_due p >>= λ _. seal_frame p drawn typ pt) s ≡ (t, err e) =
        ground (arith, h) in
      let k = rotated_kept s in
      subst (λ x. SealStep s typ x) (sym q)
        (ground (arith, k.0, h), inl (ground (arith, k.1, h), (e, refl)))
  after_rotation drawn typ pt s (t, ok u) h =
      let e : (rotate_if_due p >>= λ _. seal_frame p drawn typ pt) s ≡ seal_frame p drawn typ pt t =
        ground (arith, h) in
      let k = rotated_kept s in
      subst (λ x. SealStep s typ x) (sym e)
        (step_from s t typ (seal_frame p drawn typ pt t) (ground (arith, k.0, h))
          (ground (arith, k.1, h)) (ground (arith, k.2, h)) (frame_step drawn typ pt t))

  pub seal-SealStep :
      (drawn : Option Bytes) (typ : ℕ) (pt : Bytes) (s : Session)
      → SealStep s typ (seal p drawn typ pt s)
  unfolding seal
  seal-SealStep drawn typ pt s =
      if_elim (SealStep s typ) s.closed _ _ (λ _. (refl, inl (refl, (_, refl))))
        (λ _.
          if_elim (SealStep s typ) (ltb max_plaintext (length pt)) _ _
            (λ _. (refl, inl (refl, (_, refl))))
            (λ _. after_rotation drawn typ pt s (rotate_if_due p s) refl))
