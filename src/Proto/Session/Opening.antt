-- ===== src/Proto/Session/Opening.antt =====
-- internal/proto/session.go: the ways in which a call of `Open` can end.
use xessenger_cli.Prelude.{ℕ, ◌+◌, ◌%◌, ◌^◌, true, false, ◌==◌}
use xessenger_cli.Prelude.{
  Option, none, some, Result, Result-cases, ok, err, if◌then◌else◌, arith, ◌≡◌, refl, ◌⊎◌, inl, inr,
  if_elim, Bool-cases, ==_iff,
}
use xessenger_cli.Crypto.{Bytes, Primitives}
use xessenger_cli.Proto.Frame.{Frame, Error, parse_frame, bad_session, bad_epoch, session_closed}
use xessenger_cli.Proto.Session.{
  Session, chain_for_epoch, decrypt_frame, admit, open', epoch_keys, assign_epoch, install_epoch,
}
use xessenger_cli.Proto.Session.Epochs.{install_epoch_lem}
use mathlib.Core.Path.{subst}

module _ (p : Primitives) (s : Session) where
  -- Choosing a chain leaves the session alone, or rolls it to the next epoch.
  abbrev pub Rolls : ℕ → Session × Result Error Bytes → Type 0
  Rolls e r =
      (r.0 ≡ s)
      ⊎ ((ks : Bytes × Bytes) × (e ≡ (s.epoch + 1) % 2 ^ 32)
          × (epoch_keys p s.root e ≡ ok ks)
          × (r.0 ≡ assign_epoch p e ks s))

  pub chain_for_epoch-Rolls : (e : ℕ) → Rolls e (chain_for_epoch p e s)
  unfolding chain_for_epoch
  chain_for_epoch-Rolls e =
      if_elim (Rolls e) (e == s.epoch) _ _ (λ _. inl refl)
        (λ _.
          if_elim (Rolls e) (e == (s.epoch + 1) % 2 ^ 32) _ _
            (λ next. elim (Result-cases (epoch_keys p s.root e)) [
              | inl (ks, h) ↦
                  inr (ks, ground (arith, next), h, ground (arith, install_epoch_lem p s e ks h))
              | inr (x, h) ↦ inl (ground (arith, failed e x h))
            ])
            (λ _. inl (old s.recv_old)))
    where
      failed :
          (e : ℕ) (x : Error) → epoch_keys p s.root e ≡ err x → install_epoch p e s ≡ (s, err x)
      failed e x h = rw (h, install_epoch)

      old :
          (o : Option Bytes)
          → (let r : Session × Result Error Bytes = elim o [
            | none ↦ (s, err bad_epoch)
            | some k ↦ if (e + 1) % 2 ^ 32 == s.epoch then (s, ok k) else (s, err bad_epoch)
          ] in
              r.0 ≡ s)
      old none = refl
      old (some k) = ground arith

  -- The stages of `Open`, one case for each way out.
  pub open'_elim {ℓ} :
      (P : Session × Result Error (ℕ × Bytes) → Type ℓ) (buf : Bytes)
      → (s.closed ≡ true → P (s, err session_closed))
      → ((e : Error) → parse_frame buf ≡ err e → P (s, err e))
      → ((f : Frame)
          → parse_frame buf ≡ ok f
          → (f.session == s.session_id) ≡ false
          → P (s, err bad_session))
      → ((f : Frame) (t : Session) (e : Error)
          → parse_frame buf ≡ ok f
          → chain_for_epoch p f.rotation s ≡ (t, err e)
          → P (t, err e))
      → ((f : Frame) (t : Session) (k : Bytes) (e : Error)
          → parse_frame buf ≡ ok f
          → chain_for_epoch p f.rotation s ≡ (t, ok k)
          → decrypt_frame p k f ≡ err e
          → P (t, err e))
      → ((f : Frame) (t : Session) (k pt : Bytes)
          → s.closed ≡ false
          → parse_frame buf ≡ ok f
          → f.session ≡ s.session_id
          → chain_for_epoch p f.rotation s ≡ (t, ok k)
          → decrypt_frame p k f ≡ ok pt
          → P (admit p f pt t))
      → P (open' p buf s)
  unfolding open'
  open'_elim P buf c1 c2 c3 c4 c5 c6 = elim (Bool-cases s.closed) [
    | inl shut ↦ subst P (ground (arith, shut)) (c1 shut)
    | inr up ↦ elim (Result-cases (parse_frame buf)) [
      | inr (e, h) ↦ subst P (ground (arith, up, h)) (c2 e h)
      | inl (f, h) ↦ elim (Bool-cases (f.session == s.session_id)) [
        | inr other ↦ subst P (ground (arith, up, h, other)) (c3 f h other)
        | inl mine ↦ chosen up f h mine (chain_for_epoch p f.rotation s) refl
      ]
    ]
  ]
    where
      chosen :
          s.closed ≡ false
          → (f : Frame) → parse_frame buf ≡ ok f
          → (f.session == s.session_id) ≡ true
          → (r : Session × Result Error Bytes) → chain_for_epoch p f.rotation s ≡ r
          → P (open' p buf s)
      chosen up f h mine (t, err e) c = subst P (ground (arith, up, h, mine, c)) (c4 f t e h c)
      chosen up f h mine (t, ok k) c = elim (Result-cases (decrypt_frame p k f)) [
        | inr (e, d) ↦ subst P (ground (arith, up, h, mine, c, d)) (c5 f t k e h c d)
        | inl (pt, d) ↦
            subst P (ground (arith, up, h, mine, c, d))
              (c6 f t k pt up h ((==_iff f.session s.session_id).0 mine) c d)
      ]
