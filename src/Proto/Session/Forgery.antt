-- ===== src/Proto/Session/Forgery.antt =====
-- internal/proto/session.go: frames that nobody authenticated, which `Open` reads the epoch of before
-- it checks the tag.
use xessenger_cli.Prelude.{ℕ, ◌+◌, ◌^◌, ◌<◌, Bool, false, ok, err, arith, length, ==_refl}
use xessenger_cli.Prelude.{◌≡◌, refl, ap, sym, ◌∙◌, inl, inr}
use xessenger_cli.Crypto.{Bytes, Primitives, Laws, key_size}
use mathlib.Core.Path.{subst}
use xessenger_cli.Proto.Frame.{Frame, parse_frame, auth, bad_epoch}
use xessenger_cli.Proto.Session.{Session, open', chain_for_epoch, decrypt_frame}
use xessenger_cli.Proto.Session.Epochs.{IsKeyed, chain_for_epoch_lem, in_key, epoch_keys_total}

module _ {p : Primitives} (l : Laws p) where
  -- A buffer that parses as a frame of this session and of a given epoch, but fails its tag under every 32-byte chain.
  pub record IsForged (s : Session) (e : ℕ) (buf : Bytes) : Type 0 where
    pub frame : Frame
    pub parsed : parse_frame buf ≡ ok frame
    pub session_is : frame.session ≡ s.session_id
    pub rotation_is : frame.rotation ≡ e
    pub fails : (chain : Bytes) → length chain ≡ key_size → decrypt_frame p chain frame ≡ err auth

  -- An open session in step.
  pub record IsLive (s : Session) : Type 0 where
    pub keyed : IsKeyed p s
    pub up : s.closed ≡ false

  forged_run :
      (s t : Session) (e : ℕ) (buf k : Bytes)
      → s.closed ≡ false
      → IsForged s e buf
      → length k ≡ key_size
      → chain_for_epoch p e s ≡ (t, ok k)
      → open' p buf s ≡ (t, err auth)
  unfolding open'
  forged_run s t e buf k up f len c =
      ground
        (arith, up, f.parsed, f.session_is, f.rotation_is, c, f.fails k len, ==_refl s.session_id)

  in_key-size :
      (i : Bool) (ks : Bytes × Bytes)
      → length ks.0 ≡ key_size
      → length ks.1 ≡ key_size
      → length (in_key i ks) ≡ key_size
  in_key-size i ks a b = ground arith

  -- A forged frame of the next epoch is refused, and rolls an open session in step to that epoch all the same.
  pub open'_forged_rolls :
      (s : Session) (buf : Bytes)
      → IsLive s
      → s.epoch + 1 < 2 ^ 32
      → IsForged s (s.epoch + 1) buf
      → ((open' p buf s).1 ≡ err auth)
        × ((open' p buf s).0.epoch ≡ s.epoch + 1)
        × ((open' p buf s).0.session_id ≡ s.session_id)
        × IsLive (open' p buf s).0
  open'_forged_rolls s buf v small f =
      let (ks, h, la, lb) = epoch_keys_total l s.root (s.epoch + 1) v.keyed.rooted in
      let c = chain_for_epoch_lem p s (s.epoch + 1) ks v.keyed small (inr (inl refl)) h in
      let run =
        forged_run s c.after (s.epoch + 1) buf (in_key s.initiator ks) v.up f
          (in_key-size s.initiator ks la lb) c.run in
      (
        ap (λ r. r.1) run,
        ap (λ r. r.0.epoch) run ∙ c.epoch_is ∙ omega arith,
        ap (λ r. r.0.session_id) run ∙ c.kept.same_id,
        subst IsLive (sym (ap (λ r. r.0) run))
            (record { keyed = c.keyed; up = c.kept.same_closed ∙ v.up }),
      )

  too_old :
      (s : Session) (buf : Bytes) (f : Frame)
      → s.closed ≡ false
      → parse_frame buf ≡ ok f
      → f.session ≡ s.session_id
      → f.rotation + 2 ≡ s.epoch
      → s.epoch + 1 < 2 ^ 32
      → (open' p buf s).1 ≡ err bad_epoch
  unfolding open' chain_for_epoch
  too_old s buf f up h id e small = ground (arith, up, h, id, ==_refl s.session_id)

  -- Two forged frames, of the next two epochs, make a session in step refuse every frame of the epoch that the peers were in before them, authentic ones included.
  pub forged_rotations_lock_out :
      (s : Session) (first second buf : Bytes) (f : Frame)
      → IsLive s
      → s.epoch + 3 < 2 ^ 32
      → IsForged s (s.epoch + 1) first
      → IsForged s (s.epoch + 2) second
      → parse_frame buf ≡ ok f
      → f.session ≡ s.session_id
      → f.rotation ≡ s.epoch
      → (open' p buf (open' p second (open' p first s).0).0).1 ≡ err bad_epoch
  forged_rotations_lock_out s first second buf f v small a b h id e =
      let (_, e1, id1, v1) = open'_forged_rolls s first v (omega arith) a in
      let t = (open' p first s).0 in
      let b' : IsForged t (t.epoch + 1) second = record {
        frame = b.frame;
        parsed = b.parsed;
        session_is = b.session_is ∙ sym id1;
        rotation_is = b.rotation_is ∙ omega (arith, e1);
        fails = b.fails;
      } in
      let (_, e2, id2, v2) = open'_forged_rolls t second v1 (omega (arith, e1)) b' in
      too_old (open' p second t).0 buf f v2.up h (id ∙ sym id1 ∙ sym id2) (omega (arith, e, e1, e2))
        (omega (arith, e1, e2))
