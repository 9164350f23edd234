-- ===== src/Proto/Session/Safety.antt =====
-- internal/proto/session.go: a session under any calls of `Seal`, `Open` and `Close`.
use xessenger_cli.Prelude.{ℕ, ◌^◌, ◌<◌, List, [], ◌∷◌, true, false}
use xessenger_cli.Prelude.{
  Option, Result, ok, err, if◌then◌else◌, arith, ◌≡◌, ap, ◌∙◌, inl, inr, All, ==_refl,
}
use xessenger_cli.Prelude.Bytes.{IsByte}
use xessenger_cli.Crypto.{Bytes, Primitives}
use xessenger_cli.Proto.Frame.{Frame, Error, parse_frame, replay}
use xessenger_cli.Proto.Frame.RoundTrip.{marshal_frame-parse_frame}
use xessenger_cli.Proto.Replay.{ReplayWindow, check, new_window}
use xessenger_cli.Proto.Replay.History.{
  Tracks, new_window-Tracks, check_lem, contains, fresh, remember,
}
use xessenger_cli.Proto.Replay.Runs.{contains-remember}
use xessenger_cli.Proto.Session.{Session, open', close, seal}
use xessenger_cli.Proto.Session.Steps.{WindowStep, open'-WindowStep, seal-SealStep}

-- What the two peers and the application can do to a session.
pub data Call : Type 0 where
  seals : Option Bytes → ℕ → Bytes → Call
  opens : Bytes → Call
  closes : Call

-- A received buffer holds bytes.
abbrev pub IsCall : Call → Type 0
IsCall (seals drawn typ pt) = Unit
IsCall (opens buf) = All IsByte buf
IsCall closes = Unit

module _ (p : Primitives) where
  unfoldable pub apply : Session → Call → Session
  apply s (seals drawn typ pt) = (seal p drawn typ pt s).0
  apply s (opens buf) = (open' p buf s).0
  apply s closes = close s

  unfoldable pub apply_all : Session → List Call → Session
  apply_all s [] = s
  apply_all s (c ∷ cs) = apply_all (apply s c) cs

  -- The window goes on tracking some history, which forgets nothing.
  record Follows (w : ReplayWindow) (hist : List ℕ) : Type 0 where
    later : List ℕ
    tracks : Tracks w later
    keeps : (a : ℕ) → contains a hist ≡ true → contains a later ≡ true

  window-Follows :
      (s : Session) (buf : Bytes) (r : Session × Result Error (ℕ × Bytes)) (hist : List ℕ)
      → Tracks s.recv_win hist
      → All IsByte buf
      → WindowStep p s buf r
      → Follows r.0.recv_win hist
  window-Follows s buf r hist t bytes (inl (same, _)) = record {
    later = hist;
    tracks = rw same t;
    keeps = λ a h. h;
  }
  window-Follows s buf r hist t bytes (inr (f, pt, parsed, moved, _)) = record {
    later = remember hist f.sequence;
    tracks = rw moved (check_lem s.recv_win hist f.sequence t small).1;
    keeps = λ a h. contains-remember a hist f.sequence h;
  }
    where
      small : f.sequence < 2 ^ 64
      small = (marshal_frame-parse_frame buf f bytes parsed).1.sequence_u64

  apply-Follows :
      (s : Session) (c : Call) (hist : List ℕ)
      → Tracks s.recv_win hist
      → IsCall c
      → Follows (apply s c).recv_win hist
  unfolding apply close
  apply-Follows s (seals drawn typ pt) hist t h = record {
    later = hist;
    tracks = rw (seal-SealStep p drawn typ pt s).0 t;
    keeps = λ a h. h;
  }
  apply-Follows s (opens buf) hist t h =
      window-Follows s buf (open' p buf s) hist t h (open'-WindowStep p s buf)
  apply-Follows s closes hist t h = record { later = hist; tracks = t; keeps = λ a h. h }

  apply_all-Follows :
      (s : Session) (cs : List Call) (hist : List ℕ)
      → Tracks s.recv_win hist
      → All IsCall cs
      → Follows (apply_all s cs).recv_win hist
  unfolding apply_all
  apply_all-Follows s [] hist t h = record { later = hist; tracks = t; keeps = λ a h. h }
  apply_all-Follows s (c ∷ cs) hist t h =
      let f = apply-Follows s c hist t h.0 in
      let g = apply_all-Follows (apply s c) cs f.later f.tracks h.1 in
      record { later = g.later; tracks = g.tracks; keeps = λ a e. g.keeps a (f.keeps a e) }

  -- A buffer whose frame number the window already holds is not opened.
  refused :
      (s : Session) (buf : Bytes) (f : Frame) (hist : List ℕ)
      → Tracks s.recv_win hist
      → All IsByte buf
      → parse_frame buf ≡ ok f
      → contains f.sequence hist ≡ true
      → (r : Session × Result Error (ℕ × Bytes)) → WindowStep p s buf r
      → (e : Error) × (r.1 ≡ err e)
  refused s buf f hist t bytes parsed held r (inl (_, failed)) = failed
  refused s buf f hist t bytes parsed held r (inr (g, pt, parsed', _, answer)) = (
    replay,
    answer
        ∙ ap (λ b. if b then ok (g.typ, pt) else err replay)
            ((check_lem s.recv_win hist g.sequence t small).0 ∙ stale),
  )
    where
      same : g ≡ f
      same = cc

      small : g.sequence < 2 ^ 64
      small = (marshal_frame-parse_frame buf g bytes parsed').1.sequence_u64

      stale : fresh hist g.sequence ≡ false
      stale = ground (arith, ap (λ (x : Frame). contains x.sequence hist) same)

  -- An opened buffer is in the window from then on.
  held_after :
      (s : Session) (buf : Bytes) (hist : List ℕ) (r : Session × Result Error (ℕ × Bytes))
      (v : ℕ × Bytes)
      → Tracks s.recv_win hist
      → All IsByte buf
      → WindowStep p s buf r
      → r.1 ≡ ok v
      → (f : Frame) × (later : List ℕ) × (parse_frame buf ≡ ok f)
        × Tracks r.0.recv_win later
        × (contains f.sequence later ≡ true)
  held_after s buf hist r v t bytes (inl (_, (e, failed))) opened = absurd (ground arith)
  held_after s buf hist r v t bytes (inr (f, pt, parsed, moved, answer)) opened = (
    f,
    remember hist f.sequence,
    parsed,
    rw moved step.1,
    ground (arith, opened, answer, step.0, ==_refl f.sequence),
  )
    where
      step :
          ((check s.recv_win f.sequence).1 ≡ fresh hist f.sequence)
          × Tracks (check s.recv_win f.sequence).0 (remember hist f.sequence)
      step =
          check_lem s.recv_win hist f.sequence t
            (marshal_frame-parse_frame buf f bytes parsed).1.sequence_u64

  -- After any calls on a session whose window began empty, a buffer of bytes that was opened is never opened again, whatever is sealed, opened or closed in between.
  pub open'_once :
      (start : Session) (before between : List Call) (buf : Bytes) (r : ℕ × Bytes)
      → start.recv_win ≡ new_window
      → All IsCall before
      → All IsCall between
      → All IsByte buf
      → (open' p buf (apply_all start before)).1 ≡ ok r
      → (e : Error) × ((open' p buf (apply_all (open' p buf (apply_all start before)).0 between)).1
          ≡ err e)
  open'_once start before between buf r new hb hm bytes opened =
      let a = apply_all-Follows start before [] (rw new new_window-Tracks) hb in
      let s = apply_all start before in
      let (f, later, parsed, t, held) =
        held_after s buf a.later (open' p buf s) r a.tracks bytes (open'-WindowStep p s buf)
          opened in
      let b = apply_all-Follows (open' p buf s).0 between later t hm in
      let s' = apply_all (open' p buf s).0 between in
      refused s' buf f b.later b.tracks bytes parsed (b.keeps f.sequence held) (open' p buf s')
        (open'-WindowStep p s' buf)
