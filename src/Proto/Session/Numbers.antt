-- ===== src/Proto/Session/Numbers.antt =====
-- internal/proto/session.go: the sequence numbers that a session sends.
use xessenger_cli.Prelude.{ℕ, ◌+◌, ◌^◌, ◌≤◌, ◌<◌, List, [], ◌∷◌, ◌++◌, Result, ok, err, arith}
use xessenger_cli.Prelude.{◌≡◌, refl, inl, inr, length}
use xessenger_cli.Prelude.Bytes.{uint, slice}
use mathlib.Core.Path.{subst}
use xessenger_cli.Crypto.{Bytes, Primitives}
use xessenger_cli.Proto.Frame.{Error}
use xessenger_cli.Proto.Frame.RoundTrip.{wire_sequence}
use xessenger_cli.Proto.Session.{Session, seal, open', close}
use xessenger_cli.Proto.Session.Steps.{SealStep, seal-SealStep, open'-OpenKeeps}
use xessenger_cli.Proto.Session.Safety.{Call, seals, opens, closes, apply}

-- The number on the wire of a frame that `Seal` returned.
abbrev pub wire_number : Result Error Bytes → List ℕ
wire_number (ok buf) = uint (slice 10 8 buf) ∷ []
wire_number (err e) = []

abbrev pub Consecutive : ℕ → List ℕ → Type 0
Consecutive n [] = Unit {0}
Consecutive n (x ∷ xs) = (x ≡ n) × Consecutive (n + 1) xs

close_keeps : (s : Session) → (close s).send_seq ≡ s.send_seq
unfolding close
close_keeps s = refl

module _ (p : Primitives) where
  abbrev pub sent_by : Session → Call → List ℕ
  sent_by s (seals drawn typ pt) = wire_number (seal p drawn typ pt s).1
  sent_by s (opens buf) = []
  sent_by s closes = []

  -- The numbers of the frames that a list of calls sends.
  pub sent_numbers : Session → List Call → List ℕ
  sent_numbers s [] = []
  sent_numbers s (c ∷ cs) = sent_by s c ++ sent_numbers (apply p s c) cs

  after_seal :
      (s : Session) (typ : ℕ) (r : Session × Result Error Bytes) (rest : List ℕ)
      → SealStep p s typ r
      → s.send_seq + 1 < 2 ^ 64
      → Consecutive r.0.send_seq rest
      → Consecutive s.send_seq (wire_number r.1 ++ rest)
  after_seal s typ r rest (_, inl (same, (e, failed))) small c = rw (failed, ← same) c
  after_seal s typ r rest (_, inr (f, sent, _, _, number, moved)) small c =
      rw sent (omega (arith, wire_sequence f, number), subst (λ n. Consecutive n rest) next c)
    where
      next : r.0.send_seq ≡ s.send_seq + 1
      next = omega (arith, moved)

  counter_after_seal :
      (s : Session) (typ : ℕ) (r : Session × Result Error Bytes)
      → SealStep p s typ r
      → s.send_seq + 1 < 2 ^ 64
      → r.0.send_seq ≤ s.send_seq + 1
  counter_after_seal s typ r (_, inl (same, _)) small = omega (arith, same)
  counter_after_seal s typ r (_, inr (f, _, _, _, _, moved)) small = omega (arith, moved)

  -- As long as the counter does not wrap, the frames sent over any list of calls, failed and foreign ones included, carry consecutive sequence numbers from the session's counter on: none is used twice.
  pub sent_numbers-Consecutive :
      (s : Session) (cs : List Call)
      → s.send_seq + length cs < 2 ^ 64
      → Consecutive s.send_seq (sent_numbers s cs)
  unfolding sent_numbers apply
  sent_numbers-Consecutive s [] h = tt
  sent_numbers-Consecutive s (seals drawn typ pt ∷ cs) h =
      let step = seal-SealStep p drawn typ pt s in
      after_seal s typ (seal p drawn typ pt s) (sent_numbers (seal p drawn typ pt s).0 cs) step
        (omega arith)
        (sent_numbers-Consecutive (seal p drawn typ pt s).0 cs
          (omega (arith, counter_after_seal s typ (seal p drawn typ pt s) step)))
  sent_numbers-Consecutive s (opens buf ∷ cs) h =
      let kept = open'-OpenKeeps p s buf in
      subst (λ n. Consecutive n (sent_numbers (open' p buf s).0 cs)) kept
        (sent_numbers-Consecutive (open' p buf s).0 cs (omega (arith, kept)))
  sent_numbers-Consecutive s (closes ∷ cs) h =
      let kept = close_keeps s in
      subst (λ n. Consecutive n (sent_numbers (close s) cs)) kept
        (sent_numbers-Consecutive (close s) cs (omega (arith, kept)))
