-- ===== src/Proto/Replay/Runs.antt =====
-- internal/proto/replay.go: whole runs of the window.
use xessenger_cli.Prelude.{ℕ, List, [], ◌∷◌, Bool, true, false, arith}
use xessenger_cli.Prelude.{All, ◌≡◌, refl, ◌∙◌, ==_refl, if_elim}
use xessenger_cli.Proto.Replay.{IsU64, ReplayWindow, new_window, check}
use xessenger_cli.Proto.Replay.History.{
  contains, fresh, remember, Tracks, new_window-Tracks, check_lem,
}

-- The window after a run of received numbers, and the answers given on the way.
unfoldable pub run : ReplayWindow → List ℕ → ReplayWindow
run w [] = w
run w (seq ∷ seqs) = run (check w seq).0 seqs

pub answers : ReplayWindow → List ℕ → List Bool
answers w [] = []
answers w (seq ∷ seqs) = (check w seq).1 ∷ answers (check w seq).0 seqs

-- The answers of a receiver that keeps every number it accepted.
abbrev pub history_answers : List ℕ → List ℕ → List Bool
history_answers hist [] = []
history_answers hist (seq ∷ seqs) = fresh hist seq ∷ history_answers (remember hist seq) seqs

abbrev history : List ℕ → List ℕ → List ℕ
history hist [] = hist
history hist (seq ∷ seqs) = history (remember hist seq) seqs

answers_from :
    (w : ReplayWindow) (hist seqs : List ℕ)
    → Tracks w hist
    → All IsU64 seqs
    → answers w seqs ≡ history_answers hist seqs
unfolding answers
answers_from w hist [] t small = refl
answers_from w hist (seq ∷ seqs) t small =
    let (e, t') = check_lem w hist seq t small.0 in
    cc (e, answers_from (check w seq).0 (remember hist seq) seqs t' small.1)

run-Tracks :
    (w : ReplayWindow) (hist seqs : List ℕ)
    → Tracks w hist
    → All IsU64 seqs
    → Tracks (run w seqs) (history hist seqs)
unfolding run
run-Tracks w hist [] t small = t
run-Tracks w hist (seq ∷ seqs) t small =
    run-Tracks (check w seq).0 (remember hist seq) seqs (check_lem w hist seq t small.0).1 small.1

pub contains-remember :
    (a : ℕ) (hist : List ℕ) (seq : ℕ)
    → contains a hist ≡ true
    → contains a (remember hist seq) ≡ true
contains-remember a hist seq h =
    if_elim (λ l. contains a l ≡ true) (fresh hist seq) (seq ∷ hist) hist (λ _. ground arith)
      (λ _. h)

contains-history :
    (a : ℕ) (hist seqs : List ℕ) → contains a hist ≡ true → contains a (history hist seqs) ≡ true
contains-history a hist [] h = h
contains-history a hist (seq ∷ seqs) h =
    contains-history a (remember hist seq) seqs (contains-remember a hist seq h)

-- From the start of a session, whatever 64-bit numbers arrive in whatever order, the window answers each call of `check` as a receiver would that kept all the numbers it accepted: a number is accepted exactly when it was not accepted before and is less than 1024 behind the greatest accepted one.
pub answers-history_answers :
    (seqs : List ℕ) → All IsU64 seqs → answers new_window seqs ≡ history_answers [] seqs
answers-history_answers seqs small = answers_from new_window [] seqs new_window-Tracks small

-- A 64-bit number that was accepted after some run of 64-bit numbers from the start is refused whenever it comes again, whatever 64-bit numbers came in between.
pub check_once :
    (before between : List ℕ) (seq : ℕ)
    → All IsU64 before
    → All IsU64 between
    → IsU64 seq
    → (check (run new_window before) seq).1 ≡ true
    → (check (run (check (run new_window before) seq).0 between) seq).1 ≡ false
check_once before between seq sb sm ss accepted =
    (check_lem (run (check w seq).0 between) (history hist' between) seq after ss).0
    ∙ ground (arith, contains-history seq hist' between held)
  where
    w : ReplayWindow
    w = run new_window before

    hist : List ℕ
    hist = history [] before

    start : Tracks w hist
    start = run-Tracks new_window [] before new_window-Tracks sb

    hist' : List ℕ
    hist' = remember hist seq

    after : Tracks (run (check w seq).0 between) (history hist' between)
    after = run-Tracks (check w seq).0 hist' between (check_lem w hist seq start ss).1 sm

    held : contains seq hist' ≡ true
    held = ground (arith, (check_lem w hist seq start ss).0, ==_refl seq)
