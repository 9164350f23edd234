-- ===== src/Proto/Replay/History.antt =====
-- internal/proto/replay.go: the window beside the list of the numbers accepted. A number is fresh if it
-- is not in the list and less than `window_size` behind the greatest one there.
use Prim.Native.Nat.{max}
use xessenger_cli.Prelude.{ℕ, ◌-◌, ◌/◌, ◌%◌, ◌≤◌, ◌<◌, List, [], ◌∷◌}
use xessenger_cli.Prelude.{Bool, true, false, not, ◌&&◌, ◌||◌, ltb, leb, ◌==◌, if◌then◌else◌, arith}
use xessenger_cli.Prelude.{
  length, All, ◌≡◌, refl, ap, sym, ◌∙◌, if_elim, tests, ltb→lt, ltb_false→le, ==_iff,
}
use xessenger_cli.Prelude.{get_or-replicate}
use xessenger_cli.Prelude.Bits.{testbit, testbit-zero}
use xessenger_cli.Proto.Replay.{
  sub64, window_size, IsU64, ReplayWindow, new_window, seen, check, slide,
}
use xessenger_cli.Proto.Replay.Words.{window_bit, window_bit-slide, slide-IsU64, length-slide}
use xessenger_cli.Proto.Replay.Marks.{
  mark_age, length-mark_age, mark_age-IsU64, window_bit-mark_age, mark_lem, seen_lem,
}

abbrev pub contains : ℕ → List ℕ → Bool
contains a [] = false
contains a (x ∷ xs) = a == x || contains a xs

abbrev pub maximum : List ℕ → ℕ
maximum [] = 0
maximum (x ∷ xs) = max x (maximum xs)

-- The specification: what a receiver that kept every accepted number would answer.
abbrev pub fresh : List ℕ → ℕ → Bool
fresh hist seq = ltb (maximum hist - seq) window_size && not (contains seq hist)

abbrev pub remember : List ℕ → ℕ → List ℕ
remember hist seq = if fresh hist seq then seq ∷ hist else hist

abbrev nonempty : List ℕ → Bool
nonempty [] = false
nonempty (x ∷ xs) = true

contains_above : (a : ℕ) (hist : List ℕ) → maximum hist < a → contains a hist ≡ false
contains_above a [] h = refl
contains_above a (x ∷ xs) h = ground (arith, contains_above a xs (omega arith))

nonempty-false : (hist : List ℕ) → nonempty hist ≡ false → hist ≡ []
nonempty-false [] h = refl
nonempty-false (x ∷ xs) h = cc

contains-maximum : (hist : List ℕ) → nonempty hist ≡ true → contains (maximum hist) hist ≡ true
contains-maximum [] h = cc
contains-maximum (x ∷ []) h = ground arith
contains-maximum (x ∷ y ∷ ys) h = ground (arith, contains-maximum (y ∷ ys) refl)

-- The bit that a history puts at an age.
abbrev history_bit : ℕ → List ℕ → ℕ → ℕ
history_bit h hist age = if leb age h && contains (h - age) hist then 1 else 0

pub record Tracks (w : ReplayWindow) (hist : List ℕ) : Type 0 where
  pub words : length w.bitmap ≡ 16
  pub small : All IsU64 w.bitmap
  pub top : w.highest ≡ maximum hist
  pub top_small : IsU64 w.highest
  pub begun : w.started ≡ nonempty hist
  pub bits :
      (age : ℕ) → age < window_size → window_bit w.bitmap age ≡ history_bit w.highest hist age

pub new_window-Tracks : Tracks new_window []
new_window-Tracks = record {
  words = refl;
  small = omega arith;
  top = refl;
  top_small = omega arith;
  begun = refl;
  bits = λ age _.
      ap (λ x. testbit x (age % 64)) (get_or-replicate {A = ℕ} 16 (age / 64) 0)
      ∙ testbit-zero (age % 64)
      ∙ ground arith;
}

sub64_self : (a : ℕ) → sub64 a a ≡ 0
sub64_self a = omega arith

sub64_le : (a b : ℕ) → IsU64 a → b ≤ a → sub64 a b ≡ a - b
sub64_le a b h k = omega arith

-- The first number, and any number above the greatest, goes to age 0 of the bitmap that was slid.
advance-Tracks :
    (bm hist : List ℕ) (seq : ℕ) (started : Bool)
    → started ≡ true
    → length bm ≡ 16
    → All IsU64 bm
    → IsU64 seq
    → maximum hist ≤ seq
    → ((age : ℕ) → age < window_size → window_bit bm age ≡ history_bit seq hist age)
    → Tracks
        (record { highest = seq; started = started; bitmap = mark_age bm (sub64 seq seq) })
        (seq ∷ hist)
advance-Tracks bm hist seq started on len sm small above b = rw (sub64_self seq) (record {
  words = length-mark_age bm 0 ∙ len;
  small = mark_age-IsU64 bm 0 sm;
  top = omega arith;
  top_small = small;
  begun = on;
  bits = λ age h. window_bit-mark_age bm 0 age len (omega arith) ∙ ground (arith, b age h);
})

module _ (w : ReplayWindow) (hist : List ℕ) (seq : ℕ) (t : Tracks w hist) (small : IsU64 seq) where
  slid_bits :
      maximum hist < seq
      → (age : ℕ) → age < window_size
      → window_bit (slide (sub64 seq w.highest) w.bitmap) age ≡ history_bit seq hist age
  slid_bits above age h =
      ap (λ n. window_bit (slide n w.bitmap) age)
        (sub64_le seq w.highest small (omega (arith, t.top)))
      ∙ window_bit-slide (seq - w.highest) w.bitmap age t.words t.small h
      ∙ ground (arith, t.top, t.bits (age - (seq - w.highest)), contains_above (seq - age) hist)

  marked-Tracks :
      nonempty hist ≡ true
      → seq < w.highest
      → w.highest - seq < window_size
      → Tracks (record w { bitmap = mark_age w.bitmap (w.highest - seq) }) (seq ∷ hist)
  marked-Tracks begun below near = record {
    words = length-mark_age w.bitmap (w.highest - seq) ∙ t.words;
    small = mark_age-IsU64 w.bitmap (w.highest - seq) t.small;
    top = omega (arith, t.top);
    top_small = t.top_small;
    begun = t.begun ∙ begun;
    bits = λ age h.
        window_bit-mark_age w.bitmap (w.highest - seq) age t.words near
        ∙ ground (arith, t.bits age h);
  }

  abbrev Answers : ReplayWindow × Bool → Type 0
  Answers r = (r.1 ≡ fresh hist seq) × Tracks r.0 (remember hist seq)

  accepts :
      (w' : ReplayWindow) → fresh hist seq ≡ true → Tracks w' (seq ∷ hist) → Answers (w', true)
  accepts w' e t' = (sym e, rw e t')

  refuses : fresh hist seq ≡ false → Answers (w, false)
  refuses e = (sym e, rw e t)

  empty_bits :
      hist ≡ [] → (age : ℕ) → age < window_size → window_bit w.bitmap age ≡ history_bit seq hist age
  empty_bits e age h =
      t.bits age h ∙ ground (arith, ap (contains (w.highest - age)) e, ap (contains (seq - age)) e)

  -- The age of a number that is not above the greatest.
  abbrev age_of : ℕ
  age_of = w.highest - seq

  seen-contains : seq ≤ w.highest → age_of < window_size → seen w seq ≡ contains seq hist
  seen-contains below near =
      seen_lem w seq
      ∙ ap (λ n. window_bit w.bitmap n == 1) (sub64_le w.highest seq t.top_small below)
      ∙ ground (arith, t.bits age_of near, ap (λ x. contains x hist) back)
    where
      back : w.highest - age_of ≡ seq
      back = omega arith

  -- One call of `check` answers as the history does, and the window goes on tracking it.
  pub check_lem : Answers (check w seq)
  unfolding check
  check_lem =
      if_elim Answers (not w.started) _ _
        (λ new.
          let e : hist ≡ [] = nonempty-false hist (ground (arith, t.begun)) in
          let low : maximum hist ≤ seq = rw e (omega arith) in
          accepts _ (rw e (ground arith)) (
            rw mark_lem (
              advance-Tracks w.bitmap hist seq true refl t.words t.small small low (empty_bits e))))
        (λ old.
          if_elim Answers (ltb w.highest seq) _ _
            (λ above.
              let up : maximum hist < seq = omega (tests, t.top, ltb→lt _ _ above) in
              accepts _ (ground (arith, contains_above seq hist)) (
                rw mark_lem (
                  advance-Tracks (slide (sub64 seq w.highest) w.bitmap) hist seq w.started
                    (ground arith) (length-slide _ w.bitmap t.words)
                    (slide-IsU64 _ w.bitmap t.small) small (omega arith) (slid_bits up))))
            (λ e1.
              let within : seq ≤ w.highest = ltb_false→le _ _ e1 in
              let begun : nonempty hist ≡ true = ground (arith, t.begun) in
              if_elim Answers (seq == w.highest) _ _
                (λ same. refuses (
                  ground (
                    arith,
                    t.top,
                    contains-maximum hist begun,
                    ap (λ x. contains x hist) (equal same),
                  )))
                (λ e2.
                  if_elim Answers (leb window_size (sub64 w.highest seq)) _ _
                    (λ far.
                      refuses (ground (arith, t.top, sub64_le w.highest seq t.top_small within)))
                    (λ near.
                      let close : age_of < window_size =
                        ground (arith, sub64_le w.highest seq t.top_small within) in
                      if_elim Answers (seen w seq) _ _
                        (λ dup. refuses (ground (arith, seen-contains within close)))
                        (λ unseen. accepts _ (ground (arith, t.top, seen-contains within close)) (
                          rw (mark_lem, sub64_le w.highest seq t.top_small within)
                            (marked-Tracks begun (ground arith) close)))))))
    where
      equal : (seq == w.highest) ≡ true → seq ≡ maximum hist
      equal e = (==_iff seq w.highest).0 e ∙ t.top
