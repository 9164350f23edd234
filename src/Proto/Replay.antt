-- ===== src/Proto/Replay.antt =====
-- internal/proto/replay.go: the sliding window that drops replayed sequence numbers. The bitmap is
-- a list of sixteen 64-bit words; bit `age % 64` of word `age / 64` stands for the number
-- `highest - age`. An index that Go would refuse (word 16 and above) reads 0 and writes nothing
-- here; `check` never uses one.
pub mod Words
pub mod Marks
pub mod History
pub mod Runs
use Prim.Native.Nat.{bit_and, bit_or}
use xessenger_cli.Prelude.{ℕ, zero, suc, ◌+◌, ◌-◌, ◌*◌, ◌/◌, ◌%◌, ◌^◌, ◌<◌, List, [], ◌∷◌}
use xessenger_cli.Prelude.{Bool, true, false, not, ◌&&◌, ltb, leb, ◌==◌, if◌then◌else◌}
use xessenger_cli.Prelude.{get_or, set, replicate}

abbrev pub window_size : ℕ
window_size = 1024

abbrev pub IsU64 : ℕ → Type 0
IsU64 x = x < 2 ^ 64

pub record ReplayWindow : Type 0 where
  pub highest : ℕ
  pub started : Bool
  pub bitmap : List ℕ

-- The zero value that a new session starts with.
abbrev pub new_window : ReplayWindow
new_window = record { highest = 0; started = false; bitmap = replicate 16 0 }

-- `x << s` and `1 << s` on uint64.
abbrev pub shl64 : ℕ → ℕ → ℕ
shl64 x s = x * 2 ^ s % 2 ^ 64

-- `a - b` on uint64.
abbrev pub sub64 : ℕ → ℕ → ℕ
sub64 a b = (a + 2 ^ 64 - b) % 2 ^ 64

-- The loop body of `slide`: the new word `i`, from the words as they are.
unfoldable pub slide_word : ℕ → ℕ → List ℕ → ℕ → ℕ
slide_word words bits bm i =
    if ltb i words
    then 0
    else let src = i - words in
      let v = shl64 (get_or bm src 0) bits in
      if not (bits == 0) && leb 1 src then bit_or v (get_or bm (src - 1) 0 / 2 ^ (64 - bits)) else v

-- The rounds `i = n - 1, …, 0`, each writing in place.
unfoldable pub slide_loop : ℕ → ℕ → ℕ → List ℕ → List ℕ
slide_loop words bits zero bm = bm
slide_loop words bits (suc n) bm = slide_loop words bits n (set bm n (slide_word words bits bm n))

unfoldable pub slide : ℕ → List ℕ → List ℕ
slide shift bm =
    if leb window_size shift then replicate 16 0 else slide_loop (shift / 64) (shift % 64) 16 bm

unfoldable pub bit_index : ReplayWindow → ℕ → ℕ × ℕ
bit_index w seq = let age = sub64 w.highest seq in (age / 64, age % 64)

unfoldable pub mark : ReplayWindow → ℕ → ReplayWindow
unfolding bit_index
mark w seq =
    let (word, bit) = bit_index w seq in
    record w { bitmap = set w.bitmap word (bit_or (get_or w.bitmap word 0) (shl64 1 bit)) }

unfoldable pub seen : ReplayWindow → ℕ → Bool
unfolding bit_index
seen w seq =
    let (word, bit) = bit_index w seq in not (bit_and (get_or w.bitmap word 0) (shl64 1 bit) == 0)

-- `check` answers whether the number is fresh, and marks it if it is.
unfoldable pub check : ReplayWindow → ℕ → ReplayWindow × Bool
check w seq =
    if not w.started
    then (mark (record w { started = true; highest = seq }) seq, true)
    else if ltb w.highest seq
    then (
      mark (record w { highest = seq; bitmap = slide (sub64 seq w.highest) w.bitmap }) seq,
      true,
    )
    else if seq == w.highest
    then (w, false)
    else if leb window_size (sub64 w.highest seq)
    then (w, false)
    else if seen w seq
    then (w, false)
    else (mark w seq, true)
