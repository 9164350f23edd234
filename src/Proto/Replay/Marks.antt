-- ===== src/Proto/Replay/Marks.antt =====
-- What `mark` and `seen` do to the single bits of the bitmap.
use Prim.Native.Nat.{bit_and, bit_or}
use native.Mathlib.Nat.{pow-le-pow_right, one-le-pow}
use xessenger_cli.Prelude.{ℕ, zero, suc, ◌-◌, ◌*◌, ◌/◌, ◌%◌, ◌^◌, ◌<◌, List}
use xessenger_cli.Prelude.{◌==◌, if◌then◌else◌, arith}
use xessenger_cli.Prelude.{get_or, set, length, length-set, get_or-set_self, get_or-set_ne, All}
use xessenger_cli.Prelude.{◌≡◌, refl, ap, ◌∙◌, ◌⊎◌, inl, inr}
use xessenger_cli.Prelude.Bits.{testbit, testbit-bit_or, testbit-zero, testbit-le}
use xessenger_cli.Prelude.Bits.{bit_or-lt, bit_and_one_bit}
use xessenger_cli.Proto.Replay.{shl64, sub64, window_size, IsU64, ReplayWindow, mark, seen}
use xessenger_cli.Proto.Replay.Words.{window_bit, set-IsU64, get_or-IsU64, shl64-testbit}

-- `mark`, seen from the bitmap: the word of an age with its bit set.
pub mark_age : List ℕ → ℕ → List ℕ
mark_age bm age = set bm (age / 64) (bit_or (get_or bm (age / 64) 0) (shl64 1 (age % 64)))

pub length-mark_age : (bm : List ℕ) (age : ℕ) → length (mark_age bm age) ≡ length bm
unfolding mark_age
length-mark_age bm age = length-set bm (age / 64) _

pub mark_age-IsU64 : (bm : List ℕ) (age : ℕ) → All IsU64 bm → All IsU64 (mark_age bm age)
unfolding mark_age
mark_age-IsU64 bm age small =
    set-IsU64 bm (age / 64) _ small
      (bit_or-lt 64 _ _ (get_or-IsU64 bm (age / 64) small) (omega arith))

testbit-one : (k : ℕ) → testbit 1 k ≡ (if k == 0 then 1 else 0)
testbit-one zero = refl
testbit-one (suc k) = testbit-zero k ∙ ground arith

one_bit : (b k : ℕ) → k < 64 → testbit (shl64 1 b) k ≡ (if k == b then 1 else 0)
one_bit b k h = shl64-testbit 1 b k h ∙ ground (arith, testbit-one (k - b))

same_word : (a b : ℕ) → (a ≡ b) ⊎ ((a ≡ b) → ⊥)
same_word a b = grind arith

-- Marking an age sets its bit and no other.
pub window_bit-mark_age :
    (bm : List ℕ) (age j : ℕ)
    → length bm ≡ 16
    → age < window_size
    → window_bit (mark_age bm age) j ≡ (if j == age then 1 else window_bit bm j)
unfolding mark_age
window_bit-mark_age bm age j len h = elim (same_word (age / 64) (j / 64)) [
  | inl e ↦ ground (
    arith,
    e,
    get_or-set_self bm (age / 64) (bit_or (get_or bm (age / 64) 0) (shl64 1 (age % 64))) 0
        (omega arith),
    testbit-bit_or (j % 64) (get_or bm (age / 64) 0) (shl64 1 (age % 64)),
    one_bit (age % 64) (j % 64) (omega arith),
    testbit-le (get_or bm (age / 64) 0) (j % 64),
  )
  | inr n ↦ ground (
    arith,
    get_or-set_ne bm (age / 64) (j / 64) (bit_or (get_or bm (age / 64) 0) (shl64 1 (age % 64))) 0 n,
  )
]

mask-window_bit :
    (bm : List ℕ) (age : ℕ)
    → bit_and (get_or bm (age / 64) 0) (shl64 1 (age % 64)) ≡ window_bit bm age * 2 ^ (age % 64)
mask-window_bit bm age =
    ap (bit_and (get_or bm (age / 64) 0))
      (omega (arith, pow-le-pow_right {n = 2} (omega arith) {i = age % 64} {j = 63} (omega arith)))
    ∙ bit_and_one_bit (age % 64) (get_or bm (age / 64) 0)

-- `mark` and `seen` by ages.
pub mark_lem :
    (w : ReplayWindow) (seq : ℕ)
    → mark w seq ≡ record w { bitmap = mark_age w.bitmap (sub64 w.highest seq) }
unfolding mark mark_age
mark_lem w seq = refl

pub seen_lem :
    (w : ReplayWindow) (seq : ℕ) → seen w seq ≡ (window_bit w.bitmap (sub64 w.highest seq) == 1)
unfolding seen
seen_lem w seq = ground (
  arith,
  mask-window_bit w.bitmap age,
  testbit-le (get_or w.bitmap (age / 64) 0) (age % 64),
  one-le-pow (age % 64) 2 (omega arith),
)
  where
    age : ℕ
    age = sub64 w.highest seq
