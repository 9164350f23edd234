-- ===== src/Proto/Replay/Words.antt =====
-- What `slide` and `mark` do to the single bits of the bitmap.
use Prim.Native.Nat.{bit_or}
use native.Mathlib.Nat.{mod-eq_of_lt, div-le_self}
use xessenger_cli.Prelude.{ℕ, zero, suc, ◌+◌, ◌-◌, ◌*◌, ◌/◌, ◌%◌, ◌^◌, ◌≤◌, ◌<◌, List, [], ◌∷◌}
use xessenger_cli.Prelude.{ltb, leb, if◌then◌else◌, arith}
use xessenger_cli.Prelude.{get_or, set, replicate, length, length-set}
use xessenger_cli.Prelude.{
  get_or-set_self, get_or-set_ne, get_or-replicate, ◌≡◌, refl, ap, sym, ◌∙◌,
}
use xessenger_cli.Prelude.{◌⊎◌, inl, inr, All, Bool-cases}
use xessenger_cli.Prelude.Bits.{
  testbit, testbit_eq, testbit-bit_or, testbit-shl, testbit-shr, testbit-mod,
}
use xessenger_cli.Prelude.Bits.{testbit-zero, bit_or-lt}
use xessenger_cli.Proto.Replay.{slide_word, slide_loop, slide, shl64, window_size, IsU64}

compare_cases : (a b : ℕ) → (a < b) ⊎ ((a ≡ b) ⊎ (b < a))
compare_cases a b = grind arith

-- The bit that stands for an age.
abbrev pub window_bit : List ℕ → ℕ → ℕ
window_bit bm age = testbit (get_or bm (age / 64) 0) (age % 64)

slide_word-set :
    (words bits : ℕ) (bm : List ℕ) (n v i : ℕ)
    → i < n
    → slide_word words bits (set bm n v) i ≡ slide_word words bits bm i
unfolding slide_word
slide_word-set words bits bm n v i h = ground (
  arith,
  get_or-set_ne bm n (i - words) v 0 (omega arith),
  get_or-set_ne bm n (i - words - 1) v 0 (omega arith),
)

pub length-slide_loop :
    (words bits n : ℕ) (bm : List ℕ) → length (slide_loop words bits n bm) ≡ length bm
unfolding slide_loop
length-slide_loop words bits zero bm = refl
length-slide_loop words bits (suc n) bm =
    length-slide_loop words bits n (set bm n (slide_word words bits bm n))
    ∙ length-set bm n (slide_word words bits bm n)

-- The loop writes in place, and still every round reads words that no earlier round has written.
slide_loop-word :
    (words bits n : ℕ) (bm : List ℕ) (j : ℕ)
    → n ≤ length bm
    → get_or (slide_loop words bits n bm) j 0
      ≡ (if ltb j n then slide_word words bits bm j else get_or bm j 0)
unfolding slide_loop
slide_loop-word words bits zero bm j h = ground arith
slide_loop-word words bits (suc n) bm j h =
    let v = slide_word words bits bm n in
    let len : length (set bm n v) ≡ length bm = length-set bm n v in
    elim (compare_cases j n) [
      | inl below ↦ ground (
        arith,
        len,
        slide_loop-word words bits n (set bm n v) j,
        slide_word-set words bits bm n v j below,
      )
      | inr (inl e) ↦
          ground
            (arith, len, slide_loop-word words bits n (set bm n v) j, get_or-set_self bm n v 0 h)
      | inr (inr above) ↦ ground (
        arith,
        len,
        slide_loop-word words bits n (set bm n v) j,
        get_or-set_ne bm n j v 0 (omega arith),
      )
    ]

testbit_above : (n k x : ℕ) → x < 2 ^ n → n ≤ k → testbit x k ≡ 0
testbit_above n k x h p =
    testbit_eq x (x % 2 ^ n) k k (sym (mod-eq_of_lt h)) refl ∙ testbit-mod n k x ∙ ground arith

pub shl64-testbit :
    (x s k : ℕ) → k < 64 → testbit (shl64 x s) k ≡ (if ltb k s then 0 else testbit x (k - s))
shl64-testbit x s k h = testbit-mod 64 k (x * 2 ^ s) ∙ ground (arith, testbit-shl s k x)

pub window_bit_at :
    (bm : List ℕ) (age j k : ℕ)
    → age ≡ j * 64 + k
    → k < 64
    → window_bit bm age ≡ testbit (get_or bm j 0) k
window_bit_at bm age j k e h =
    let q : age / 64 ≡ j = omega arith in let r : age % 64 ≡ k = omega arith in rw (q, r)

pub get_or-IsU64 : (bm : List ℕ) (j : ℕ) → All IsU64 bm → IsU64 (get_or bm j 0)
get_or-IsU64 [] j h = omega arith
get_or-IsU64 (x ∷ xs) zero h = h.0
get_or-IsU64 (x ∷ xs) (suc j) h = get_or-IsU64 xs j h.1

module _ (words bits : ℕ) (bm : List ℕ) (i k : ℕ) (hb : bits < 64) (hk : k < 64) where
  abbrev here : ℕ
  here = get_or bm (i - words) 0

  abbrev below : ℕ
  below = get_or bm (i - words - 1) 0

  -- The low bits of the word come from the word below it.
  carried-testbit :
      IsU64 below
      → testbit (below / 2 ^ (64 - bits)) k
        ≡ (if ltb k bits then testbit below (64 - bits + k) else 0)
  carried-testbit small =
      ground (arith, testbit-shr (64 - bits) k below, testbit_above 64 (64 - bits + k) below small)

  joined-testbit :
      IsU64 below
      → testbit (bit_or (shl64 here bits) (below / 2 ^ (64 - bits))) k
        ≡ (if ltb k bits then testbit below (64 - bits + k) else testbit here (k - bits))
  joined-testbit small =
      testbit-bit_or k (shl64 here bits) (below / 2 ^ (64 - bits))
      ∙ ground (arith, shl64-testbit here bits k hk, carried-testbit small)

  -- Bit `k` of the word that `slide` writes at `i`.
  slide_word-testbit :
      All IsU64 bm
      → testbit (slide_word words bits bm i) k ≡ (
          if ltb (i * 64 + k) (words * 64 + bits)
          then 0
          else window_bit bm (i * 64 + k - (words * 64 + bits)))
  unfolding slide_word
  slide_word-testbit small = ground (
    arith,
    testbit-zero k,
    joined-testbit (get_or-IsU64 bm (i - words - 1) small),
    shl64-testbit here bits k hk,
    window_bit_at bm (i * 64 + k - (words * 64 + bits)) (i - words) (k - bits),
    window_bit_at bm (i * 64 + k - (words * 64 + bits)) (i - words - 1) (64 - bits + k),
  )

-- Sliding by `shift` moves the bit of every age to the age `shift` above, within the window.
pub window_bit-slide :
    (shift : ℕ) (bm : List ℕ) (age : ℕ)
    → length bm ≡ 16
    → All IsU64 bm
    → age < window_size
    → window_bit (slide shift bm) age ≡ (if ltb age shift then 0 else window_bit bm (age - shift))
unfolding slide
window_bit-slide shift bm age len small h = elim (Bool-cases (leb window_size shift)) [
  | inl far ↦ rw (far, slide) (all_zero age ∙ ground arith)
  | inr near ↦
      rw (near, slide)
        (ap (λ x. testbit x (age % 64))
            (slide_loop-word (shift / 64) (shift % 64) 16 bm (age / 64) (omega arith)
              ∙ ground arith)
          ∙ slide_word-testbit (shift / 64) (shift % 64) bm (age / 64) (age % 64) (omega arith)
              (omega arith) small
          ∙ whole)
]
  where
    all_zero : (a : ℕ) → window_bit (replicate 16 0) a ≡ 0
    all_zero a = rw (get_or-replicate {A = ℕ} 16 (a / 64) 0) (testbit-zero (a % 64))

    e : age / 64 * 64 + age % 64 ≡ age
    e = omega arith

    f : shift / 64 * 64 + shift % 64 ≡ shift
    f = omega arith

    whole :
        (if ltb (age / 64 * 64 + age % 64) (shift / 64 * 64 + shift % 64)
          then 0
          else window_bit bm (age / 64 * 64 + age % 64 - (shift / 64 * 64 + shift % 64)))
        ≡ (if ltb age shift then 0 else window_bit bm (age - shift))
    whole = rw (e, f) refl

pub set-IsU64 : (bm : List ℕ) (i v : ℕ) → All IsU64 bm → IsU64 v → All IsU64 (set bm i v)
set-IsU64 [] i v h hv = h
set-IsU64 (x ∷ xs) zero v h hv = (hv, h.1)
set-IsU64 (x ∷ xs) (suc i) v h hv = (h.0, set-IsU64 xs i v h.1 hv)

slide_word-IsU64 :
    (words bits : ℕ) (bm : List ℕ) (i : ℕ) → All IsU64 bm → IsU64 (slide_word words bits bm i)
unfolding slide_word
slide_word-IsU64 words bits bm i small = ground (
  arith,
  bit_or-lt 64 (shl64 (get_or bm (i - words) 0) bits)
      (get_or bm (i - words - 1) 0 / 2 ^ (64 - bits)),
  get_or-IsU64 bm (i - words - 1) small,
  div-le_self (get_or bm (i - words - 1) 0) (2 ^ (64 - bits)),
)

slide_loop-IsU64 :
    (words bits n : ℕ) (bm : List ℕ) → All IsU64 bm → All IsU64 (slide_loop words bits n bm)
unfolding slide_loop
slide_loop-IsU64 words bits zero bm small = small
slide_loop-IsU64 words bits (suc n) bm small =
    slide_loop-IsU64 words bits n _
      (set-IsU64 bm n _ small (slide_word-IsU64 words bits bm n small))

pub slide-IsU64 : (shift : ℕ) (bm : List ℕ) → All IsU64 bm → All IsU64 (slide shift bm)
unfolding slide
slide-IsU64 shift bm small = ground (arith, slide_loop-IsU64 (shift / 64) (shift % 64) 16 bm small)

pub length-slide : (shift : ℕ) (bm : List ℕ) → length bm ≡ 16 → length (slide shift bm) ≡ 16
unfolding slide
length-slide shift bm h = ground (arith, length-slide_loop (shift / 64) (shift % 64) 16 bm)
