-- ===== src/Prelude/Bits.antt =====
-- The bits of a number, and what the native bit operations and shifts do to them.
use Prim.Native.Nat.{ℕ, zero, suc, ◌+◌, ◌-◌, ◌*◌, ◌/◌, ◌%◌, ◌^◌, ◌≤◌, ◌<◌, min, max}
use Prim.Native.Nat.{bit_and, bit_or, bit_xor, digits, differ}
use Prim.Native.Nat.{bit_and-bitwise, bit_or-bitwise, bit_xor-bitwise}
use mathlib.Core.Path.{◌≡◌, refl, ap, sym, ◌∙◌}
use native.Mathlib.Omega.{arith}
use native.Mathlib.Nat.{
  pow-succ', div-div-eq-div-mul, div-add-mod, mod-lt, one-le-pow, add-mul-mod_self_left,
  mod-eq_of_lt,
}
use xessenger_cli.Prelude.Tests.{ltb, if◌then◌else◌}

-- Bit `k` of `x`, lowest first.
abbrev pub testbit : ℕ → ℕ → ℕ
testbit x zero = x % 2
testbit x (suc k) = testbit (x / 2) k

pub testbit_eq : (x y j k : ℕ) → x ≡ y → j ≡ k → testbit x j ≡ testbit y k
testbit_eq x y j k p q = cc

pub testbit-le : (x k : ℕ) → testbit x k ≤ 1
testbit-le x zero = omega arith
testbit-le x (suc k) = testbit-le (x / 2) k

pub testbit-zero : (k : ℕ) → testbit 0 k ≡ 0
testbit-zero zero = refl
testbit-zero (suc k) = testbit-zero k

-- A native bit operation runs `digits` on as much fuel as its first operand is large; more changes
-- nothing, so each operation has an equation for its lowest digit.
module _ (tail : ℕ → ℕ) (op : ℕ → ℕ → ℕ)
    (unroll : (y : ℕ) → tail y ≡ tail (y / 2) * 2 + op 0 (y % 2)) where
  same_digits : (x y k l : ℕ) → x ≤ l → x ≤ k → digits tail op k x y ≡ digits tail op l x y
  same_digits (suc x) y (suc k) (suc l) few enough =
      omega (arith, same_digits (suc x / 2) (y / 2) k l (omega arith) (omega arith))
  same_digits (suc x) y zero l few enough = absurd (omega (arith, enough))
  same_digits (suc x) y (suc k) zero few enough = absurd (omega (arith, few))
  same_digits zero y zero zero few enough = refl
  same_digits zero y (suc k) zero few enough = refl
  same_digits zero y zero (suc l) few enough = refl
  same_digits zero y (suc k) (suc l) few enough = refl

  lowest_digit :
      (x y : ℕ)
      → digits tail op x x y ≡ digits tail op (x / 2) (x / 2) (y / 2) * 2 + op (x % 2) (y % 2)
  lowest_digit zero y = unroll y
  lowest_digit (suc x) y =
      omega (arith, same_digits (suc x / 2) (y / 2) x (suc x / 2) (omega arith) (omega arith))

pub bit_and_step : (x y : ℕ) → bit_and x y ≡ bit_and (x / 2) (y / 2) * 2 + min (x % 2) (y % 2)
bit_and_step x y = omega (
  arith,
  lowest_digit (λ y. zero) min (λ y. omega arith) x y,
  bit_and-bitwise (x / 2) (y / 2),
  bit_and-bitwise x y,
)

pub bit_or_step : (x y : ℕ) → bit_or x y ≡ bit_or (x / 2) (y / 2) * 2 + max (x % 2) (y % 2)
bit_or_step x y = omega (
  arith,
  lowest_digit (λ y. y) max (λ y. omega arith) x y,
  bit_or-bitwise (x / 2) (y / 2),
  bit_or-bitwise x y,
)

abbrev xor_digit : ℕ → ℕ → ℕ
xor_digit x y = (x + y) % 2

differ-xor_digit : (x y : ℕ) → x ≤ 1 → y ≤ 1 → differ x y ≡ xor_digit x y
differ-xor_digit zero y p q = omega arith
differ-xor_digit (suc zero) zero p q = refl
differ-xor_digit (suc zero) (suc zero) p q = refl
differ-xor_digit (suc zero) (suc (suc y)) p q = absurd (omega arith)
differ-xor_digit (suc (suc x)) y p q = absurd (omega arith)

pub bit_xor_step : (a b : ℕ) → bit_xor a b ≡ bit_xor (a / 2) (b / 2) * 2 + (a % 2 + b % 2) % 2
bit_xor_step a b = omega (
  arith,
  bit_xor-bitwise a b,
  bit_xor-bitwise (a / 2) (b / 2),
  lowest_digit (λ b. b) differ (λ b. omega arith) a b,
  differ-xor_digit (a % 2) (b % 2) (omega arith) (omega arith),
)

pub testbit-bit_and : (k a b : ℕ) → testbit (bit_and a b) k ≡ min (testbit a k) (testbit b k)
testbit-bit_and zero a b = omega (arith, bit_and_step a b)
testbit-bit_and (suc k) a b = ap (λ x. testbit x k) halved ∙ testbit-bit_and k (a / 2) (b / 2)
  where
    halved : bit_and a b / 2 ≡ bit_and (a / 2) (b / 2)
    halved = omega (arith, bit_and_step a b)

pub testbit-bit_or : (k a b : ℕ) → testbit (bit_or a b) k ≡ max (testbit a k) (testbit b k)
testbit-bit_or zero a b = omega (arith, bit_or_step a b)
testbit-bit_or (suc k) a b = ap (λ x. testbit x k) halved ∙ testbit-bit_or k (a / 2) (b / 2)
  where
    halved : bit_or a b / 2 ≡ bit_or (a / 2) (b / 2)
    halved = omega (arith, bit_or_step a b)

-- Masking twice with one key gives the number back.
pub xor_cancel : (n a b : ℕ) → a < 2 ^ n → b < 2 ^ n → bit_xor (bit_xor a b) b ≡ a
xor_cancel zero zero zero p q = refl
xor_cancel zero zero (suc b) p q = absurd (omega arith)
xor_cancel zero (suc a) b p q = absurd (omega arith)
xor_cancel (suc n) a b p q = omega (
  arith,
  bit_xor_step a b,
  bit_xor_step (bit_xor a b) b,
  ap (λ x. bit_xor x (b / 2)) halved,
  xor_cancel n (a / 2) (b / 2) (omega (arith, pow-succ' 2 n)) (omega (arith, pow-succ' 2 n)),
)
  where
    halved : bit_xor a b / 2 ≡ bit_xor (a / 2) (b / 2)
    halved = omega (arith, bit_xor_step a b)

pub bit_xor-lt : (n a b : ℕ) → a < 2 ^ n → b < 2 ^ n → bit_xor a b < 2 ^ n
bit_xor-lt zero zero zero p q = omega arith
bit_xor-lt zero zero (suc b) p q = absurd (omega arith)
bit_xor-lt zero (suc a) b p q = absurd (omega arith)
bit_xor-lt (suc n) a b p q = omega (
  arith,
  bit_xor_step a b,
  pow-succ' 2 n,
  bit_xor-lt n (a / 2) (b / 2) (omega (arith, pow-succ' 2 n)) (omega (arith, pow-succ' 2 n)),
)

pub bit_or-lt : (n a b : ℕ) → a < 2 ^ n → b < 2 ^ n → bit_or a b < 2 ^ n
bit_or-lt zero zero zero p q = omega arith
bit_or-lt zero zero (suc b) p q = absurd (omega arith)
bit_or-lt zero (suc a) b p q = absurd (omega arith)
bit_or-lt (suc n) a b p q = omega (
  arith,
  bit_or_step a b,
  pow-succ' 2 n,
  bit_or-lt n (a / 2) (b / 2) (omega (arith, pow-succ' 2 n)) (omega (arith, pow-succ' 2 n)),
)

shr_suc : (s x : ℕ) → x / 2 ^ suc s ≡ x / 2 / 2 ^ s
shr_suc s x = ap (λ t. x / t) (pow-succ' 2 s) ∙ sym (div-div-eq-div-mul x 2 (2 ^ s))

shl_suc : (s x : ℕ) → x * 2 ^ suc s / 2 ≡ x * 2 ^ s
shl_suc s x = omega (arith, ap (λ t. x * t) (pow-succ' 2 s))

mod_suc : (n x : ℕ) → x % 2 ^ suc n ≡ x / 2 % 2 ^ n * 2 + x % 2
mod_suc n x =
    ap (λ t. x % t) (pow-succ' 2 n)
    ∙ ap (λ t. t % (2 * 2 ^ n)) split
    ∙ add-mul-mod_self_left low (2 * 2 ^ n) (x / 2 / 2 ^ n)
    ∙ mod-eq_of_lt (omega (arith, mod-lt (x / 2) {m = 2 ^ n} (one-le-pow n 2 (omega arith))))
  where
    low : ℕ
    low = x / 2 % 2 ^ n * 2 + x % 2

    split : x ≡ low + 2 * 2 ^ n * (x / 2 / 2 ^ n)
    split = omega (arith, div-add-mod (x / 2) (2 ^ n), div-add-mod x 2)

-- `x >> s`.
pub testbit-shr : (s k x : ℕ) → testbit (x / 2 ^ s) k ≡ testbit x (s + k)
testbit-shr zero k x = testbit_eq (x / 1) x k (0 + k) (omega arith) (omega arith)
testbit-shr (suc s) k x =
    ap (λ t. testbit t k) (shr_suc s x)
    ∙ testbit-shr s k (x / 2)
    ∙ testbit_eq x x (suc (s + k)) (suc s + k) refl (omega arith)

-- `x << s`, before it is cut to the word.
pub testbit-shl : (s k x : ℕ) → testbit (x * 2 ^ s) k ≡ (if ltb k s then 0 else testbit x (k - s))
testbit-shl zero k x = ground (arith, testbit_eq (x * 1) x k (k - 0) (omega arith) (omega arith))
testbit-shl (suc s) zero x = ground (arith, ap (λ t. x * t) (pow-succ' 2 s))
testbit-shl (suc s) (suc k) x =
    ap (λ t. testbit t k) (shl_suc s x)
    ∙ testbit-shl s k x
    ∙ ground (arith, testbit_eq x x (k - s) (suc k - suc s) refl (omega arith))

pub testbit-mod : (n k x : ℕ) → testbit (x % 2 ^ n) k ≡ (if ltb k n then testbit x k else 0)
testbit-mod zero k x = ap (λ t. testbit t k) (omega arith) ∙ testbit-zero k ∙ ground arith
testbit-mod (suc n) zero x = ground (arith, mod_suc n x)
testbit-mod (suc n) (suc k) x =
    ap (λ t. testbit t k) (omega (arith, mod_suc n x)) ∙ testbit-mod n k (x / 2) ∙ ground arith

pub bit_and-zero : (n w : ℕ) → w ≤ n → bit_and w 0 ≡ 0
bit_and-zero n zero h = refl
bit_and-zero zero (suc w) h = absurd (omega arith)
bit_and-zero (suc n) (suc w) h =
    omega (arith, bit_and_step (suc w) 0, bit_and-zero n (suc w / 2) (omega arith))

bit_and-one : (w : ℕ) → bit_and w 1 ≡ w % 2
bit_and-one w = omega (arith, bit_and_step w 1, bit_and-zero (w / 2) (w / 2) (omega arith))

-- Masking with one bit.
pub bit_and_one_bit : (b w : ℕ) → bit_and w (2 ^ b) ≡ testbit w b * 2 ^ b
bit_and_one_bit zero w = bit_and-one w ∙ omega arith
bit_and_one_bit (suc b) w = omega (
  arith,
  bit_and_step w (2 ^ suc b),
  pow-succ' 2 b,
  ap (λ t. bit_and (w / 2) t) halved,
  bit_and_one_bit b (w / 2),
  ap (λ t. testbit (w / 2) b * t) (pow-succ' 2 b),
)
  where
    halved : 2 ^ suc b / 2 ≡ 2 ^ b
    halved = omega (arith, pow-succ' 2 b)
