-- ===== src/Prelude/Bytes.antt =====
-- Byte slices as lists of numbers, and the big-endian integers of encoding/binary.
use native.Mathlib.Nat.{
  pow-succ', div-add-mod, mod-lt, one-le-pow, mod-eq_of_lt, add-mul-mod_self_left,
  mul-add-div_right, div-eq_of_lt, zero-add, suc-add,
}
use Prim.Native.Nat.{ℕ, zero, suc, ◌+◌, ◌*◌, ◌/◌, ◌%◌, ◌^◌, ◌<◌}
use mathlib.Core.Path.{◌≡◌, refl, ap, ap₂, sym, ◌∙◌}
use mathlib.Core.Bool.{Bool, true, false, ◌&&◌}
use mathlib.Core.Logic.{◌↔◌}
use mathlib.Core.List.{List, [], ◌∷◌, ◌++◌}
use native.Mathlib.Omega.{arith}
use xessenger_cli.Prelude.Lists.{length, take, drop, All, take-append-drop}
use xessenger_cli.Prelude.Tests.{◌==◌}

abbrev pub IsByte : ℕ → Type 0
IsByte b = b < 256

-- `PutUint16`, `PutUint32` and `PutUint64` are the cases 2, 4 and 8.
unfoldable pub put_uint : ℕ → ℕ → List ℕ
put_uint zero x = []
put_uint (suc k) x = (x / 256 ^ k % 256) ∷ put_uint k x

-- `Uint16`, `Uint32` and `Uint64` of a slice of 2, 4 and 8 bytes.
unfoldable pub uint : List ℕ → ℕ
uint [] = 0
uint (b ∷ bs) = b * 256 ^ length bs + uint bs

-- `buf[from:from+n]`
abbrev pub slice : ℕ → ℕ → List ℕ → List ℕ
slice from n buf = take n (drop from buf)

pub length-put_uint : (k x : ℕ) → length (put_uint k x) ≡ k
unfolding put_uint
length-put_uint zero x = refl
length-put_uint (suc k) x = ap suc (length-put_uint k x)

pub put_uint-IsByte : (k x : ℕ) → All IsByte (put_uint k x)
unfolding put_uint
put_uint-IsByte zero x = tt
put_uint-IsByte (suc k) x = (omega arith, put_uint-IsByte k x)

-- The low `k` bytes of `x` are the low `k - 1` and one more.
mod_byte : (k x : ℕ) → x / 256 ^ k % 256 * 256 ^ k + x % 256 ^ k ≡ x % 256 ^ suc k
mod_byte k x =
    sym (mod-eq_of_lt bound)
    ∙ sym (add-mul-mod_self_left low (256 ^ suc k) (x / 256 ^ k / 256))
    ∙ ap (λ t. t % 256 ^ suc k) (sym split)
  where
    p : ℕ
    p = 256 ^ k

    low : ℕ
    low = x / p % 256 * p + x % p

    bound : low < 256 ^ suc k
    bound = grind (
      arith,
      pow-succ' 256 k,
      mod-lt x {m = p} (one-le-pow k 256 (omega arith)),
      mod-lt (x / p) {m = 256} (omega arith),
    )

    split : x ≡ low + 256 ^ suc k * (x / p / 256)
    split = omega (
      arith,
      div-add-mod x p,
      ap (λ t. p * t) (div-add-mod (x / p) 256),
      ap (λ t. t * (x / p / 256)) (pow-succ' 256 k),
    )

pub uint-put_uint : (k x : ℕ) → uint (put_uint k x) ≡ x % 256 ^ k
unfolding uint put_uint
uint-put_uint zero x = omega arith
uint-put_uint (suc k) x = rw (length-put_uint k x, uint-put_uint k x) (mod_byte k x)

pub uint-lt : (bs : List ℕ) → All IsByte bs → uint bs < 256 ^ length bs
unfolding uint
uint-lt [] h = omega arith
uint-lt (b ∷ bs) h = grind (arith, pow-succ' 256 (length bs), uint-lt bs h.1, h.0)

put_uint-add : (k c u : ℕ) → put_uint k (c * 256 ^ k + u) ≡ put_uint k u
unfolding put_uint
put_uint-add zero c u = refl
put_uint-add (suc k) c u =
    ap₂ (λ b bs. b ∷ bs) head (ap (put_uint k) regroup ∙ put_uint-add k (c * 256) u)
  where
    p : ℕ
    p = 256 ^ k

    regroup : c * 256 ^ suc k + u ≡ c * 256 * p + u
    regroup = omega (arith, ap (λ t. c * t) (pow-succ' 256 k))

    head : (c * 256 ^ suc k + u) / p % 256 ≡ u / p % 256
    head =
        ap (λ t. t / p % 256) regroup
        ∙ ap (λ t. t % 256) (mul-add-div_right {m = p} (one-le-pow k 256 (omega arith)) (c * 256) u)
        ∙ omega arith

pub put_uint-uint : (bs : List ℕ) → All IsByte bs → put_uint (length bs) (uint bs) ≡ bs
unfolding put_uint uint
put_uint-uint [] h = refl
put_uint-uint (b ∷ bs) h =
    ap₂ (λ x xs. x ∷ xs)
      (ap (λ t. t % 256)
          (mul-add-div_right {m = 256 ^ length bs} (one-le-pow (length bs) 256 (omega arith)) b
            (uint bs))
        ∙ omega (arith, div-eq_of_lt (uint-lt bs h.1), h.0))
      (put_uint-add (length bs) b (uint bs) ∙ put_uint-uint bs h.1)

-- `bytes.Equal`, and `==` on strings.
abbrev pub bytes_eq : List ℕ → List ℕ → Bool
bytes_eq [] [] = true
bytes_eq [] (y ∷ ys) = false
bytes_eq (x ∷ xs) [] = false
bytes_eq (x ∷ xs) (y ∷ ys) = x == y && bytes_eq xs ys

pub bytes_eq_iff : (xs ys : List ℕ) → (bytes_eq xs ys ≡ true) ↔ (xs ≡ ys)
bytes_eq_iff [] [] = ground arith
bytes_eq_iff [] (y ∷ ys) = ground arith
bytes_eq_iff (x ∷ xs) [] = ground arith
bytes_eq_iff (x ∷ xs) (y ∷ ys) = ground (arith, bytes_eq_iff xs ys)

pub bytes_eq_refl : (xs : List ℕ) → bytes_eq xs xs ≡ true
bytes_eq_refl xs = (bytes_eq_iff xs xs).1 refl

module _ {ℓ κ} {A : Type ℓ} (P : A → Type κ) where
  pub All-take : (n : ℕ) (xs : List A) → All P xs → All P (take n xs)
  All-take zero xs h = tt
  All-take (suc n) [] h = h
  All-take (suc n) (x ∷ xs) h = (h.0, All-take n xs h.1)

  pub All-drop : (n : ℕ) (xs : List A) → All P xs → All P (drop n xs)
  All-drop zero xs h = h
  All-drop (suc n) [] h = h
  All-drop (suc n) (x ∷ xs) h = All-drop n xs h.1

  pub All-append : (xs ys : List A) → All P xs → All P ys → All P (xs ++ ys)
  All-append [] ys h k = k
  All-append (x ∷ xs) ys h k = (h.0, All-append xs ys h.1 k)

module _ {ℓ} {A : Type ℓ} where
  drop_nil : (n : ℕ) → drop {A = A} n [] ≡ []
  drop_nil zero = refl
  drop_nil (suc n) = refl

  pub drop-drop : (m n : ℕ) (xs : List A) → drop n (drop m xs) ≡ drop (m + n) xs
  drop-drop zero n xs = cc (zero-add n)
  drop-drop (suc m) n [] = drop_nil n ∙ sym (drop_nil (suc m + n))
  drop-drop (suc m) n (x ∷ xs) = drop-drop m n xs ∙ cc (suc-add m n)

  -- Two neighbouring cuts join.
  pub slice-append-drop :
      (from n to : ℕ) (xs : List A)
      → from + n ≡ to
      → take n (drop from xs) ++ drop to xs ≡ drop from xs
  slice-append-drop from n to xs e =
      ap (λ k. take n (drop from xs) ++ drop k xs) (sym e)
      ∙ ap (◌++◌ (take n (drop from xs))) (sym (drop-drop from n xs))
      ∙ take-append-drop n (drop from xs)
