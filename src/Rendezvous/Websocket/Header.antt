-- ===== src/Rendezvous/Websocket/Header.antt =====
-- internal/rendezvous/ws.go: the bits of a frame's header, and the masking of a payload.
use xessenger_cli.Prelude.{
  ℕ, zero, suc, ◌+◌, ◌*◌, ◌/◌, ◌%◌, ◌≤◌, ◌<◌, [], ◌∷◌, ◌++◌, Bool, true, false, not, if◌then◌else◌,
  ◌==◌, length, get_or, All, arith, ◌≡◌, refl, ap, ◌∙◌,
}
use mathlib.Core.Path.{ap₂}
use Prim.Native.Nat.{bit_and, bit_or, bit_xor}
use xessenger_cli.Prelude.Bits.{
  bit_and_one_bit, bit_and-zero, bit_and_step, bit_or_step, xor_cancel,
}
use xessenger_cli.Prelude.Bytes.{IsByte}
use xessenger_cli.Rendezvous.Websocket.{Bytes, mask_from}

or_double :
    (b : ℕ)
    → ((n : ℕ) → n < b → bit_or n b ≡ n + b)
    → (n : ℕ) → n < b * 2
    → bit_or n (b * 2) ≡ n + b * 2
or_double b h n l =
    omega (arith, bit_or_step n (b * 2), ap (bit_or (n / 2)) half, h (n / 2) (omega (arith, l)))
  where
    half : b * 2 / 2 ≡ b
    half = omega arith

or_one : (n : ℕ) → n < 1 → bit_or n 1 ≡ n + 1
or_one n l = let none_set : n ≡ 0 = omega (arith, l) in rw none_set refl

pub or_128 : (n : ℕ) → n < 128 → bit_or n 128 ≡ n + 128
or_128 =
    or_double 64
      (or_double 32 (or_double 16 (or_double 8 (or_double 4 (or_double 2 (or_double 1 or_one))))))

or_zero : (f n : ℕ) → n ≤ f → bit_or n 0 ≡ n
or_zero f zero h = refl
or_zero zero (suc n) h = absurd (omega arith)
or_zero (suc f) (suc n) h =
    omega (arith, bit_or_step (suc n) 0, or_zero f (suc n / 2) (omega arith))

and_7 : (w : ℕ) → bit_and w 7 ≡ w % 8
and_7 w = omega (
  arith,
  bit_and_step w 7,
  bit_and_step (w / 2) 3,
  bit_and_step (w / 2 / 2) 1,
  bit_and-zero w (w / 2 / 2 / 2) (omega arith),
)

and_63 : (w : ℕ) → bit_and w 63 ≡ w % 64
and_63 w = omega (
  arith,
  bit_and_step w 63,
  bit_and_step (w / 2) 31,
  bit_and_step (w / 2 / 2) 15,
  and_7 (w / 2 / 2 / 2),
)

and_127 : (w : ℕ) → bit_and w 127 ≡ w % 128
and_127 w = omega (arith, bit_and_step w 127, and_63 (w / 2))

and_128 : (w : ℕ) → bit_and w 128 ≡ w / 128 % 2 * 128
and_128 w = omega (arith, bit_and_one_bit 7 w)

-- The bit that a masked frame sets in its second byte.
abbrev pub flag_of : Bool → ℕ
flag_of masked = if masked then 128 else 0

-- The second byte holds the small length and the bit.
pub length_bits : (n : ℕ) (masked : Bool) → n < 128 → bit_and (bit_or n (flag_of masked)) 127 ≡ n
length_bits n true h = and_127 (bit_or n 128) ∙ omega (arith, or_128 n h)
length_bits n false h = and_127 (bit_or n 0) ∙ omega (arith, or_zero n n (omega arith))

pub mask_bit :
    (n : ℕ) (masked : Bool) → n < 128 → not (bit_and (bit_or n (flag_of masked)) 128 == 0) ≡ masked
mask_bit n true h = ground (arith, and_128 (bit_or n 128), or_128 n h)
mask_bit n false h = ground (arith, and_128 (bit_or n 0), or_zero n n (omega arith))

-- The opcodes of the frames that a `WSConn` sends.
pub data Kind : Type 0 where
  binary close_frame ping_frame pong_frame : Kind

abbrev pub code_of : Kind → ℕ
code_of binary = 2
code_of close_frame = 8
code_of ping_frame = 9
code_of pong_frame = 10

pub no_reserved : (k : Kind) → bit_and (bit_or 128 (code_of k)) 112 ≡ 0
no_reserved binary = refl
no_reserved close_frame = refl
no_reserved ping_frame = refl
no_reserved pong_frame = refl

pub final_bit : (k : Kind) → bit_and (bit_or 128 (code_of k)) 128 ≡ 128
final_bit binary = refl
final_bit close_frame = refl
final_bit ping_frame = refl
final_bit pong_frame = refl

pub opcode_bits : (k : Kind) → bit_and (bit_or 128 (code_of k)) 15 ≡ code_of k
opcode_bits binary = refl
opcode_bits close_frame = refl
opcode_bits ping_frame = refl
opcode_bits pong_frame = refl

pub length-mask_from :
    (key : Bytes) (pos : ℕ) (bs : Bytes) → length (mask_from key pos bs) ≡ length bs
unfolding mask_from
length-mask_from key pos [] = refl
length-mask_from key pos (b ∷ bs) = ap suc (length-mask_from key (pos + 1) bs)

-- Masking goes on where it stopped.
pub mask_from-append :
    (key : Bytes) (pos : ℕ) (xs bs : Bytes)
    → mask_from key pos (xs ++ bs) ≡ mask_from key pos xs ++ mask_from key (pos + length xs) bs
unfolding mask_from
mask_from-append key pos [] bs = ap (λ k. mask_from key k bs) (omega arith)
mask_from-append key pos (a ∷ xs) bs =
    ap (λ l. bit_xor a (get_or key (pos % 4) 0) ∷ l)
      (mask_from-append key (pos + 1) xs bs
        ∙ ap (λ k. mask_from key (pos + 1) xs ++ mask_from key k bs) (omega arith))

get_or-IsByte : (key : Bytes) (i : ℕ) → All IsByte key → get_or key i 0 < 256
get_or-IsByte [] i h = omega arith
get_or-IsByte (b ∷ bs) zero h = h.0
get_or-IsByte (b ∷ bs) (suc i) h = get_or-IsByte bs i h.1

-- Unmasking with the key of the mask gives the bytes back.
pub mask_from_cancel :
    (key : Bytes) (pos : ℕ) (bs : Bytes)
    → All IsByte key
    → All IsByte bs
    → mask_from key pos (mask_from key pos bs) ≡ bs
unfolding mask_from
mask_from_cancel key pos [] hk hb = refl
mask_from_cancel key pos (b ∷ bs) hk hb =
    ap₂ ◌∷◌ (xor_cancel 8 b (get_or key (pos % 4) 0) hb.0 (get_or-IsByte key (pos % 4) hk))
      (mask_from_cancel key (pos + 1) bs hk hb.1)
