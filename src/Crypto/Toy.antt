-- ===== src/Crypto/Toy.antt =====
-- Primitives that meet the laws, simple enough to run: they show that the laws can hold and carry
-- the concrete runs of the other modules. They are no cryptography.
use xessenger_cli.Prelude.{
  ℕ, zero, suc, All, ◌+◌, ◌-◌, ◌*◌, ◌%◌, ◌≡◌, refl, ap, ◌++◌, [], ◌∷◌, length, take, drop,
  replicate, arith,
}
use xessenger_cli.Prelude.{
  Option, none, some, if◌then◌else◌, take-append, drop-append, length-append, take-append-drop,
  length-replicate,
}
use xessenger_cli.Prelude.Bytes.{bytes_eq, bytes_eq_iff, IsByte}
use xessenger_cli.Crypto.{Bytes, Primitives, Laws}

abbrev tag : Bytes
tag = replicate 16 9

abbrev sum_of : Bytes → ℕ
sum_of [] = 0
sum_of (b ∷ bs) = b + sum_of bs

-- A key of `n` bytes that depends on all inputs.
abbrev toy_hkdf : Bytes → Bytes → Bytes → ℕ → Option Bytes
toy_hkdf s salt info n = some (replicate n ((sum_of s + 3 * sum_of salt + 5 * sum_of info) % 256))

abbrev toy_seal : Bytes → Bytes → Bytes → Bytes → Bytes
toy_seal k n m a = m ++ tag

abbrev toy_open : Bytes → Bytes → Bytes → Bytes → Option Bytes
toy_open k n c a =
    if bytes_eq (drop (length c - 16) c) tag then some (take (length c - 16) c) else none

abbrev pub toy : Primitives
toy = record {
  hkdf = toy_hkdf;
  gcm_seal = toy_seal;
  gcm_open = toy_open;
  sha256 = λ m. replicate 32 (sum_of m % 256);
  ed25519_sign = λ priv m. replicate 64 7;
  ed25519_verify = λ pub' m sig. bytes_eq sig (replicate 64 7);
  x25519_public = λ priv. priv;
  ed25519_public = λ priv. priv;
  x25519_ecdh = λ priv pub'. some (replicate 32 ((sum_of priv + sum_of pub') % 256));
}

toy_open_seal : (k n m a : Bytes) → toy_open k n (toy_seal k n m a) a ≡ some m
toy_open_seal k n m a = ground (
  arith,
  length-append m tag,
  drop-append (length (m ++ tag) - 16) m tag,
  take-append (length (m ++ tag) - 16) m tag,
)

toy_open_only : (k n c a m : Bytes) → toy_open k n c a ≡ some m → c ≡ toy_seal k n m a
toy_open_only k n c a m h =
    ground (arith, take-append-drop (length c - 16) c, bytes_eq_iff (drop (length c - 16) c) tag)

toy_ecdh_agrees :
    (a b : Bytes)
    → toy.x25519_ecdh a (toy.x25519_public b) ≡ toy.x25519_ecdh b (toy.x25519_public a)
toy_ecdh_agrees a b = ap (λ n. some (replicate 32 (n % 256))) (omega arith)

toy_length_hkdf :
    (s salt info : Bytes) (n : ℕ) (k : Bytes) → toy.hkdf s salt info n ≡ some k → length k ≡ n
toy_length_hkdf s salt info n k h =
    ground (arith, length-replicate n ((sum_of s + 3 * sum_of salt + 5 * sum_of info) % 256))

replicate-IsByte : (n b : ℕ) → IsByte b → All IsByte (replicate n b)
replicate-IsByte zero b h = tt
replicate-IsByte (suc n) b h = (h, replicate-IsByte n b h)

toy_bytes_hkdf :
    (s salt info : Bytes) (n : ℕ) (k : Bytes) → toy.hkdf s salt info n ≡ some k → All IsByte k
toy_bytes_hkdf s salt info n k h =
    ground (
      arith,
      replicate-IsByte n ((sum_of s + 3 * sum_of salt + 5 * sum_of info) % 256) (omega arith),
    )

pub toy_laws : Laws toy
toy_laws = record {
  open_seal = toy_open_seal;
  open_only = toy_open_only;
  length_seal = λ k n m a. length-append m tag;
  length_hkdf = toy_length_hkdf;
  bytes_hkdf = toy_bytes_hkdf;
  hkdf_total = λ s salt info n h. (_, refl);
  verify_sign = λ priv m. refl;
  ecdh_agrees = toy_ecdh_agrees;
}
