-- ===== src/Crypto.antt =====
-- internal/crypto/crypto.go: the wrappers over the standard library's cryptography. The primitives
-- themselves (HKDF-SHA-256, AES-256-GCM, SHA-256, Ed25519, X25519) are the record `Primitives`; what
-- is documented of them is the record `Laws`. Bytes drawn from the operating system are arguments:
-- `none` stands for a failing CSPRNG.
pub mod Aead
pub mod Toy
use Prim.Native.Char.{code}
use xessenger_cli.Prelude.Bytes.{IsByte}
use xessenger_cli.Prelude.{
  ℕ, ◌+◌, ◌≤◌, ◌≡◌, List, [], ◌∷◌, ◌++◌, String, Bool, true, false, not, ltb, ◌==◌,
}
use xessenger_cli.Prelude.{
  length, take, drop, replicate, All, Option, none, some, Result, ok, err, guard, or_fail, ◌>>=◌,
  ◌>>◌,
}

abbrev pub Bytes : Type 0
Bytes = List ℕ

-- The bytes of an ASCII literal.
abbrev pub codes : String → Bytes
codes String.[] = []
codes (String.◌∷◌ c s) = code c ∷ codes s

pub record Primitives : Type 0 where
  -- `hkdf.Key(sha256.New, secret, salt, info, length)`
  pub hkdf : Bytes → Bytes → Bytes → ℕ → Option Bytes
  -- `gcm.Seal(nil, nonce, plaintext, aad)` and `gcm.Open(nil, nonce, ciphertext, aad)` under a key
  pub gcm_seal : Bytes → Bytes → Bytes → Bytes → Bytes
  pub gcm_open : Bytes → Bytes → Bytes → Bytes → Option Bytes
  pub sha256 : Bytes → Bytes
  -- `ed25519.Sign(priv, msg)` and `ed25519.Verify(pub, msg, sig)`
  pub ed25519_sign : Bytes → Bytes → Bytes
  pub ed25519_verify : Bytes → Bytes → Bytes → Bool
  -- the public keys of an X25519 and of an Ed25519 private key, and `priv.ECDH(pub)`
  pub x25519_public : Bytes → Bytes
  pub ed25519_public : Bytes → Bytes
  pub x25519_ecdh : Bytes → Bytes → Option Bytes

abbrev pub key_size : ℕ
key_size = 32

abbrev pub nonce_size : ℕ
nonce_size = 12

abbrev pub tag_size : ℕ
tag_size = 16

pub data Error : Type 0 where
  csprng empty_secret hkdf_failed invalid_key_size decrypt : Error

-- AES-GCM authenticates: it opens what it sealed, and nothing else. HKDF-SHA-256 gives any length up
-- to 255 blocks of 32 bytes. A signature made by a private
-- key verifies under its public key, and a Diffie-Hellman exchange gives both sides one secret.
pub record Laws (p : Primitives) : Type 0 where
  pub open_seal : (k n m a : Bytes) → p.gcm_open k n (p.gcm_seal k n m a) a ≡ some m
  pub open_only : (k n c a m : Bytes) → p.gcm_open k n c a ≡ some m → c ≡ p.gcm_seal k n m a
  pub length_seal : (k n m a : Bytes) → length (p.gcm_seal k n m a) ≡ length m + tag_size
  pub length_hkdf :
      (s salt info : Bytes) (n : ℕ) (k : Bytes) → p.hkdf s salt info n ≡ some k → length k ≡ n
  pub bytes_hkdf :
      (s salt info : Bytes) (n : ℕ) (k : Bytes) → p.hkdf s salt info n ≡ some k → All IsByte k
  pub hkdf_total :
      (s salt info : Bytes) (n : ℕ) → n ≤ 8160 → (k : Bytes) × (p.hkdf s salt info n ≡ some k)
  pub verify_sign :
      (priv m : Bytes) → p.ed25519_verify (p.ed25519_public priv) m (p.ed25519_sign priv m) ≡ true
  pub ecdh_agrees :
      (a b : Bytes) → p.x25519_ecdh a (p.x25519_public b) ≡ p.x25519_ecdh b (p.x25519_public a)

-- `rand.Read` into a fresh buffer.
unfoldable pub random_bytes : Option Bytes → Result Error Bytes
random_bytes drawn = or_fail drawn csprng

-- Overwrites a slice in place.
pub zeroise : Bytes → Bytes
zeroise b = replicate (length b) 0

module _ (p : Primitives) where
  unfoldable pub derive_key : Bytes → Bytes → Bytes → ℕ → Result Error Bytes
  derive_key secret salt info n = do
    guard (not (length secret == 0)) empty_secret
    or_fail (p.hkdf secret salt info n) hkdf_failed

  -- `aead(key)`: the cipher of a 32-byte key.
  unfoldable pub aead : Bytes → Result Error Bytes
  aead key = do guard (length key == key_size) invalid_key_size; ok key

  -- The result is nonce, ciphertext and tag.
  unfoldable pub seal : Option Bytes → Bytes → Bytes → Bytes → Result Error Bytes
  unfolding aead random_bytes
  seal drawn key aad plaintext = do
    gcm ← aead key
    nonce ← random_bytes drawn
    ok (nonce ++ p.gcm_seal gcm nonce plaintext aad)

  unfoldable pub open' : Bytes → Bytes → Bytes → Result Error Bytes
  unfolding aead
  open' key aad blob = do
    gcm ← aead key
    guard (not (ltb (length blob) (nonce_size + tag_size))) decrypt
    or_fail (p.gcm_open gcm (take nonce_size blob) (drop nonce_size blob) aad) decrypt
