-- ===== src/Crypto/Aead.antt =====
-- internal/crypto/crypto.go: `Seal` and `Open` together.
use xessenger_cli.Prelude.{
  ℕ, ◌+◌, ◌≤◌, ◌<◌, ◌≡◌, refl, ap, sym, ◌∙◌, ◌++◌, length, take, drop, arith, Option, none, some,
}
use xessenger_cli.Prelude.Bytes.{IsByte}
use xessenger_cli.Prelude.{
  All, ok, take-append, drop-append, length-append, take-append-drop, length-take,
}
use xessenger_cli.Crypto.{
  Bytes, Primitives, Laws, seal, open', derive_key, key_size, nonce_size, tag_size,
}

module _ {p : Primitives} (l : Laws p) where
  pub seal_succeeds :
      (n k a m : Bytes) → length k ≡ key_size → seal p (some n) k a m ≡ ok (n ++ p.gcm_seal k n m a)
  unfolding seal
  seal_succeeds n k a m h = ground arith

  pub seal_inverse :
      (drawn : Option Bytes) (k a m blob : Bytes)
      → seal p drawn k a m ≡ ok blob
      → (n : Bytes) × (drawn ≡ some n) × (blob ≡ n ++ p.gcm_seal k n m a) × (length k ≡ key_size)
  unfolding seal
  seal_inverse none k a m blob h = absurd (ground arith)
  seal_inverse (some n) k a m blob h = (n, refl, ground arith, ground arith)

  -- Under a 32-byte key and a 12-byte nonce, what is sealed is opened again, under the same associated data.
  pub open'-seal :
      (n k a m : Bytes)
      → length k ≡ key_size
      → length n ≡ nonce_size
      → open' p k a (n ++ p.gcm_seal k n m a) ≡ ok m
  unfolding open'
  open'-seal n k a m hk hn = ground (
    arith,
    take-append nonce_size n (p.gcm_seal k n m a) hn,
    drop-append nonce_size n (p.gcm_seal k n m a) hn,
    l.open_seal k n m a,
    length-append n (p.gcm_seal k n m a),
    l.length_seal k n m a,
  )

  open'_inverse :
      (k a blob m : Bytes)
      → open' p k a blob ≡ ok m
      → (length k ≡ key_size)
        × (nonce_size + tag_size ≤ length blob)
        × (p.gcm_open k (take nonce_size blob) (drop nonce_size blob) a ≡ some m)
  unfolding open'
  open'_inverse k a blob m h = ground arith

  -- Whatever opens was sealed under that key and associated data, with the nonce that it carries.
  pub seal-open' :
      (k a blob m : Bytes)
      → open' p k a blob ≡ ok m
      → (length k ≡ key_size)
        × (length (take nonce_size blob) ≡ nonce_size)
        × (blob ≡ take nonce_size blob ++ p.gcm_seal k (take nonce_size blob) m a)
  seal-open' k a blob m h = (
    facts.0,
    omega (arith, length-take nonce_size blob, facts.1),
    sym (take-append-drop nonce_size blob)
        ∙ ap (◌++◌ (take nonce_size blob)) (l.open_only k _ _ a m facts.2),
  )
    where
      facts :
          (length k ≡ key_size)
          × (nonce_size + tag_size ≤ length blob)
          × (p.gcm_open k (take nonce_size blob) (drop nonce_size blob) a ≡ some m)
      facts = open'_inverse k a blob m h

  pub length-derive_key :
      (secret salt info : Bytes) (n : ℕ) (k : Bytes)
      → derive_key p secret salt info n ≡ ok k
      → length k ≡ n
  unfolding derive_key
  length-derive_key secret salt info n k h = grind (arith, l.length_hkdf)

  pub derive_key_total :
      (secret salt info : Bytes) (n : ℕ)
      → 0 < length secret
      → n ≤ 8160
      → (k : Bytes) × (derive_key p secret salt info n ≡ ok k) × (length k ≡ n) × All IsByte k
  unfolding derive_key
  derive_key_total secret salt info n h hn =
      let (k, e) = l.hkdf_total secret salt info n hn in
      (
        k,
        ground (arith, e),
        l.length_hkdf secret salt info n k e,
        l.bytes_hkdf secret salt info n k e,
      )
