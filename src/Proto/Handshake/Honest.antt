-- ===== src/Proto/Handshake/Honest.antt =====
-- internal/proto/handshake.go: the payload that one side seals, at the other side.
use xessenger_cli.Prelude.{
  ◌+◌, ◌≤◌, ◌<◌, ◌++◌, true, false, some, ok, length, arith, ◌≡◌, refl, sym, subst, length-append,
}
use xessenger_cli.Prelude.Bytes.{bytes_eq, put_uint, length-put_uint}
use xessenger_cli.Crypto
use xessenger_cli.Crypto.{Bytes, Primitives, Laws, derive_key, key_size, nonce_size}
use xessenger_cli.Crypto.Aead.{derive_key_total, seal_succeeds, open'-seal}
use xessenger_cli.Proto.Handshake.{
  Identity, Handshaker, marshal_auth_plain, parse_auth_plain, max_peer_name, seal_auth, open_auth,
  check_peer, hs_aad,
}
use xessenger_cli.Proto.Handshake.Wire.{parse_auth_plain-marshal_auth_plain}

-- The sizes that Go documents of an Ed25519 signature and of a SHA-256 sum.
pub record Sizes (p : Primitives) : Type 0 where
  pub length_sign : (priv m : Bytes) → length (p.ed25519_sign priv m) ≡ 64
  pub length_sha256 : (m : Bytes) → length (p.sha256 m) ≡ 32

-- An identity with its private key, whose name may stand in a handshake.
pub record IsOwn (p : Primitives) (id : Identity) : Type 0 where
  pub priv : Bytes
  pub holds : id.private_key ≡ some priv
  pub matches : id.public_key ≡ p.ed25519_public priv
  pub key_length : length id.public_key ≡ 32
  pub some_name : 0 < length id.name
  pub short_name : length id.name ≤ max_peer_name

module _ {p : Primitives} (l : Laws p) (sizes : Sizes p) (h h' : Handshaker) (own : IsOwn p h.id)
    (nonce info : Bytes) (nonce_ok : length nonce ≡ nonce_size) (same_shared : h.shared ≡ h'.shared)
    (same_transcript : h.transcript ≡ h'.transcript) (secret : 0 < length h.shared)
    (others : bytes_eq h.id.public_key h'.id.public_key ≡ false) where
  sig : Bytes
  sig = p.ed25519_sign own.priv h.transcript

  plain : Bytes
  plain = marshal_auth_plain h.id.public_key h.id.name sig

  length-plain : length plain ≡ 98 + length h.id.name
  unfolding plain sig
  length-plain = omega (
    arith,
    own.key_length,
    length-append h.id.public_key (put_uint 2 (length h.id.name) ++ (h.id.name ++ sig)),
    length-append (put_uint 2 (length h.id.name)) (h.id.name ++ sig),
    length-put_uint 2 (length h.id.name),
    length-append h.id.name sig,
    sizes.length_sign own.priv h.transcript,
  )

  parsed : parse_auth_plain plain ≡ ok (h.id.public_key, h.id.name, sig)
  unfolding plain sig
  parsed =
      parse_auth_plain-marshal_auth_plain h.id.public_key h.id.name sig own.key_length own.some_name
        own.short_name (sizes.length_sign own.priv h.transcript)

  verified : p.ed25519_verify h.id.public_key h'.transcript sig ≡ true
  unfolding sig
  verified =
      subst (λ k. p.ed25519_verify k h'.transcript sig ≡ true) (sym own.matches)
        (subst (λ t. p.ed25519_verify (p.ed25519_public own.priv) t sig ≡ true) same_transcript
          (l.verify_sign own.priv h.transcript))

  -- One side's sealed payload passes the other side's checks.
  pub seal_auth-check_peer :
      (blob : Bytes) × (seal_auth p (some nonce) info h ≡ ok blob)
      × (check_peer p blob info h' ≡ ok (h.id.public_key, h.id.name))
      × (length blob ≡ 126 + length h.id.name)
  unfolding seal_auth check_peer open_auth Crypto.seal plain sig
  seal_auth-check_peer =
      let (k, ek, lk, _) =
        derive_key_total l h.shared h.transcript info key_size secret (omega arith) in
      let ek' : derive_key p h'.shared h'.transcript info key_size ≡ ok k =
        subst (λ s. derive_key p s h'.transcript info key_size ≡ ok k) same_shared
          (subst (λ t. derive_key p h.shared t info key_size ≡ ok k) same_transcript ek) in
      let opened = open'-seal l nonce k hs_aad plain lk nonce_ok in
      (
        nonce ++ p.gcm_seal k nonce plain hs_aad,
        rw (ek, own.holds, seal_succeeds l nonce k hs_aad plain lk) refl,
        rw (ek', opened, parsed, verified, others) refl,
        omega (
          arith,
          length-append nonce (p.gcm_seal k nonce plain hs_aad),
          l.length_seal k nonce plain hs_aad,
          length-plain,
          nonce_ok,
        ),
      )
