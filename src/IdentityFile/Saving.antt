-- ===== src/IdentityFile/Saving.antt =====
-- internal/identity/identity.go: a file that was saved, read again.
use xessenger_cli.Prelude.{
  ◌<◌, [], ◌∷◌, ◌++◌, true, false, some, ok, err, ltb, length, arith, ◌≡◌, inl, inr, refl, sym, ap,
  subst, Bool-cases, Option-cases, Result-cases, lt→ltb,
}
use xessenger_cli.Prelude.Assoc.{lookup}
use xessenger_cli.Prelude.Bytes.{bytes_eq, bytes_eq_iff}
use xessenger_cli.Crypto.{Bytes, Primitives, Laws, seal, open', random_bytes, key_size, nonce_size}
use xessenger_cli.Crypto.Aead.{seal_inverse, open'-seal}
use xessenger_cli.Proto.Handshake.{Identity}
use xessenger_cli.IdentityFile.{
  pbkdf2_iterations, salt_size, private_key_size, public_key_size, DiskFormat, Platform, Error,
  Files, DiskCalls, is_empty, file_bytes, identity_of, as_wrong_passphrase, identity_aad,
  payload_of, sealed_form, save, plain_form, save_insecure, unsealed, load,
}
use xessenger_cli.IdentityFile.Disk.{read-file_bytes, write_identity_file-Replaces}

-- An identity that a file gives back: its keys have their sizes and match, and JSON reads it.
pub record IsStorable (p : Primitives) (os : Platform) (id : Identity) (priv : Bytes) : Type 0 where
  pub holds : id.private_key ≡ some priv
  pub private_size : length priv ≡ private_key_size
  pub public_size : length id.public_key ≡ public_key_size
  pub matches : id.public_key ≡ p.ed25519_public priv
  pub reads_back :
      (x : Bytes)
      → os.marshal (record { name = id.name; private = priv; public = id.public_key }) ≡ some x
      → os.unmarshal x ≡ some (record { name = id.name; private = priv; public = id.public_key })

module _ {p : Primitives} (l : Laws p) (os : Platform) (id : Identity) (priv : Bytes)
    (storable : IsStorable p os id priv) where
  disk : DiskFormat
  disk = record { name = id.name; private = priv; public = id.public_key }

  identity_of_lem : identity_of p disk ≡ ok id
  unfolding identity_of disk
  identity_of_lem =
      rw (sized, storable.private_size, storable.public_size, same)
        (ap (λ k. ok (record { name = id.name; public_key = id.public_key; private_key = k }))
          (sym storable.holds))
    where
      sized : ltb 0 (length priv) ≡ true
      sized = lt→ltb 0 (length priv) (omega (arith, storable.private_size))

      same : bytes_eq id.public_key (p.ed25519_public priv) ≡ true
      same = (bytes_eq_iff id.public_key (p.ed25519_public priv)).1 storable.matches

  payload_of_inverse :
      (payload : Bytes) → payload_of p os id priv ≡ ok payload → os.unmarshal payload ≡ some disk
  unfolding disk
  payload_of_inverse payload e = elim (Option-cases (os.marshal disk)) [
    | inl f ↦ absurd (ground (arith, e, f))
    | inr (x, f) ↦
        subst (λ y. os.unmarshal y ≡ some disk) (ground (arith, e, f)) (storable.reads_back x f)
  ]

  -- What `load` makes of a file whose payload is the identity's.
  load_lem :
      (path passphrase salt blob payload : Bytes) (files : Files)
      → length salt < 256
      → lookup path files ≡ some (file_bytes salt blob)
      → unsealed p os path passphrase (salt, blob) ≡ ok payload
      → os.unmarshal payload ≡ some disk
      → load p os path passphrase files ≡ ok id
  unfolding load
  load_lem path passphrase salt blob payload files h e u m =
      rw (read-file_bytes path salt blob files h e, u, m) identity_of_lem

  -- A sealed form that `Save` writes opens again under its passphrase.
  sealed_form_lem :
      (path passphrase salt nonce salt' blob : Bytes)
      → length salt ≡ salt_size
      → length nonce ≡ nonce_size
      → sealed_form p os (some salt) (some nonce) path passphrase id ≡ ok (salt', blob)
      → (salt' ≡ salt)
        × ((payload : Bytes) × (unsealed p os path passphrase (salt, blob) ≡ ok payload)
            × (os.unmarshal payload ≡ some disk))
  unfolding sealed_form unsealed random_bytes
  sealed_form_lem path passphrase salt nonce salt' blob hs hn e =
      elim (Bool-cases (is_empty passphrase)) [
        | inl g ↦ absurd (ground (arith, e, g, storable.holds))
        | inr g ↦ elim (Option-cases (os.pbkdf2 passphrase salt pbkdf2_iterations key_size)) [
          | inl k ↦ absurd (ground (arith, e, g, k, storable.holds))
          | inr (key, k) ↦ elim (Result-cases (payload_of p os id priv)) [
            | inr (x, m) ↦ absurd (ground (arith, e, g, k, m, storable.holds))
            | inl (payload, m) ↦
                elim (Result-cases (seal p (some nonce) key (identity_aad p os path) payload)) [
                  | inr (x, s) ↦ absurd (ground (arith, e, g, k, m, s, storable.holds))
                  | inl (b, s) ↦
                      let (n, same, shape, lk) =
                        seal_inverse l (some nonce) key (identity_aad p os path) payload b s in
                      let shape' : b
                          ≡ nonce ++ p.gcm_seal key nonce payload (identity_aad p os path) =
                        subst (λ x. b ≡ x ++ p.gcm_seal key x payload (identity_aad p os path))
                          (ground (arith, same)) shape in
                      let opened : open' p key (identity_aad p os path) b ≡ ok payload =
                        subst (λ x. open' p key (identity_aad p os path) x ≡ ok payload)
                          (sym shape')
                          (open'-seal l nonce key (identity_aad p os path) payload lk hn) in
                      let blob_is : b ≡ blob = ground (arith, e, g, k, m, s, storable.holds) in
                      (
                        ground (arith, e, g, k, m, s, storable.holds),
                        (
                          payload,
                          rw (some_salt, g, k)
                              (subst
                                (λ x.
                                  as_wrong_passphrase (open' p key (identity_aad p os path) x)
                                  ≡ ok payload)
                                blob_is (ap as_wrong_passphrase opened)),
                          payload_of_inverse payload m,
                        ),
                      )
                ]
          ]
        ]
      ]
    where
      not_empty : (s : Bytes) → 0 < length s → is_empty s ≡ false
      not_empty [] h = absurd (omega arith)
      not_empty (c ∷ s) h = refl

      some_salt : is_empty salt ≡ false
      some_salt = not_empty salt (omega (arith, hs))

  plain_form_lem :
      (salt' blob : Bytes)
      → plain_form p os id ≡ ok (salt', blob)
      → (salt' ≡ []) × (os.unmarshal blob ≡ some disk)
  unfolding plain_form
  plain_form_lem salt' blob e = elim (Result-cases (payload_of p os id priv)) [
    | inr (x, m) ↦ absurd (ground (arith, e, m, storable.holds))
    | inl (payload, m) ↦ (
      ground (arith, e, m, storable.holds),
      subst (λ x. os.unmarshal x ≡ some disk) (ground (arith, e, m, storable.holds))
          (payload_of_inverse payload m),
    )
  ]

  plain_unsealed : (path blob : Bytes) → unsealed p os path [] ([], blob) ≡ ok blob
  unfolding unsealed
  plain_unsealed path blob = refl

  -- A save that succeeds leaves a file from which the same passphrase loads the identity, and one that fails leaves the file at the path as it was, if a 16-byte salt and a 12-byte nonce are drawn, both keys have their sizes and match, and JSON reads the identity back. The same holds of the insecure save and the empty passphrase.
  pub load-save :
      (calls : DiskCalls) (path passphrase salt nonce : Bytes) (files : Files)
      → length salt ≡ salt_size
      → length nonce ≡ nonce_size
      → (let saved = save p os calls (some salt) (some nonce) path passphrase id files in
          (saved.1 ≡ ok tt → load p os path passphrase saved.0 ≡ ok id)
          × ((e : Error) → saved.1 ≡ err e → lookup path saved.0 ≡ lookup path files))
        × (let plain = save_insecure p os calls path id files in
            (plain.1 ≡ ok tt → load p os path [] plain.0 ≡ ok id)
            × ((e : Error) → plain.1 ≡ err e → lookup path plain.0 ≡ lookup path files))
  unfolding save save_insecure
  load-save calls path passphrase salt nonce files hs hn = (
    elim (Result-cases (sealed_form p os (some salt) (some nonce) path passphrase id)) [
      | inr (x, f) ↦ rw f (λ d. absurd (ground (arith, d)), λ e d. refl)
      | inl ((salt', blob), f) ↦
          let (same, (payload, u, m)) =
            sealed_form_lem path passphrase salt nonce salt' blob hs hn f in
          let w = write_identity_file-Replaces calls path salt blob files in
          rw (f, same)
            (λ d. load_lem path passphrase salt blob payload _ (omega (arith, hs)) (w.0 d) u m, w.1)
    ],
    elim (Result-cases (plain_form p os id)) [
      | inr (x, f) ↦ rw f (λ d. absurd (ground (arith, d)), λ e d. refl)
      | inl ((salt', blob), f) ↦
          let (same, m) = plain_form_lem salt' blob f in
          let w = write_identity_file-Replaces calls path [] blob files in
          rw (f, same)
            (
              λ d.
                  load_lem path [] [] blob blob _ (omega arith) (w.0 d) (plain_unsealed path blob)
                    m,
              w.1,
            )
    ],
  )
