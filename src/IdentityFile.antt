-- ===== src/IdentityFile.antt =====
-- internal/identity/identity.go: making an identity, and its encrypted file. `encoding/json` on
-- `diskFormat`, PBKDF2, `filepath.Base` and `strings.TrimSpace` are the record `Platform`; the file
-- system is a map from paths to contents, and how its calls end is an argument.
pub mod Disk
pub mod Saving
use xessenger_cli.Prelude.{
  ℕ, zero, suc, ◌+◌, ◌-◌, ◌*◌, ◌/◌, ◌%◌, ◌^◌, ◌≤◌, ◌<◌, List, [], ◌∷◌, ◌++◌, map, Bool, true, false,
  not, ◌&&◌, ◌||◌, Option, none, some, Result, ok, err, guard, or_fail, ◌>>=◌, ◌>>◌, if◌then◌else◌,
  if_elim, ltb, leb, ◌==◌, length, get_or, set, take, drop, replicate, All, arith, ◌≡◌, ◌≢◌, ◌↔◌,
  ◌⊎◌, inl, inr, refl, sym, ap, subst, ◌∙◌, Bool-cases, Option-cases, Result-cases, ltb→lt, lt→ltb,
  ltb-false, ltb_false→le, leb→le, ==_iff, ==_refl, length-append, length-take, length-drop,
  take-append, drop-append, take-append-drop, take_all, drop_all, String,
}
use xessenger_cli.Prelude.Assoc.{Map, lookup, insert, delete}
use xessenger_cli.Prelude.Bytes.{bytes_eq, put_uint}
use xessenger_cli.Crypto
use xessenger_cli.Crypto.{Bytes, codes, Primitives, seal, open', random_bytes, key_size}
use xessenger_cli.Proto.Handshake.{Identity}

abbrev pub identity_file_version : ℕ
identity_file_version = 1

abbrev pub pbkdf2_iterations : ℕ
pbkdf2_iterations = 600000

abbrev pub salt_size : ℕ
salt_size = 16

abbrev pub private_key_size : ℕ
private_key_size = 64

abbrev pub public_key_size : ℕ
public_key_size = 32

-- `diskFormat`; a nil private key is the empty one.
pub record DiskFormat : Type 0 where
  pub name : Bytes
  pub private : Bytes
  pub public : Bytes

pub record Platform : Type 0 where
  pub marshal : DiskFormat → Option Bytes
  pub unmarshal : Bytes → Option DiskFormat
  -- `pbkdf2.Key(sha256.New, passphrase, salt, iterations, length)`
  pub pbkdf2 : Bytes → Bytes → ℕ → ℕ → Option Bytes
  pub base_name : Bytes → Bytes
  pub trim_space : Bytes → Bytes

pub data Error : Type 0 where
  empty_name keygen_failed no_private_key empty_passphrase kdf_failed json_failed io_failed : Error
  bad_version truncated not_encrypted passphrase_required wrong_passphrase : Error
  invalid_file invalid_key_material keys_differ : Error
  crypto : Crypto.Error → Error

abbrev pub Files : Type 0
Files = Map Bytes

-- How the calls of `writeIdentityFile` end: a write that fails leaves some bytes in the file.
pub record DiskCalls : Type 0 where
  pub mkdir_ok : Bool
  pub write_fails : Option Bytes
  pub rename_ok : Bool

abbrev pub is_empty : Bytes → Bool
is_empty [] = true
is_empty (b ∷ bs) = false

-- `Generate`; `drawn` is the key pair, private key first.
unfoldable pub generate : Platform → Option (Bytes × Bytes) → Bytes → Result Error Identity
generate os drawn name = if is_empty (os.trim_space name) then err empty_name else elim drawn [
  | none ↦ err keygen_failed
  | some (priv, pub_key) ↦
      ok (record { name = name; public_key = pub_key; private_key = some priv })
]

-- `FromPublicKey`
abbrev pub from_public_key : Bytes → Bytes → Identity
from_public_key name pub_key = record { name = name; public_key = pub_key; private_key = none }

abbrev pub temporary : Bytes → Bytes
temporary path = path ++ codes ".tmp"

abbrev pub file_bytes : Bytes → Bytes → Bytes
file_bytes salt blob = identity_file_version ∷ ((length salt % 256) ∷ (salt ++ blob))

unfoldable pub write_identity_file :
    DiskCalls → Bytes → Bytes → Bytes → Files → Files × Result Error (Unit {0})
write_identity_file calls path salt blob files =
    let tmp = temporary path in
    let written = insert tmp (file_bytes salt blob) files in
    if not calls.mkdir_ok then (files, err io_failed) else elim calls.write_fails [
      | some partial ↦ (insert tmp partial files, err io_failed)
      | none ↦
          if calls.rename_ok
          then (insert path (file_bytes salt blob) (delete tmp written), ok tt)
          else (written, err io_failed)
    ]

-- The salt and the blob of a file; no salt is the empty one.
unfoldable pub read_identity_file : Bytes → Files → Result Error (Bytes × Bytes)
read_identity_file path files = do
  buf ← or_fail (lookup path files) io_failed
  guard (not (ltb (length buf) 2 || not (get_or buf 0 0 == identity_file_version))) bad_version
  guard (not (ltb (length buf) (2 + get_or buf 1 0))) truncated
  ok (take (get_or buf 1 0) (drop 2 buf), drop (2 + get_or buf 1 0) buf)

-- What is read of an identity: with a private key, both keys are of their sizes and match.
unfoldable pub identity_of : Primitives → DiskFormat → Result Error Identity
identity_of p df =
    if not (ltb 0 (length df.private))
    then ok (record { name = df.name; public_key = df.public; private_key = none })
    else if not (length df.private == private_key_size) || not (length df.public == public_key_size)
    then err invalid_key_material
    else if not (bytes_eq df.public (p.ed25519_public df.private))
    then err keys_differ
    else ok (record { name = df.name; public_key = df.public; private_key = some df.private })

abbrev pub from_crypto : Result Crypto.Error Bytes → Result Error Bytes
from_crypto (ok b) = ok b
from_crypto (err e) = err (crypto e)

abbrev pub as_wrong_passphrase : Result Crypto.Error Bytes → Result Error Bytes
as_wrong_passphrase (ok b) = ok b
as_wrong_passphrase (err e) = err wrong_passphrase

module _ (p : Primitives) (os : Platform) where
  abbrev pub identity_aad : Bytes → Bytes
  identity_aad path = codes "heimdall identity v1 " ++ os.base_name path

  abbrev pub payload_of : Identity → Bytes → Result Error Bytes
  payload_of id priv =
      or_fail (os.marshal (record { name = id.name; private = priv; public = id.public_key }))
        json_failed

  -- The salt and the blob that `Save` writes; `salt` and `nonce` are drawn.
  unfoldable pub sealed_form :
      Option Bytes → Option Bytes → Bytes → Bytes → Identity → Result Error (Bytes × Bytes)
  sealed_form salt nonce path passphrase id = do
    priv ← or_fail id.private_key no_private_key
    guard (not (is_empty passphrase)) empty_passphrase
    salt' ← from_crypto (random_bytes salt)
    key ← or_fail (os.pbkdf2 passphrase salt' pbkdf2_iterations key_size) kdf_failed
    payload ← payload_of id priv
    blob ← from_crypto (seal p nonce key (identity_aad path) payload)
    ok (salt', blob)

  abbrev pub written :
      DiskCalls → Bytes → Files → Result Error (Bytes × Bytes) → Files × Result Error (Unit {0})
  written calls path files (err e) = (files, err e)
  written calls path files (ok (salt, blob)) = write_identity_file calls path salt blob files

  unfoldable pub save :
      DiskCalls
      → Option Bytes
      → Option Bytes
      → Bytes
      → Bytes
      → Identity
      → Files
      → Files × Result Error (Unit {0})
  unfolding sealed_form
  save calls salt nonce path passphrase id files =
      written calls path files (sealed_form salt nonce path passphrase id)

  unfoldable pub plain_form : Identity → Result Error (Bytes × Bytes)
  plain_form id = do
    priv ← or_fail id.private_key no_private_key
    payload ← payload_of id priv
    ok ([], payload)

  unfoldable pub save_insecure :
      DiskCalls → Bytes → Identity → Files → Files × Result Error (Unit {0})
  unfolding plain_form
  save_insecure calls path id files = written calls path files (plain_form id)

  -- The payload of a file's salt and blob.
  unfoldable pub unsealed : Bytes → Bytes → Bytes × Bytes → Result Error Bytes
  unsealed path passphrase (salt, blob) =
      if is_empty salt
      then (if not (is_empty passphrase) then err not_encrypted else ok blob)
      else if is_empty passphrase
      then err passphrase_required
      else elim (os.pbkdf2 passphrase salt pbkdf2_iterations key_size) [
        | none ↦ err kdf_failed
        | some key ↦ as_wrong_passphrase (open' p key (identity_aad path) blob)
      ]

  unfoldable pub load : Bytes → Bytes → Files → Result Error Identity
  unfolding read_identity_file unsealed identity_of
  load path passphrase files = do
    parts ← read_identity_file path files
    payload ← unsealed path passphrase parts
    df ← or_fail (os.unmarshal payload) invalid_file
    identity_of p df

-- `MarshalBinary`
unfoldable pub marshal_binary : Identity → Bytes
marshal_binary id = put_uint 2 (length id.name % 2 ^ 16) ++ (id.name ++ id.public_key)
