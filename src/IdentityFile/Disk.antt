-- ===== src/IdentityFile/Disk.antt =====
-- internal/identity/identity.go: the bytes of an identity file, and what a write leaves.
use xessenger_cli.Prelude.{
  ℕ, suc, ◌+◌, ◌%◌, ◌<◌, ◌∷◌, ◌++◌, false, not, some, Result, ok, err, if◌then◌else◌, if_elim, ltb,
  length, drop, arith, ◌≡◌, inl, inr, refl, ap, ◌∙◌, Bool-cases, Option-cases, ltb-false,
  length-append, take-append, drop-append,
}
use xessenger_cli.Prelude.Assoc.{lookup, insert, delete, lookup-insert, lookup-insert_self}
use xessenger_cli.Prelude.Bytes.{bytes_eq, bytes_eq_iff}
use xessenger_cli.Crypto.{Bytes, codes}
use xessenger_cli.IdentityFile.{
  Error, Files, DiskCalls, temporary, file_bytes, write_identity_file, read_identity_file,
}

drop_two : (n a b : ℕ) (xs : Bytes) → drop (2 + n) (a ∷ (b ∷ xs)) ≡ drop n xs
drop_two n a b xs = ap (λ k. drop k (a ∷ (b ∷ xs))) (suc_two n)
  where
    suc_two : (n : ℕ) → 2 + n ≡ suc (suc n)
    suc_two n = omega arith

pub read-file_bytes :
    (path salt blob : Bytes) (files : Files)
    → length salt < 256
    → lookup path files ≡ some (file_bytes salt blob)
    → read_identity_file path files ≡ ok (salt, blob)
unfolding read_identity_file
read-file_bytes path salt blob files h e =
    rw
      (
        e,
        big,
        n_is,
        enough,
        drop_two (length salt) 1 (length salt) (salt ++ blob),
        take-append (length salt) salt blob refl,
        drop-append (length salt) salt blob refl,
      )
      refl
  where
    n_is : length salt % 256 ≡ length salt
    n_is = omega (arith, h)

    big : ltb (length (file_bytes salt blob)) 2 ≡ false
    big = ltb-false (length (file_bytes salt blob)) 2 (omega arith)

    enough : ltb (length (file_bytes salt blob)) (2 + length salt) ≡ false
    enough =
        ltb-false (length (file_bytes salt blob)) (2 + length salt)
          (omega (arith, length-append salt blob))

not_temporary : (path : Bytes) → bytes_eq (temporary path) path ≡ false
not_temporary path = elim (Bool-cases (bytes_eq (temporary path) path)) [
  | inr e ↦ e
  | inl e ↦ absurd (
      omega (
        arith,
        ap length ((bytes_eq_iff (temporary path) path).0 e),
        length-append path (codes ".tmp"),
      ))
]

-- What a save leaves of the file at a path: on success the new contents, else the old ones.
abbrev Replaces : Bytes → Bytes → Files → Files × Result Error (Unit {0}) → Type 0
Replaces path buf files x =
    (x.1 ≡ ok tt → lookup path x.0 ≡ some buf)
    × ((e : Error) → x.1 ≡ err e → lookup path x.0 ≡ lookup path files)

pub write_identity_file-Replaces :
    (calls : DiskCalls) (path salt blob : Bytes) (files : Files)
    → Replaces path (file_bytes salt blob) files (write_identity_file calls path salt blob files)
unfolding write_identity_file
write_identity_file-Replaces calls path salt blob files =
    if_elim R (not calls.mkdir_ok) _ _ (λ e. (λ d. absurd (ground (arith, d)), λ x d. refl))
      (λ e. elim (Option-cases calls.write_fails) [
        | inr (partial, f) ↦ rw f (λ d. absurd (ground (arith, d)), λ x d. others partial)
        | inl f ↦ rw f (
            if_elim R calls.rename_ok _ _
              (λ d. (
                λ d'.
                    lookup-insert_self path buf
                      (delete (temporary path) (insert (temporary path) buf files)),
                λ x d'. absurd (ground (arith, d')),
              ))
              (λ d. (λ d'. absurd (ground (arith, d')), λ x d'. others buf)))
      ])
  where
    buf : Bytes
    buf = file_bytes salt blob

    R : Files × Result Error (Unit {0}) → Type 0
    R = Replaces path buf files

    others : (x : Bytes) → lookup path (insert (temporary path) x files) ≡ lookup path files
    others x =
        lookup-insert (temporary path) path x files
        ∙ ap (λ b. if b then some x else lookup path files) (not_temporary path)
