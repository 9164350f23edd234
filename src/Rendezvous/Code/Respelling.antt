-- ===== src/Rendezvous/Code/Respelling.antt =====
-- internal/rendezvous/code.go: texts that a user may type for a code.
use xessenger_cli.Prelude.{
  ℕ, ◌+◌, ◌%◌, ◌≤◌, ◌<◌, [], ◌∷◌, true, false, ◌&&◌, ok, if_elim, ltb, ◌==◌, length, All, arith,
  ◌≡◌, refl, ap, ◌∙◌,
}
use xessenger_cli.Prelude.Bytes.{IsByte}
use xessenger_cli.Rendezvous.Code.{
  code_entropy_bytes, group_size, Text, Alphabet, in_alphabet, Laws, Code, is_separator,
  drop_separators, is_empty, cleaned, parse_code, grouped, to_string,
}

-- The first text typed again as the second: letters in lower case, and separators left out and put in.
pub data Respells : Text → Text → Type 0 where
  done : Respells [] []
  same : (c : ℕ) {s t : Text} → Respells s t → Respells (c ∷ s) (c ∷ t)
  lower :
      (c d : ℕ) {s t : Text}
      → b'A' ≤ c
      → c ≤ b'Z'
      → d ≡ c + 32
      → Respells s t
      → Respells (c ∷ s) (d ∷ t)
  adds : (c : ℕ) {s t : Text} → is_separator c ≡ true → Respells s t → Respells s (c ∷ t)
  drops : (c : ℕ) {s t : Text} → is_separator c ≡ true → Respells s t → Respells (c ∷ s) t

module _ (a : Alphabet) (l : Laws a) where
  not_separator : (c : ℕ) → in_alphabet c ≡ true → is_separator c ≡ false
  not_separator c h = ground arith

  upper-letter : (c : ℕ) → in_alphabet c ≡ true → a.to_upper c ≡ c
  upper-letter c h = l.upper_other c (ground (arith, h))

  cleaned-grouped :
      (i : ℕ) (raw : Text) → All (λ c. in_alphabet c ≡ true) raw → cleaned a (grouped a i raw) ≡ raw
  unfolding grouped drop_separators
  cleaned-grouped i [] h = refl
  cleaned-grouped i (c ∷ raw) h =
      let kept : cleaned a (c ∷ grouped a (i + 1) raw) ≡ c ∷ raw = rw (not_separator c h.0) (
        ap (λ x. x ∷ cleaned a (grouped a (i + 1) raw)) (upper-letter c h.0)
        ∙ ap (λ s. c ∷ s) (cleaned-grouped (i + 1) raw h.1)) in
      if_elim (λ s. cleaned a s ≡ c ∷ raw) (ltb 0 i && i % group_size == 0) _ _ (λ e. kept)
        (λ e. kept)

  is_empty-length : (s : Text) → 0 < length s → is_empty s ≡ false
  is_empty-length [] h = absurd (omega arith)
  is_empty-length (c ∷ s) h = refl

  cleaned-Respells : (s t : Text) → Respells s t → cleaned a t ≡ cleaned a s
  unfolding drop_separators
  cleaned-Respells s t done = refl
  cleaned-Respells s t (same c r) = ground (arith, cleaned-Respells _ _ r)
  cleaned-Respells s t (lower c d lo hi e r) = ground (
    arith,
    cleaned-Respells _ _ r,
    l.upper_lower d (omega arith) (omega arith),
    l.upper_other c (omega arith),
  )
  cleaned-Respells s t (adds c e r) = rw e (cleaned-Respells _ _ r)
  cleaned-Respells s t (drops c e r) = rw e (cleaned-Respells _ _ r)

  -- A code of 20 bytes is read back from its text, typed again in any mixture of upper and lower case and with any separators left out or put in.
  pub parse_code-to_string :
      (c : Code) (t : Text)
      → length c.secret ≡ code_entropy_bytes
      → All IsByte c.secret
      → Respells (to_string a c) t
      → parse_code a t ≡ ok c
  unfolding parse_code to_string
  parse_code-to_string c t h w r = rw (read, some_letters, l.decode_encode c.secret w, h) refl
    where
      read : cleaned a t ≡ a.encode c.secret
      read =
          cleaned-Respells _ t r ∙ cleaned-grouped 0 (a.encode c.secret) (l.encode_letters c.secret)

      some_letters : is_empty (a.encode c.secret) ≡ false
      some_letters = is_empty-length (a.encode c.secret) (l.encode_some c.secret (omega (arith, h)))
