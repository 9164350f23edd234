-- ===== src/Rendezvous/Code.antt =====
-- internal/rendezvous/code.go: invite codes and their text. A text is the list of its code points. The
-- unpadded base32 of encoding/base32 and the upper case of package unicode are the record `Alphabet`,
-- with what is documented of them as `Laws`.
pub mod Respelling
use xessenger_cli.Prelude.{
  ℕ, zero, suc, ◌+◌, ◌-◌, ◌*◌, ◌/◌, ◌%◌, ◌^◌, ◌≤◌, ◌<◌, List, [], ◌∷◌, ◌++◌, map, Bool, true, false,
  not, ◌&&◌, ◌||◌, Option, none, some, Result, ok, err, guard, or_fail, ◌>>=◌, ◌>>◌, if◌then◌else◌,
  if_elim, ltb, leb, ◌==◌, length, get_or, set, take, drop, replicate, All, arith, ◌≡◌, ◌≢◌, ◌↔◌,
  ◌⊎◌, inl, inr, refl, sym, ap, subst, ◌∙◌, Bool-cases, Option-cases, Result-cases, ltb→lt, lt→ltb,
  ltb-false, ltb_false→le, leb→le, ==_iff, ==_refl, length-append, length-take, length-drop,
  take-append, drop-append, take-append-drop, take_all, drop_all, String,
}
use xessenger_cli.Prelude.Bytes.{IsByte}
use xessenger_cli.Crypto
use xessenger_cli.Crypto.{Bytes, codes, Primitives, derive_key, random_bytes}

abbrev pub code_entropy_bytes : ℕ
code_entropy_bytes = 20

abbrev pub pairing_key_size : ℕ
pairing_key_size = 32

abbrev pub rendezvous_id_size : ℕ
rendezvous_id_size = 16

abbrev pub group_size : ℕ
group_size = 4

abbrev pub info_rendezvous_id : Bytes
info_rendezvous_id = codes "heimdall v1 rendezvous id"

abbrev pub info_pairing_key : Bytes
info_pairing_key = codes "heimdall v1 pairing key"

abbrev pub Text : Type 0
Text = List ℕ

pub record Alphabet : Type 0 where
  pub encode : Bytes → Text
  pub decode : Text → Option Bytes
  pub to_upper : ℕ → ℕ

-- The letters A to Z and the digits 2 to 7.
abbrev pub in_alphabet : ℕ → Bool
in_alphabet c = (leb b'A' c && leb c b'Z') || (leb b'2' c && leb c b'7')

pub record Laws (a : Alphabet) : Type 0 where
  pub decode_encode : (b : Bytes) → All IsByte b → a.decode (a.encode b) ≡ some b
  pub encode_letters : (b : Bytes) → All (λ c. in_alphabet c ≡ true) (a.encode b)
  pub encode_some : (b : Bytes) → 0 < length b → 0 < length (a.encode b)
  pub upper_lower : (c : ℕ) → b'a' ≤ c → c ≤ b'z' → a.to_upper c ≡ c - 32
  pub upper_other : (c : ℕ) → c < b'a' → a.to_upper c ≡ c

pub record Code : Type 0 where
  pub secret : Bytes

pub data Error : Type 0 where
  bad_code csprng : Error

unfoldable pub new_code : Option Bytes → Result Error Code
unfolding random_bytes
new_code drawn = elim (random_bytes drawn) [
  | err e ↦ err csprng
  | ok secret ↦ ok (record { secret = secret })
]

-- What the mapping of `ParseCode` drops.
abbrev pub is_separator : ℕ → Bool
is_separator c = c == b'-' || (c == b' ' || (c == 9 || (c == 10 || c == 13)))

unfoldable pub drop_separators : Text → Text
drop_separators [] = []
drop_separators (c ∷ s) = if is_separator c then drop_separators s else c ∷ drop_separators s

abbrev pub is_empty : Text → Bool
is_empty [] = true
is_empty (c ∷ s) = false

module _ (a : Alphabet) where
  abbrev pub cleaned : Text → Text
  cleaned s = map a.to_upper (drop_separators s)

  unfoldable pub parse_code : Text → Result Error Code
  parse_code s = if is_empty (cleaned s) then err bad_code else elim (a.decode (cleaned s)) [
    | none ↦ err bad_code
    | some secret ↦
        if not (length secret == code_entropy_bytes)
        then err bad_code
        else ok (record { secret = secret })
  ]

  -- The loop of `String`, at the place `i`.
  unfoldable pub grouped : ℕ → Text → Text
  grouped i [] = []
  grouped i (c ∷ raw) =
      let rest = c ∷ grouped (i + 1) raw in
      if ltb 0 i && i % group_size == 0 then b'-' ∷ rest else rest

  unfoldable pub to_string : Code → Text
  unfolding grouped
  to_string c = grouped 0 (a.encode c.secret)

-- `ID`
unfoldable pub id_of : Primitives → Code → Result Crypto.Error Bytes
id_of p c = derive_key p c.secret [] info_rendezvous_id rendezvous_id_size

unfoldable pub pairing_key : Primitives → Code → Result Crypto.Error Bytes
pairing_key p c = derive_key p c.secret [] info_pairing_key pairing_key_size

abbrev pub zeroise : Code → Code
zeroise c = record { secret = Crypto.zeroise c.secret }
