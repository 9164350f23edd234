-- ===== src/Rendezvous/Sealed.antt =====
-- internal/rendezvous/candidates.go: candidate lists sealed under the pairing key, and this machine's
-- own list. `encoding/json` on a `CandidateSet` is the record `SetJson`; the interfaces of the machine
-- are an argument.
use xessenger_cli.Prelude.{
  ℕ, zero, suc, ◌+◌, ◌/◌, ◌%◌, ◌≤◌, List, [], ◌∷◌, not, Option, none, some, Result, ok, err,
  if◌then◌else◌, ltb, ◌==◌, length, set, arith, ◌≡◌, inl, inr, sym, subst, ◌∙◌, Option-cases,
  Result-cases,
}
use xessenger_cli.Crypto
use xessenger_cli.Crypto.{Bytes, codes, Primitives, Laws, seal, open', key_size, nonce_size}
use xessenger_cli.Crypto.Aead.{seal_inverse, open'-seal, seal_succeeds}
use xessenger_cli.Rendezvous.Candidates.{Net, Candidate, Ip, usable_ip, validate_candidates}

abbrev pub max_sealed_candidates : ℕ
max_sealed_candidates = 4096

abbrev pub kind_host : Bytes
kind_host = codes "host"

abbrev pub candidate_aad : Bytes
candidate_aad = codes "heimdall v1 candidates"

pub data Error : Type 0 where
  bad_set sealing too_large unauthentic : Error

-- `json.Marshal` and `json.Unmarshal` on a `CandidateSet`.
pub record SetJson : Type 0 where
  pub marshal : List Candidate → Option Bytes
  pub unmarshal : Bytes → Option (List Candidate)

-- A list that its JSON form gives back, as one of valid UTF-8 is.
abbrev pub RoundTrips : SetJson → List Candidate → Type 0
RoundTrips j cs = (x : Bytes) → j.marshal cs ≡ some x → j.unmarshal x ≡ some cs

module _ (p : Primitives) (j : SetJson) where
  unfoldable pub seal_candidates : Option Bytes → Bytes → List Candidate → Result Error Bytes
  seal_candidates drawn pairing_key set = elim (j.marshal set) [
    | none ↦ err bad_set
    | some plain ↦ elim (seal p drawn pairing_key candidate_aad plain) [
      | err e ↦ err sealing
      | ok blob ↦ if ltb max_sealed_candidates (length blob) then err too_large else ok blob
    ]
  ]

  unfoldable pub open_candidates : Net → Bytes → Bytes → Result Error (List Candidate)
  open_candidates net pairing_key blob =
      if ltb max_sealed_candidates (length blob)
      then err too_large
      else elim (open' p pairing_key candidate_aad blob) [
        | err e ↦ err unauthentic
        | ok plain ↦ elim (j.unmarshal plain) [
          | none ↦ err bad_set
          | some set ↦ ok (validate_candidates net set)
        ]
      ]

-- What sealing a list gives: the sealed form of its JSON, under a 32-byte key, within the bound.
pub seal_candidates_inverse :
    (p : Primitives) (j : SetJson) (drawn : Option Bytes) (k blob : Bytes) (set : List Candidate)
    → seal_candidates p j drawn k set ≡ ok blob
    → (plain : Bytes) × (j.marshal set ≡ some plain)
      × (seal p drawn k candidate_aad plain ≡ ok blob)
      × (length blob ≤ max_sealed_candidates)
unfolding seal_candidates
seal_candidates_inverse p j drawn k blob set e = elim (Option-cases (j.marshal set)) [
  | inl f ↦ absurd (ground (arith, e, f))
  | inr (plain, f) ↦ elim (Result-cases (seal p drawn k candidate_aad plain)) [
    | inl (b, g) ↦ (plain, f, ground (arith, e, f, g), ground (arith, e, f, g))
    | inr (x, g) ↦ absurd (ground (arith, e, f, g))
  ]
]

module _ {p : Primitives} (l : Laws p) (j : SetJson) where
  -- A candidate list that was sealed with a 12-byte nonce opens under the same key to the candidates of it that are valid, if its JSON form reads back.
  pub open_candidates-seal_candidates :
      (net : Net) (n k blob : Bytes) (set : List Candidate)
      → length n ≡ nonce_size
      → RoundTrips j set
      → seal_candidates p j (some n) k set ≡ ok blob
      → open_candidates p j net k blob ≡ ok (validate_candidates net set)
  unfolding open_candidates
  open_candidates-seal_candidates net n k blob set hn law e =
      let (plain, f, g, small) = seal_candidates_inverse p j (some n) k blob set e in
      let (n', same, shape, hk) = seal_inverse l (some n) k candidate_aad plain blob g in
      let opened : open' p k candidate_aad blob ≡ ok plain =
        subst (λ b. open' p k candidate_aad b ≡ ok plain)
          (ok_injective (sym (seal_succeeds l n k candidate_aad plain hk) ∙ g))
          (open'-seal l n k candidate_aad plain hk hn) in
      ground (arith, opened, small, law plain f)
    where
      ok_injective : {a b : Bytes} → ◌≡◌ {A = Result Crypto.Error Bytes} (ok a) (ok b) → a ≡ b
      ok_injective h = cc

-- `itoa`, whose buffer has 20 places.
unfoldable pub itoa_loop : ℕ → ℕ → Bytes → Bytes
itoa_loop zero v buf = buf
itoa_loop (suc places) v buf =
    let rest = itoa_loop places (v / 10) ((b'0' + v % 10) ∷ buf) in if v == 0 then buf else rest

unfoldable pub itoa : ℕ → Bytes
unfolding itoa_loop
itoa v = if v == 0 then codes "0" else itoa_loop 20 v []

-- The loop of `LocalCandidates`. An address is one of `net.InterfaceAddrs`: none if it is no
-- `*net.IPNet`, else what `usableIP` sees of its IP and the IP's text. `join` is `net.JoinHostPort`.
unfoldable pub local_loop :
    (Bytes → Bytes → Bytes) → ℕ → List (Option (Ip × Bytes)) → List Candidate
unfolding itoa
local_loop join port [] = []
local_loop join port (none ∷ addrs) = local_loop join port addrs
local_loop join port (some (ip, text) ∷ addrs) =
    let rest = local_loop join port addrs in
    if not (usable_ip ip)
    then rest
    else record { addr = join text (itoa port); kind = kind_host } ∷ rest

-- A negative port gives what 0 gives.
unfoldable pub local_candidates :
    Net → (Bytes → Bytes → Bytes) → ℕ → Option (List (Option (Ip × Bytes))) → List Candidate
unfolding local_loop
local_candidates net join port none = []
local_candidates net join port (some addrs) =
    if port == 0 then [] else validate_candidates net (local_loop join port addrs)
