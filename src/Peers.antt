-- ===== src/Peers.antt =====
-- internal/peers/peers.go: the trust store, and the fingerprints of internal/identity/identity.go.
-- The store is a map from fingerprint to record; a record's own mutex-free pointer becomes its entry,
-- and what is written to the file is the list of records (JSON and the file itself are not modelled:
-- `open_store` takes the decoded list). Go ranges over a map in any order, and here in list order.
pub mod Cases
pub mod Keys
pub mod Trust
use Prim.Native.Char.{code}
use xessenger_cli.Prelude.{
  ℕ, zero, suc, ◌+◌, ◌/◌, ◌%◌, List, [], ◌∷◌, ◌++◌, Bool, true, false, not, ltb, ◌==◌, map,
}
use xessenger_cli.Prelude.{Option, none, some, Result, ok, err, if◌then◌else◌, length, get_or}
use xessenger_cli.Prelude.Bytes.{bytes_eq}
use xessenger_cli.Prelude.Assoc.{Map, lookup, insert, delete}
use xessenger_cli.Crypto.{Bytes, Primitives, codes}

pub data TrustLevel : Type 0 where
  trust_unknown trust_unverified trust_verified trust_changed : TrustLevel

pub record Peer : Type 0 where
  pub name : Bytes
  pub public_key : Bytes
  pub fingerprint : Bytes
  pub verified : Bool
  pub address : Bytes
  pub first_seen : ℕ
  pub last_seen : ℕ
  pub pending_key : Bytes

abbrev pub Store : Type 0
Store = Map Peer

-- The one error of `Verify` and `Reject`.
pub data Error : Type 0 where
  no_such_peer : Error

abbrev pub public_key_size : ℕ
public_key_size = 32

abbrev pub hex_digit : ℕ → ℕ
hex_digit d = if ltb d 10 then b'0' + d else 55 + d

-- `%02X` of a byte, and `strings.Join` of the bytes with colons.
abbrev pub hex_byte : ℕ → Bytes
hex_byte b = hex_digit (b / 16) ∷ hex_digit (b % 16) ∷ []

unfoldable pub hex_bytes : Bytes → Bytes
hex_bytes [] = []
hex_bytes (b ∷ []) = hex_byte b
hex_bytes (b ∷ c ∷ bs) = hex_byte b ++ (b':' ∷ hex_bytes (c ∷ bs))

-- `append([]byte(nil), …)` and a nil slice alike are a list; a missing pending key is empty.
abbrev pub is_empty : Bytes → Bool
is_empty [] = true
is_empty (b ∷ bs) = false

-- `findByNameLocked`: the key and the record of the first entry of that name.
unfoldable pub find_by_name : Bytes → Store → Option (Bytes × Peer)
find_by_name name [] = none
find_by_name name ((id, p) ∷ s) = if bytes_eq p.name name then some (id, p) else find_by_name name s

abbrev pub level_of : Peer → TrustLevel
level_of p = if p.verified then trust_verified else trust_unverified

module _ (p : Primitives) where
  -- `FingerprintOf`, and `peerID`
  unfoldable pub fingerprint_of : Bytes → Bytes
  unfolding hex_bytes
  fingerprint_of key = codes "SHA256: " ++ hex_bytes (p.sha256 key)

  -- The loop of `OpenStore`: a record whose key has the wrong size is skipped.
  unfoldable pub load : List Peer → Store → Store
  load [] s = s
  load (q ∷ qs) s = load qs (
      if length q.public_key == public_key_size
      then insert (fingerprint_of q.public_key) q s
      else s)

  abbrev pub open_store : List Peer → Store
  open_store list = load list []

  unfoldable pub pending_fingerprint : Peer → Bytes
  pending_fingerprint q = if is_empty q.pending_key then [] else fingerprint_of q.pending_key

  -- The three cases of `Observe`, at the time `now`.
  abbrev pub seen_again : Bytes → Bytes → ℕ → Peer → Peer
  seen_again name address now q = record q {
    name = name;
    address = if is_empty address then q.address else address;
    last_seen = now;
    pending_key = [];
  }

  abbrev pub changed_key : Bytes → ℕ → Peer → Peer
  changed_key key now q = record q { pending_key = key; last_seen = now }

  abbrev pub new_peer : Bytes → Bytes → Bytes → ℕ → Peer
  new_peer name address key now = record {
    name = name;
    public_key = key;
    fingerprint = fingerprint_of key;
    verified = false;
    address = address;
    first_seen = now;
    last_seen = now;
    pending_key = [];
  }

  unfoldable pub observe : Bytes → Bytes → Bytes → ℕ → Store → Store × TrustLevel
  observe name address key now s = elim (lookup (fingerprint_of key) s) [
    | some q ↦ (insert (fingerprint_of key) (seen_again name address now q) s, level_of q)
    | none ↦ elim (find_by_name name s) [
      | some (id, q) ↦ (insert id (changed_key key now q) s, trust_changed)
      | none ↦ (insert (fingerprint_of key) (new_peer name address key now) s, trust_unknown)
    ]
  ]

  abbrev pub adopted : Peer → Peer
  adopted q = record q {
    public_key = q.pending_key;
    pending_key = [];
    fingerprint = fingerprint_of q.pending_key;
    verified = true;
  }

  unfoldable pub verify : Bytes → Store → Store × Result Error Peer
  verify name s = elim (find_by_name name s) [
    | none ↦ (s, err no_such_peer)
    | some (id, q) ↦
        if is_empty q.pending_key
        then (insert id (record q { verified = true }) s, ok (record q { verified = true }))
        else (
          insert (fingerprint_of q.pending_key) (adopted q)
              (delete (fingerprint_of q.public_key) s),
          ok (adopted q),
        )
  ]

  unfoldable pub trust_of : Bytes → Bytes → Store → TrustLevel
  trust_of name key s = elim (lookup (fingerprint_of key) s) [
    | some q ↦ level_of q
    | none ↦ elim (find_by_name name s) [ none ↦ trust_unknown | some e ↦ trust_changed ]
  ]

unfoldable pub reject : Bytes → Store → Store × Result Error (Unit {0})
reject name s = elim (find_by_name name s) [
  | none ↦ (s, err no_such_peer)
  | some (id, q) ↦ (insert id (record q { pending_key = [] }) s, ok tt)
]

abbrev pub get : Bytes → Store → Option Peer
get name s = elim (find_by_name name s) [ none ↦ none | some e ↦ some e.1 ]
