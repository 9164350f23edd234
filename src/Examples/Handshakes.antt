-- ===== src/Examples/Handshakes.antt =====
-- Two peers of internal/proto/handshake.go and an identity of internal/identity/identity.go.
use xessenger_cli.Prelude.{
  [], ◌∷◌, true, false, none, some, ok, err, take, replicate, arith, ◌≡◌, ◌≢◌, refl, sym, ap,
}
use xessenger_cli.Prelude.Assoc.{lookup}
use xessenger_cli.Prelude.Bytes.{bytes_eq_iff}
use xessenger_cli.Crypto.{Bytes, codes, Primitives, Laws}
use xessenger_cli.Crypto.Toy.{toy, toy_laws}
use xessenger_cli.Proto.Session.{Session}
use xessenger_cli.Proto.Session.Stream.{received}
use xessenger_cli.Proto.Handshake.{Identity}
use xessenger_cli.Proto.Handshake.Honest.{Sizes, IsOwn}
use xessenger_cli.Proto.Handshake.Linked.{Exchange, handshakes_link}
use xessenger_cli.IdentityFile.{Platform, DiskCalls, Error, save, save_insecure, load}
use xessenger_cli.IdentityFile.Saving.{IsStorable, load-save}
use xessenger_cli.Examples.Sessions.{hello, hello-IsPayload}

abbrev alice : Identity
alice = record {
  name = codes "alice";
  public_key = replicate 32 1;
  private_key = some (replicate 32 1);
}

abbrev bob : Identity
bob = record {
  name = codes "bob";
  public_key = replicate 32 2;
  private_key = some (replicate 32 2);
}

toy_sizes : Sizes toy
toy_sizes = record { length_sign = λ priv m. refl; length_sha256 = λ m. refl }

alice-IsOwn : IsOwn toy alice
alice-IsOwn = record {
  priv = replicate 32 1;
  holds = refl;
  matches = refl;
  key_length = refl;
  some_name = omega arith;
  short_name = omega arith;
}

bob-IsOwn : IsOwn toy bob
bob-IsOwn = record {
  priv = replicate 32 2;
  holds = refl;
  matches = refl;
  key_length = refl;
  some_name = omega arith;
  short_name = omega arith;
}

keys_differ : alice.public_key ≢ bob.public_key
keys_differ e = let t : false ≡ true = (bytes_eq_iff alice.public_key bob.public_key).1 e in (cc)

handshakes_link_example :
    (s : Session) × (t : Session) × Exchange toy_laws toy_sizes alice bob alice-IsOwn bob-IsOwn
      (replicate 32 3)
      (replicate 32 4)
      (replicate 12 5)
      (replicate 12 6)
      (replicate 32 224)
      s
      t
    × (received toy s t (hello ∷ []) ≡ ok (hello.typ, hello.text) ∷ [])
    × (received toy t s (hello ∷ []) ≡ ok (hello.typ, hello.text) ∷ [])
handshakes_link_example =
    handshakes_link toy_laws toy_sizes alice bob alice-IsOwn bob-IsOwn (replicate 32 3)
      (replicate 32 4) (replicate 12 5) (replicate 12 6) (replicate 32 224) refl refl refl
      (omega arith) refl refl keys_differ (hello ∷ []) (hello-IsPayload, tt) (omega arith)

-- Primitives whose private signing keys have 64 bytes.
abbrev long_keys : Primitives
long_keys = record toy { ed25519_public = λ priv. take 32 priv }

long_laws : Laws long_keys
long_laws = record {
  open_seal = toy_laws.open_seal;
  open_only = toy_laws.open_only;
  length_seal = toy_laws.length_seal;
  length_hkdf = toy_laws.length_hkdf;
  bytes_hkdf = toy_laws.bytes_hkdf;
  hkdf_total = toy_laws.hkdf_total;
  verify_sign = λ priv m. refl;
  ecdh_agrees = toy_laws.ecdh_agrees;
}

abbrev carol : Identity
carol = record {
  name = codes "carol";
  public_key = replicate 32 8;
  private_key = some (replicate 64 8);
}

-- JSON of one identity, and a derivation that reads nothing.
abbrev machine : Platform
machine = record {
  marshal = λ df. some df.private;
  unmarshal = λ b. some (record { name = codes "carol"; private = b; public = replicate 32 8 });
  pbkdf2 = λ passphrase salt rounds n. some (replicate n 4);
  base_name = λ path. path;
  trim_space = λ s. s;
}

carol-IsStorable : IsStorable long_keys machine carol (replicate 64 8)
carol-IsStorable = record {
  holds = refl;
  private_size = refl;
  public_size = refl;
  matches = refl;
  reads_back = λ x h.
      ap (λ b. some (record { name = codes "carol"; private = b; public = replicate 32 8 }))
        (sym (inner x h));
}
  where
    inner : (x : Bytes) → some (replicate 64 8) ≡ some x → replicate 64 8 ≡ x
    inner x h = cc

abbrev working : DiskCalls
working = record { mkdir_ok = true; write_fails = none; rename_ok = true }

abbrev home : Bytes
home = codes "id.dat"

load-save_example :
    (let saved =
        save long_keys machine working
          (some (replicate 16 1))
          (some (replicate 12 2))
          home
          (codes "pass")
          carol
          [] in
      (saved.1 ≡ ok tt → load long_keys machine home (codes "pass") saved.0 ≡ ok carol)
      × ((e : Error) → saved.1 ≡ err e → lookup home saved.0 ≡ none))
    × (let stored = save_insecure long_keys machine working home carol [] in
        (stored.1 ≡ ok tt → load long_keys machine home [] stored.0 ≡ ok carol)
        × ((e : Error) → stored.1 ≡ err e → lookup home stored.0 ≡ none))
unfolding lookup
load-save_example =
    load-save long_laws machine carol (replicate 64 8) carol-IsStorable working home (codes "pass")
      (replicate 16 1) (replicate 12 2) [] refl refl
