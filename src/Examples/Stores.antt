-- ===== src/Examples/Stores.antt =====
-- A trust store of internal/peers and a handshake of internal/proto, at which their theorems are applied.
use xessenger_cli.Prelude.{
  [], ◌∷◌, ◌++◌, true, false, replicate, Option, none, some, ok, err, arith, ◌≡◌, refl,
}
use xessenger_cli.Prelude.Bytes.{put_uint, uint}
use xessenger_cli.Prelude.Assoc.{IsMap, lookup}
use xessenger_cli.Crypto.{Bytes, codes, derive_key, aead}
use xessenger_cli.Crypto
use xessenger_cli.Crypto.Toy.{toy, toy_laws}
use xessenger_cli.Peers.{
  Peer, Store, observe, verify, reject, trust_of, trust_verified, fingerprint_of, open_store,
  find_by_name,
}
use xessenger_cli.Peers.Keys.{observes, verifies, apply_all, IsKeyed, open_store-IsKeyed}
use xessenger_cli.Peers.Trust.{Keeps, observe-reject_keep, verify-trust_of}
use xessenger_cli.Proto.Frame.{handshake}
use xessenger_cli.Proto.Session.Start.{Established, new_session_lem}
use xessenger_cli.Proto.Handshake.{
  info_hs3, Handshaker, HandshakeResult, handle_message, handle_auth_responder, check_peer,
  open_auth, result_of, marshal_auth, marshal_auth_plain,
}
use xessenger_cli.Proto.Handshake.Verified.{Authentic, opener, handle_message-Completes}

abbrev old_key : Bytes
old_key = replicate 32 1

abbrev new_key : Bytes
new_key = replicate 32 2

abbrev known_peer : Peer
known_peer = record {
  name = codes "bob";
  public_key = old_key;
  fingerprint = [];
  verified = false;
  address = [];
  first_seen = 1;
  last_seen = 1;
  pending_key = new_key;
}

abbrev one_peer : Store
one_peer = (fingerprint_of toy old_key, known_peer) ∷ []

observe-reject_keep_example :
    Keeps
      (lookup
        (fingerprint_of toy old_key)
        (observe toy (codes "bob") [] (replicate 32 3) 9 one_peer).0)
      known_peer
    × Keeps (lookup (fingerprint_of toy old_key) (reject (codes "bob") one_peer).0) known_peer
unfolding IsMap lookup fingerprint_of
observe-reject_keep_example =
    observe-reject_keep toy (codes "bob") [] (replicate 32 3) 9 one_peer
      (fingerprint_of toy old_key) known_peer (refl, tt) held
  where
    held : lookup (fingerprint_of toy old_key) one_peer ≡ some known_peer
    held = refl

abbrev adopted_peer : Peer
adopted_peer = record known_peer {
  public_key = new_key;
  pending_key = [];
  fingerprint = fingerprint_of toy new_key;
  verified = true;
}

adopts : (verify toy (codes "bob") one_peer).1 ≡ ok adopted_peer
unfolding verify find_by_name
adopts = refl

verify-trust_of_example :
    trust_of toy (codes "eve") new_key (verify toy (codes "bob") one_peer).0 ≡ trust_verified
verify-trust_of_example =
    verify-trust_of toy (codes "bob") (codes "eve") one_peer adopted_peer (refl, tt) adopts

open_store-IsKeyed_example :
    IsKeyed toy (
      apply_all toy
        (open_store toy (known_peer ∷ []))
        (observes (codes "bob") [] new_key 5 ∷ verifies (codes "bob") ∷ []))
    × IsMap (
        apply_all toy
          (open_store toy (known_peer ∷ []))
          (observes (codes "bob") [] new_key 5 ∷ verifies (codes "bob") ∷ []))
open_store-IsKeyed_example =
    open_store-IsKeyed toy (known_peer ∷ [])
      (observes (codes "bob") [] new_key 5 ∷ verifies (codes "bob") ∷ [])

-- A responder that waits for msg3, with its secret and transcript of 32 bytes.
abbrev secret : Bytes
secret = replicate 32 3

abbrev hash : Bytes
hash = replicate 32 4

abbrev responder : Handshaker
responder = record {
  id = record { name = codes "bob"; public_key = old_key; private_key = some old_key };
  initiator = false;
  eph = secret;
  eph_pub = secret;
  peer_eph = secret;
  transcript = hash;
  shared = secret;
  done = false;
}

abbrev msg3 : Bytes
msg3 =
    marshal_auth secret (
      replicate 12 0 ++ (marshal_auth_plain new_key (codes "a") (replicate 64 7) ++ replicate 16 9))

established : Established toy_laws secret hash
established = new_session_lem toy_laws secret hash (omega arith)

abbrev outcome : HandshakeResult
outcome = record {
  session = established.session false;
  peer_name = codes "a";
  peer_key = new_key;
  transcript = hash;
}

ends_well : (handle_message toy none msg3 responder).1 ≡ ok (none, some outcome)
unfolding handle_message handle_auth_responder check_peer open_auth result_of derive_key
    Crypto.open' aead uint put_uint
ends_well = rw (established.run false) refl

handle_message-Completes_example :
    Authentic toy
      (opener toy responder)
      info_hs3
      msg3
      (handle_message toy none msg3 responder).0
      outcome
    × ((drawn : Option Bytes) (msg : Bytes)
        → handle_message toy drawn msg (handle_message toy none msg3 responder).0
          ≡ ((handle_message toy none msg3 responder).0, err handshake))
handle_message-Completes_example =
    handle_message-Completes toy none msg3 responder none outcome ends_well
