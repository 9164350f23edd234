-- ===== src/Proto/Handshake/Agreement.antt =====
-- internal/proto/handshake.go: the handlers of two honest sides, one after the other.
use xessenger_cli.Prelude.{
  ◌+◌, ◌≤◌, ◌<◌, [], ◌∷◌, ◌++◌, Bool, true, false, not, ◌&&◌, ◌||◌, Option, none, some, ok,
  if◌then◌else◌, ltb, ◌==◌, length, get_or, arith, ◌≡◌, refl, ap, ◌∙◌, length-append,
}
use xessenger_cli.Prelude.Bytes.{put_uint, uint, length-put_uint}
use xessenger_cli.Crypto.{Bytes, Primitives}
use xessenger_cli.Proto.Session.{Session, new_session}
use xessenger_cli.Proto.Handshake.{
  Identity, Handshaker, HandshakeResult, handle_message, handle_init, handle_auth_initiator,
  handle_auth_responder, agree, derive_shared, result_of, finish, seal_auth, check_peer, parse_init,
  parse_auth, marshal_auth, transcript_hash, info_hs2, info_hs3, hs_type_init, hs_type_auth,
  max_hs_size,
}

-- What `NewHandshaker` makes, and what the assignments of a handler make of it.
abbrev pub fresh : Primitives → Identity → Bool → Bytes → Handshaker
fresh p id initiator eph = record {
  id = id;
  initiator = initiator;
  eph = eph;
  eph_pub = p.x25519_public eph;
  peer_eph = [];
  transcript = [];
  shared = [];
  done = false;
}

abbrev pub agreed : Handshaker → Bytes → Bytes → Bytes → Handshaker
agreed h peer transcript shared = record h {
  peer_eph = peer;
  transcript = transcript;
  shared = shared;
}

abbrev pub result : Session → Identity → Bytes → HandshakeResult
result s peer transcript = record {
  session = s;
  peer_name = peer.name;
  peer_key = peer.public_key;
  transcript = transcript;
}

if_true {ℓ} : {A : Type ℓ} (b : Bool) (x y : A) → b ≡ true → (if b then x else y) ≡ x
if_true b x y e = ap (λ c. if c then x else y) e

if_false {ℓ} : {A : Type ℓ} (b : Bool) (x y : A) → b ≡ false → (if b then x else y) ≡ y
if_false b x y e = ap (λ c. if c then x else y) e

pub parse_init-init :
    (eph_pub : Bytes)
    → length eph_pub ≡ 32
    → parse_init (hs_type_init ∷ (put_uint 2 (length eph_pub) ++ eph_pub)) ≡ ok eph_pub
unfolding put_uint uint
parse_init-init eph_pub h = rw h refl

module _ (p : Primitives) where
  agree_lem :
      (h : Handshaker) (peer transcript shared : Bytes)
      → p.x25519_ecdh h.eph peer ≡ some shared
      → agree p peer transcript h ≡ (agreed h peer transcript shared, ok tt)
  unfolding agree derive_shared
  agree_lem h peer transcript shared e = rw (agree, derive_shared, e) refl

  pub handle_init_lem :
      (drawn : Option Bytes) (h : Handshaker) (msg peer shared blob : Bytes)
      → parse_init msg ≡ ok peer
      → p.x25519_ecdh h.eph peer ≡ some shared
      → seal_auth p drawn info_hs2 (agreed h peer (transcript_hash p peer h.eph_pub) shared)
        ≡ ok blob
      → handle_init p drawn msg h ≡ (
        agreed h peer (transcript_hash p peer h.eph_pub) shared,
        ok (some (marshal_auth h.eph_pub blob), none),
      )
  unfolding handle_init
  handle_init_lem drawn h msg peer shared blob e f g =
      rw (handle_init, e, agree_lem h peer (transcript_hash p peer h.eph_pub) shared f, g) refl

  result_of_ok :
      (h : Handshaker) (peer : Identity) (s : Session)
      → new_session p h.shared h.transcript h.initiator ≡ ok s
      → result_of p (peer.public_key, peer.name) h ≡ ok (result s peer h.transcript)
  unfolding result_of
  result_of_ok h peer s e = rw e refl

  pub handle_auth_initiator_lem :
      (drawn : Option Bytes) (h : Handshaker) (peer : Identity) (eph blob shared blob' : Bytes)
      (s : Session)
      → (let h' = agreed h eph (transcript_hash p h.eph_pub eph) shared in
          parse_auth (marshal_auth eph blob) ≡ ok (eph, blob)
          → p.x25519_ecdh h.eph eph ≡ some shared
          → check_peer p blob info_hs2 h' ≡ ok (peer.public_key, peer.name)
          → seal_auth p drawn info_hs3 h' ≡ ok blob'
          → new_session p shared (transcript_hash p h.eph_pub eph) h.initiator ≡ ok s
          → handle_auth_initiator p drawn (marshal_auth eph blob) h ≡ (
            finish h',
            ok (some (marshal_auth h.eph_pub blob'), some (result s peer h'.transcript)),
          ))
  unfolding handle_auth_initiator
  handle_auth_initiator_lem drawn h peer eph blob shared blob' s e f c g n =
      let h' : Handshaker = agreed h eph (transcript_hash p h.eph_pub eph) shared in
      rw
        (
          handle_auth_initiator,
          e,
          agree_lem h eph (transcript_hash p h.eph_pub eph) shared f,
          c,
          g,
          result_of_ok h' peer s n,
        )
        refl

  pub handle_auth_responder_lem :
      (h : Handshaker) (peer : Identity) (eph blob : Bytes) (s : Session)
      → 0 < length h.transcript
      → parse_auth (marshal_auth eph blob) ≡ ok (eph, blob)
      → check_peer p blob info_hs3 h ≡ ok (peer.public_key, peer.name)
      → new_session p h.shared h.transcript h.initiator ≡ ok s
      → handle_auth_responder p (marshal_auth eph blob) h
        ≡ (finish h, ok (none, some (result s peer h.transcript)))
  unfolding handle_auth_responder
  handle_auth_responder_lem h peer eph blob s some_transcript e c n =
      let not_empty : (length h.transcript == 0) ≡ false = ground (arith, some_transcript) in
      rw (handle_auth_responder, not_empty, e, c, result_of_ok h peer s n) refl

  -- A handshaker that is not finished hands a message of a legal size to the handler of its type.
  pub handle_message_init :
      (drawn : Option Bytes) (msg : Bytes) (h : Handshaker)
      → h.done ≡ false
      → h.initiator ≡ false
      → h.transcript ≡ []
      → length msg ≤ max_hs_size
      → get_or msg 0 0 ≡ hs_type_init
      → handle_message p drawn msg h ≡ handle_init p drawn msg h
  unfolding handle_message
  handle_message_init drawn [] h d i t k y = absurd (omega (arith, y))
  handle_message_init drawn (c ∷ msg) h d i t k y =
      let empty : length h.transcript ≡ 0 = ap length t in ground (arith, d, i, empty, k, y)

  pub handle_message_auth :
      (drawn : Option Bytes) (msg : Bytes) (h : Handshaker)
      → h.done ≡ false
      → length msg ≤ max_hs_size
      → get_or msg 0 0 ≡ hs_type_auth
      → handle_message p drawn msg h ≡ (
          if h.initiator
          then handle_auth_initiator p drawn msg h
          else handle_auth_responder p msg h)
  unfolding handle_message
  handle_message_auth drawn [] h d k y = absurd (omega (arith, y))
  handle_message_auth drawn (c ∷ msg) h d k y =
      if_false h.done _ _ d
      ∙ if_false ((length (c ∷ msg) == 0) || ltb max_hs_size (length (c ∷ msg))) _ _
          (ground (arith, k))
      ∙ if_false (not h.initiator && ((c == hs_type_init) && (length h.transcript == 0))) _ _
          (ground (arith, y))
      ∙ if_true (c == hs_type_auth) _ _ (ground (arith, y))

pub length-marshal_auth :
    (eph blob : Bytes) → length eph ≡ 32 → length (marshal_auth eph blob) ≡ 37 + length blob
length-marshal_auth eph blob h = omega (
  arith,
  h,
  length-append eph (put_uint 4 (length blob) ++ blob),
  length-append (put_uint 4 (length blob)) blob,
  length-put_uint 4 (length blob),
)
