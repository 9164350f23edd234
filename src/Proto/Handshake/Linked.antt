-- ===== src/Proto/Handshake/Linked.antt =====
-- internal/proto/handshake.go with internal/proto/session.go: a whole handshake of two honest peers, and
-- the two sessions.
use xessenger_cli.Prelude.{
  ◌^◌, ◌<◌, List, ◌∷◌, ◌++◌, map, true, false, none, some, ok, length, All, arith, ◌≡◌, ◌≢◌, refl,
  sym, ap, ◌∙◌, length-append,
}
use xessenger_cli.Prelude.Bytes.{bytes_eq, bytes_eq_iff, put_uint, length-put_uint}
use xessenger_cli.Crypto.{Bytes, Primitives, Laws, nonce_size}
use xessenger_cli.Proto.Session.{Session, new_session}
use xessenger_cli.Proto.Session.Delivery.{Payload, IsPayload}
use xessenger_cli.Proto.Session.Stream.{received, InOrder-received}
use xessenger_cli.Proto.Session.Start.{new_session_lem}
use xessenger_cli.Proto.Handshake.{
  Identity, Handshaker, new_handshaker, init_message, handle_message, hs_type_init, marshal_auth,
  transcript_hash, info_hs2, info_hs3,
}
use xessenger_cli.Proto.Handshake.Honest.{Sizes, IsOwn, seal_auth-check_peer}
use xessenger_cli.Proto.Handshake.Agreement.{
  fresh, agreed, result, parse_init-init, handle_init_lem, handle_auth_initiator_lem,
  handle_auth_responder_lem, handle_message_init, handle_message_auth, length-marshal_auth,
}
use xessenger_cli.Proto.Handshake.Wire.{parse_auth-marshal_auth}

module _ {p : Primitives} (l : Laws p) (sizes : Sizes p) (a b : Identity) (own_a : IsOwn p a)
    (own_b : IsOwn p b) (eph_a eph_b nonce_a nonce_b shared : Bytes) where
  -- What both sides derive their keys from.
  abbrev pub transcript : Bytes
  transcript = transcript_hash p (p.x25519_public eph_a) (p.x25519_public eph_b)

  -- The run of the handlers on the three messages.
  pub record Exchange (s t : Session) : Type 0 where
    pub first : Bytes
    pub second : Bytes
    pub third : Bytes
    pub waiting : Handshaker
    pub makes_a : new_handshaker p (some eph_a) a true ≡ ok (fresh p a true eph_a)
    pub makes_b : new_handshaker p (some eph_b) b false ≡ ok (fresh p b false eph_b)
    pub starts : init_message p (fresh p a true eph_a) ≡ ok first
    pub answers :
        handle_message p (some nonce_b) first (fresh p b false eph_b)
        ≡ (waiting, ok (some second, none))
    pub completes_a :
        (handle_message p (some nonce_a) second (fresh p a true eph_a)).1
        ≡ ok (some third, some (result s b transcript))
    pub completes_b :
        (handle_message p none third waiting).1 ≡ ok (none, some (result t a transcript))

  module _ (length_a : length (p.x25519_public eph_a) ≡ 32)
      (length_b : length (p.x25519_public eph_b) ≡ 32)
      (agree_a : p.x25519_ecdh eph_a (p.x25519_public eph_b) ≡ some shared)
      (secret : 0 < length shared) (nonce_a_ok : length nonce_a ≡ nonce_size)
      (nonce_b_ok : length nonce_b ≡ nonce_size) (others : a.public_key ≢ b.public_key) where
    side_a : Handshaker
    side_a = agreed (fresh p a true eph_a) (p.x25519_public eph_b) transcript shared

    side_b : Handshaker
    side_b = agreed (fresh p b false eph_b) (p.x25519_public eph_a) transcript shared

    differ : (x y : Bytes) → x ≢ y → bytes_eq x y ≡ false
    differ x y h = ground (arith, bytes_eq_iff x y, h)

    exchange :
        (s t : Session)
        → new_session p shared transcript true ≡ ok s
        → new_session p shared transcript false ≡ ok t
        → Exchange s t
    unfolding side_a side_b
    exchange s t es et =
        let (blob, sealed, checked, size) =
          seal_auth-check_peer l sizes side_b side_a own_b nonce_b info_hs2 nonce_b_ok refl refl
            secret (differ b.public_key a.public_key (λ e. others (sym e))) in
        let (blob', sealed', checked', size') =
          seal_auth-check_peer l sizes side_a side_b own_a nonce_a info_hs3 nonce_a_ok refl refl
            secret (differ a.public_key b.public_key others) in
        let m1 : Bytes =
          hs_type_init ∷ (put_uint 2 (length (p.x25519_public eph_a)) ++ p.x25519_public eph_a) in
        let m2 : Bytes = marshal_auth (p.x25519_public eph_b) blob in
        let m3 : Bytes = marshal_auth (p.x25519_public eph_a) blob' in
        let split =
          parse_auth-marshal_auth (p.x25519_public eph_b) blob length_b (omega (arith, size))
            (omega (arith, size, own_b.short_name)) in
        let split' =
          parse_auth-marshal_auth (p.x25519_public eph_a) blob' length_a (omega (arith, size'))
            (omega (arith, size', own_a.short_name)) in
        record {
          first = m1;
          second = m2;
          third = m3;
          waiting = side_b;
          makes_a = rw own_a.holds refl;
          makes_b = rw own_b.holds refl;
          starts = refl;
          answers =
              handle_message_init p (some nonce_b) m1 (fresh p b false eph_b) refl refl refl
                (omega (
                  arith,
                  length-append (put_uint 2 (length (p.x25519_public eph_a)))
                      (p.x25519_public eph_a),
                  length-put_uint 2 (length (p.x25519_public eph_a)),
                  length_a,
                ))
                refl
              ∙ handle_init_lem p (some nonce_b) (fresh p b false eph_b) m1 (p.x25519_public eph_a)
                  shared blob (parse_init-init (p.x25519_public eph_a) length_a)
                  (sym (l.ecdh_agrees eph_a eph_b) ∙ agree_a) sealed;
          completes_a =
              ap (λ r. r.1)
                (handle_message_auth p (some nonce_a) m2 (fresh p a true eph_a) refl
                    (omega (
                      arith,
                      length-marshal_auth (p.x25519_public eph_b) blob length_b,
                      size,
                      own_b.short_name,
                    ))
                    refl
                  ∙ handle_auth_initiator_lem p (some nonce_a) (fresh p a true eph_a) b
                      (p.x25519_public eph_b) blob shared blob' s split agree_a checked sealed' es);
          completes_b =
              ap (λ r. r.1)
                (handle_message_auth p none m3 side_b refl
                    (omega (
                      arith,
                      length-marshal_auth (p.x25519_public eph_a) blob' length_a,
                      size',
                      own_a.short_name,
                    ))
                    refl
                  ∙ handle_auth_responder_lem p side_b a (p.x25519_public eph_a) blob' t
                      (omega (arith, sizes.length_sha256 _)) split' checked' et);
        }

    -- Two peers that hold their keys, whose names have 1 to 64 bytes and whose keys differ, and whose 32-byte ephemeral keys agree on a non-empty secret, both complete the handshake: each gets the other's name and key and the one transcript, and whatever fewer than 2^32 valid payloads either then seals in its session, the other opens in order.
    pub handshakes_link :
        (ms : List Payload)
        → All IsPayload ms
        → length ms < 2 ^ 32
        → (s : Session) × (t : Session) × Exchange s t
          × (received p s t ms ≡ map (λ m. ok (m.typ, m.text)) ms)
          × (received p t s ms ≡ map (λ m. ok (m.typ, m.text)) ms)
    handshakes_link ms w few =
        let e = new_session_lem l shared transcript secret in
        (
          e.session true,
          e.session false,
          exchange (e.session true) (e.session false) (e.run true) (e.run false),
          InOrder-received l ms (e.session true) (e.session false) (e.in_order true) w
              (omega (arith, e.from_zero true)) (omega (arith, e.from_zero true)),
          InOrder-received l ms (e.session false) (e.session true) (e.in_order false) w
              (omega (arith, e.from_zero false)) (omega (arith, e.from_zero false)),
        )
