-- ===== src/Proto/Handshake/Verified.antt =====
-- internal/proto/handshake.go: what a completed handshake says of the peer.
use xessenger_cli.Prelude.{
  true, false, not, Option, none, some, Result, ok, err, length, get_or, ltb, ◌>>=◌, ◌>>◌, ◌==◌,
  ◌&&◌, ◌||◌,
}
use xessenger_cli.Prelude.{
  if◌then◌else◌, ap, ◌∙◌, Bool, if_elim, arith, ◌≡◌, refl, sym, subst, inl, inr, Result-cases,
}
use xessenger_cli.Prelude.Bytes.{bytes_eq}
use xessenger_cli.Crypto.{Bytes, Primitives}
use xessenger_cli.Proto.Frame.{Error, handshake}
use xessenger_cli.Proto.Session.{new_session}
use xessenger_cli.Proto.Handshake.{
  Handshaker, HandshakeResult, Answer, conclude, agree, open_auth, check_peer, result_of, seal_auth,
}
use xessenger_cli.Proto.Handshake.{
  handle_init, handle_auth_initiator, handle_auth_responder, handle_message, parse_auth, info_hs2,
  info_hs3, marshal_auth, transcript_hash, max_hs_size, hs_type_init, hs_type_auth,
}

module _ (p : Primitives) where
  -- The handshaker that opens a message of the given parts: an initiator first agrees on the shared
  -- secret, with the ephemeral key of the message.
  abbrev pub opener : Handshaker → Bytes × Bytes → Handshaker
  opener h parts =
      if h.initiator then (agree p parts.0 (transcript_hash p h.eph_pub parts.0) h).0 else h

  -- What a message that ended a handshake with a result holds: its sealed part opens, under the secret
  -- of the handshaker that opens it and for `info`, to the peer's key, its name and a signature, the
  -- key signed the transcript of the handshaker `h` that is left, and it is not our own.
  pub record Authentic (before : Bytes × Bytes → Handshaker) (info msg : Bytes) (h : Handshaker)
      (r : HandshakeResult) : Type 0 where
    pub parts : Bytes × Bytes
    pub signature : Bytes
    pub parsed : parse_auth msg ≡ ok parts
    pub opened : open_auth p parts.1 info (before parts) ≡ ok (r.peer_key, r.peer_name, signature)
    pub signed : p.ed25519_verify r.peer_key h.transcript signature ≡ true
    pub transcript : r.transcript ≡ h.transcript
    pub not_own : bytes_eq r.peer_key h.id.public_key ≡ false

  check_peer_lem :
      (blob info : Bytes) (h : Handshaker) (peer : Bytes × Bytes)
      → check_peer p blob info h ≡ ok peer
      → (sig : Bytes) × (open_auth p blob info h ≡ ok (peer.0, peer.1, sig))
        × (p.ed25519_verify peer.0 h.transcript sig ≡ true)
        × (bytes_eq peer.0 h.id.public_key ≡ false)
  unfolding check_peer
  check_peer_lem blob info h peer e = elim (Result-cases (open_auth p blob info h)) [
    | inr (x, f) ↦ absurd (ground (arith, e, f))
    | inl ((key, name, sig), f) ↦ (
      sig,
      f ∙ ap (λ (q : Bytes × Bytes). ok (q.0, q.1, sig)) (ground (arith, e, f)),
      ground (arith, e, f),
      ground (arith, e, f),
    )
  ]

  result_of_lem :
      (peer : Bytes × Bytes) (h : Handshaker) (r : HandshakeResult)
      → result_of p peer h ≡ ok r
      → (r.peer_key ≡ peer.0) × (r.peer_name ≡ peer.1) × (r.transcript ≡ h.transcript)
  unfolding result_of
  result_of_lem peer h r e = elim (Result-cases (new_session p h.shared h.transcript h.initiator)) [
    | inr (x, f) ↦ absurd (ground (arith, e, f))
    | inl (s, f) ↦ (ground (arith, e, f), ground (arith, e, f), ground (arith, e, f))
  ]

  -- If a handler ends with a result, the message is authentic and the handshaker finished.
  abbrev pub Completes :
      (Bytes × Bytes → Handshaker) → Bytes → Bytes → Handshaker × Result Error Answer → Type 0
  Completes before info msg x =
      (out : Option Bytes) (r : HandshakeResult)
      → x.1 ≡ ok (out, some r)
      → Authentic before info msg x.0 r × (x.0.done ≡ true)

  conclude-Completes :
      (before : Bytes × Bytes → Handshaker) (info msg : Bytes) (h : Handshaker)
      (m : Result Error (Option Bytes × HandshakeResult))
      → ((out : Option Bytes) (r : HandshakeResult)
          → m ≡ ok (out, r)
          → Authentic before info msg h r)
      → Completes before info msg (conclude h m)
  conclude-Completes before info msg h (err x) k out r e = absurd (ground (arith, e))
  conclude-Completes before info msg h (ok (out', r')) k out r e =
      let a = k out r (ground (arith, e)) in
      (
        record {
          parts = a.parts;
          signature = a.signature;
          parsed = a.parsed;
          opened = a.opened;
          signed = a.signed;
          transcript = a.transcript;
          not_own = a.not_own;
        },
        refl,
      )

  from_result :
      (before : Bytes × Bytes → Handshaker) (info msg : Bytes) (parts peer : Bytes × Bytes)
      (r : HandshakeResult)
      → parse_auth msg ≡ ok parts
      → check_peer p parts.1 info (before parts) ≡ ok peer
      → result_of p peer (before parts) ≡ ok r
      → Authentic before info msg (before parts) r
  from_result before info msg parts peer r g c e =
      let h = before parts in
      let (k, n, t) = result_of_lem peer h r e in
      let (sig, opens, verifies, other) = check_peer_lem parts.1 info h peer c in
      record {
        parts = parts;
        signature = sig;
        parsed = g;
        opened =
            opens ∙ sym (ap (λ x. ok (x, r.peer_name, sig)) k ∙ ap (λ y. ok (peer.0, y, sig)) n);
        signed = subst (λ x. p.ed25519_verify x h.transcript sig ≡ true) (sym k) verifies;
        transcript = t;
        not_own = subst (λ x. bytes_eq x h.id.public_key ≡ false) (sym k) other;
      }

  responder-Completes :
      (msg : Bytes) (h : Handshaker)
      → Completes (λ q. h) info_hs3 msg (handle_auth_responder p msg h)
  unfolding handle_auth_responder
  responder-Completes msg h =
      if_elim (Completes (λ q. h) info_hs3 msg) (length h.transcript == 0) _ _ (λ e. failed)
        (λ e. conclude-Completes (λ q. h) info_hs3 msg h chain (λ out r f. completed out r f))
    where
      failed : Completes (λ q. h) info_hs3 msg (h, err handshake)
      failed out r f = absurd (ground (arith, f))

      chain : Result Error (Option Bytes × HandshakeResult)
      chain = do
        parts ← parse_auth msg
        peer ← check_peer p parts.1 info_hs3 h
        result ← result_of p peer h
        ok (none, result)

      completed :
          (out : Option Bytes) (r : HandshakeResult)
          → chain ≡ ok (out, r)
          → Authentic (λ q. h) info_hs3 msg h r
      completed out r f = elim (Result-cases (parse_auth msg)) [
        | inr (x, g) ↦ absurd (ground (arith, f, g))
        | inl (parts, g) ↦ elim (Result-cases (check_peer p parts.1 info_hs3 h)) [
          | inr (x, c) ↦ absurd (ground (arith, f, g, c))
          | inl (peer, c) ↦
              from_result (λ q. h) info_hs3 msg parts peer r g c
                (elim (Result-cases (result_of p peer h)) [
                  | inr (x, d) ↦ absurd (ground (arith, f, g, c, d))
                  | inl (r', d) ↦ ground (arith, f, g, c, d)
                ])
        ]
      ]

  initiator-Completes :
      (drawn : Option Bytes) (msg : Bytes) (h : Handshaker)
      → Completes
          (λ q. (agree p q.0 (transcript_hash p h.eph_pub q.0) h).0)
          info_hs2
          msg
          (handle_auth_initiator p drawn msg h)
  unfolding handle_auth_initiator
  initiator-Completes drawn msg h = elim (Result-cases (parse_auth msg)) [
    | inr (x, g) ↦ subst (Completes joined info_hs2 msg) (sym (refused x g)) (failed x)
    | inl (parts, g) ↦
        subst (Completes joined info_hs2 msg) (sym (agreed parts g)) (concluded parts g)
  ]
    where
      joined : Bytes × Bytes → Handshaker
      joined q = (agree p q.0 (transcript_hash p h.eph_pub q.0) h).0

      failed : (x : Error) → Completes joined info_hs2 msg (h, err x)
      failed x out r f = absurd (ground (arith, f))

      refused :
          (x : Error) → parse_auth msg ≡ err x → handle_auth_initiator p drawn msg h ≡ (h, err x)
      refused x g = rw (handle_auth_initiator, g) refl

      after : Bytes × Bytes → Handshaker × Result Error (Unit {0})
      after parts = agree p parts.0 (transcript_hash p h.eph_pub parts.0) h

      rest :
          Bytes × Bytes
          → Handshaker
          → Result Error (Unit {0})
          → Result Error (Option Bytes × HandshakeResult)
      rest parts h' m = do
        m
        peer ← check_peer p parts.1 info_hs2 h'
        blob ← seal_auth p drawn info_hs3 h'
        result ← result_of p peer h'
        ok (some (marshal_auth h'.eph_pub blob), result)

      agreed :
          (parts : Bytes × Bytes)
          → parse_auth msg ≡ ok parts
          → handle_auth_initiator p drawn msg h
            ≡ conclude (after parts).0 (rest parts (after parts).0 (after parts).1)
      agreed parts g = rw (handle_auth_initiator, g) refl

      chained :
          (parts : Bytes × Bytes) (m : Result Error (Unit {0}))
          → parse_auth msg ≡ ok parts
          → (out : Option Bytes) (r : HandshakeResult) → rest parts (joined parts) m ≡ ok (out, r)
          → Authentic joined info_hs2 msg (joined parts) r
      chained parts (err x) g out r f = absurd (ground (arith, f))
      chained parts (ok u) g out r f =
          elim (Result-cases (check_peer p parts.1 info_hs2 (joined parts))) [
            | inr (x, c) ↦ absurd (ground (arith, f, c))
            | inl (peer, c) ↦
                from_result joined info_hs2 msg parts peer r g c
                  (elim (Result-cases (seal_auth p drawn info_hs3 (joined parts))) [
                    | inr (x, b) ↦ absurd (ground (arith, f, c, b))
                    | inl (blob, b) ↦ elim (Result-cases (result_of p peer (joined parts))) [
                      | inr (x, d) ↦ absurd (ground (arith, f, c, b, d))
                      | inl (r', d) ↦ ground (arith, f, c, b, d)
                    ]
                  ])
          ]

      concluded :
          (parts : Bytes × Bytes)
          → parse_auth msg ≡ ok parts
          → Completes joined info_hs2 msg
              (conclude (after parts).0 (rest parts (after parts).0 (after parts).1))
      concluded parts g =
          conclude-Completes joined info_hs2 msg (after parts).0
            (rest parts (after parts).0 (after parts).1)
            (λ out r f. chained parts (after parts).1 g out r f)

  init-Completes :
      (before : Bytes × Bytes → Handshaker) (info : Bytes) (drawn : Option Bytes) (msg : Bytes)
      (h : Handshaker)
      → Completes before info msg (handle_init p drawn msg h)
  unfolding handle_init
  init-Completes before info drawn msg h out r f = absurd (ground (arith, f))

  -- When `HandleMessage` ends a handshake with a result, on either side and for any message: the message has an auth part that opens, under the handshaker's shared secret and for the peer's role, to the peer key and the name of the result and to a signature; this signature verifies under that key over the handshaker's transcript, which is that of the result; the key is not the handshaker's own; and the handshaker is finished, so that it refuses every later message.
  pub handle_message-Completes :
      (drawn : Option Bytes) (msg : Bytes) (h : Handshaker) (out : Option Bytes)
      (r : HandshakeResult)
      → (handle_message p drawn msg h).1 ≡ ok (out, some r)
      → Authentic
          (opener h)
          (if h.initiator then info_hs2 else info_hs3)
          msg
          (handle_message p drawn msg h).0
          r
        × ((drawn' : Option Bytes) (msg' : Bytes)
            → handle_message p drawn' msg' (handle_message p drawn msg h).0
              ≡ ((handle_message p drawn msg h).0, err handshake))
  unfolding handle_message
  handle_message-Completes drawn msg h out r e =
      let (a, d) = completes out r e in
      (a, λ drawn' msg'. finished drawn' msg' (handle_message p drawn msg h).0 d)
    where
      info : Bytes
      info = if h.initiator then info_hs2 else info_hs3

      Ends : Handshaker × Result Error Answer → Type 0
      Ends = Completes (opener h) info msg

      failed : Ends (h, err handshake)
      failed out r f = absurd (ground (arith, f))

      auth :
          (b : Bool)
          → Completes
              (λ q. if b then (agree p q.0 (transcript_hash p h.eph_pub q.0) h).0 else h)
              (if b then info_hs2 else info_hs3)
              msg
              (if b then handle_auth_initiator p drawn msg h else handle_auth_responder p msg h)
      auth true = initiator-Completes drawn msg h
      auth false = responder-Completes msg h

      completes : Ends (handle_message p drawn msg h)
      completes =
          if_elim Ends h.done _ _ (λ e. failed)
            (λ e.
              if_elim Ends ((length msg == 0) || ltb max_hs_size (length msg)) _ _ (λ e'. failed)
                (λ e'.
                  if_elim Ends
                    (not h.initiator
                      && ((get_or msg 0 0 == hs_type_init) && (length h.transcript == 0)))
                    _ _ (λ d. init-Completes (opener h) info drawn msg h)
                    (λ d.
                      if_elim Ends (get_or msg 0 0 == hs_type_auth) _ _ (λ t. auth h.initiator)
                        (λ t. failed))))

      finished :
          (drawn' : Option Bytes) (msg' : Bytes) (h' : Handshaker)
          → h'.done ≡ true
          → handle_message p drawn' msg' h' ≡ (h', err handshake)
      finished drawn' msg' h' d = rw (handle_message, d) refl
