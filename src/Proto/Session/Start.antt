-- ===== src/Proto/Session/Start.antt =====
-- internal/proto/session.go: the two sessions that a handshake ends with.
use xessenger_cli.Prelude.{ℕ, ◌^◌, ◌<◌, List, [], Bool, not}
use xessenger_cli.Prelude.{length, ok, arith, ◌≡◌, refl, inl, All, map}
use xessenger_cli.Prelude.Bytes.{uint, uint-lt}
use xessenger_cli.Crypto.{Bytes, Primitives, Laws, key_size}
use xessenger_cli.Crypto.Aead.{derive_key_total}
use xessenger_cli.Proto.Replay.History.{new_window-Tracks}
use xessenger_cli.Proto.Session.{
  Session, new_session, blank_session, assign_epoch, epoch_keys, info_root, info_session,
}
use xessenger_cli.Proto.Session.Epochs.{IsKeyed, install_epoch_lem, epoch_keys_total}
use xessenger_cli.Proto.Session.Delivery.{Payload, IsPayload}
use xessenger_cli.Proto.Session.Stream.{received, InOrder, InOrder-received}

module _ {p : Primitives} (l : Laws p) where
  -- The session that a role gets from the root, the session id and the keys of epoch 0.
  first_session : ℕ → Bytes → Bytes × Bytes → Bool → Session
  first_session sid root ks i = assign_epoch p 0 ks (blank_session sid i root)

  first-IsKeyed :
      (sid : ℕ) (root : Bytes) (ks : Bytes × Bytes) (i : Bool)
      → 0 < length root
      → epoch_keys p root 0 ≡ ok ks
      → IsKeyed p (first_session sid root ks i)
  unfolding first_session assign_epoch
  first-IsKeyed sid root ks i r h = record {
    keys = ks;
    derived = h;
    send_is = refl;
    recv_is = refl;
    old = inl (refl, refl);
    rooted = r;
  }

  first-InOrder :
      (sid : ℕ) (root : Bytes) (ks : Bytes × Bytes) (i : Bool)
      → sid < 2 ^ 64
      → 0 < length root
      → epoch_keys p root 0 ≡ ok ks
      → InOrder l (first_session sid root ks i) (first_session sid root ks (not i))
  unfolding first_session assign_epoch
  first-InOrder sid root ks i small r h = record {
    linked = record {
      one_id = refl;
      id_u64 = small;
      one_root = refl;
      opposite = refl;
      a_open = refl;
      b_open = refl;
      a_keyed = first-IsKeyed sid root ks i r h;
      b_keyed = first-IsKeyed sid root ks (not i) r h;
    };
    one_epoch = refl;
    hist = [];
    tracks = new_window-Tracks;
    below = tt;
  }

  -- Both sides of a handshake build sessions that differ in the role alone.
  pub record Established (shared transcript : Bytes) : Type 0 where
    pub session : Bool → Session
    pub run : (i : Bool) → new_session p shared transcript i ≡ ok (session i)
    pub in_order : (i : Bool) → InOrder l (session i) (session (not i))
    pub from_zero : (i : Bool) → ((session i).send_seq ≡ 0) × ((session i).epoch ≡ 0)

  pub new_session_lem :
      (shared transcript : Bytes) → 0 < length shared → Established shared transcript
  unfolding new_session first_session assign_epoch
  new_session_lem shared transcript h =
      let (root, er, lr, _) =
        derive_key_total l shared transcript info_root key_size h (omega arith) in
      let (sid, es, ls, bs) =
        derive_key_total l root [] info_session 8 (omega (arith, lr)) (omega arith) in
      let (ks, ek, _, _) = epoch_keys_total l root 0 (omega (arith, lr)) in
      record {
        session = first_session (uint sid) root ks;
        run = λ i. rw (er, es, install_epoch_lem p (blank_session (uint sid) i root) 0 ks ek) refl;
        in_order = λ i.
            first-InOrder (uint sid) root ks i (rw ls at (uint-lt sid bs)) (omega (arith, lr)) ek;
        from_zero = λ i. (refl, refl);
      }

  -- The sessions that both sides of a handshake build from one shared secret and transcript exist, and whatever valid payloads one side seals, in either role and fewer than 2^32 of them, the other opens in order to exactly those types and payloads, through every key rotation on the way.
  pub new_session-received :
      (shared transcript : Bytes) (i : Bool) (ms : List Payload)
      → 0 < length shared
      → All IsPayload ms
      → length ms < 2 ^ 32
      → (a : Session) × (b : Session) × (new_session p shared transcript i ≡ ok a)
        × (new_session p shared transcript (not i) ≡ ok b)
        × (received p a b ms ≡ map (λ m. ok (m.typ, m.text)) ms)
  new_session-received shared transcript i ms h w few =
      let e = new_session_lem shared transcript h in
      (
        e.session i,
        e.session (not i),
        e.run i,
        e.run (not i),
        InOrder-received l ms (e.session i) (e.session (not i)) (e.in_order i) w
            (omega (arith, e.from_zero i)) (omega (arith, e.from_zero i)),
      )
