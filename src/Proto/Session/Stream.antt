-- ===== src/Proto/Session/Stream.antt =====
-- internal/proto/session.go: a stream of messages in one direction, in the order of sending.
use xessenger_cli.Prelude.{ℕ, ◌+◌, ◌^◌, ◌≤◌, ◌<◌, List, [], ◌∷◌, true, false}
use xessenger_cli.Prelude.{
  length, some, Result, ok, err, arith, ◌≡◌, refl, ap, ◌∙◌, if_elim, inl, inr, All, map,
}
use mathlib.Core.Path.{ap₂}
use xessenger_cli.Crypto.{Bytes, Primitives, Laws}
use xessenger_cli.Proto.Frame.{Error}
use xessenger_cli.Proto.Replay.{check}
use xessenger_cli.Proto.Replay.History.{Tracks, check_lem, maximum, contains, fresh, remember}
use xessenger_cli.Proto.Session.{Session, seal, open'}
use xessenger_cli.Proto.Session.Epochs.{IsNear}
use xessenger_cli.Proto.Session.Sealing.{epoch_after, is_due}
use xessenger_cli.Proto.Session.Delivery.{
  Linked, Payload, IsPayload, Delivered, seal-open'_delivers,
}

module _ (p : Primitives) where
  -- One message sealed by `a` and, if that worked, opened by `b`.
  pub transfer : Session → Session → Payload → Session × Session × Result Error (ℕ × Bytes)
  transfer a b m =
      let (a', sealed) = seal p (some m.nonce) m.typ m.text a in
      elim sealed [
        | ok buf ↦ let (b', opened) = open' p buf b in (a', b', opened)
        | err e ↦ (a', b, err e)
      ]

  -- What the receiver gets for a list of messages.
  pub received : Session → Session → List Payload → List (Result Error (ℕ × Bytes))
  received a b [] = []
  received a b (m ∷ ms) = let r = transfer a b m in r.2 ∷ received r.0 r.1 ms

abbrev pub Below : ℕ → List ℕ → Type 0
Below n hist = All (λ x. x < n) hist

Below-fresh :
    (n : ℕ) (hist : List ℕ) → Below n hist → (maximum hist ≤ n) × (contains n hist ≡ false)
Below-fresh n [] h = ground arith
Below-fresh n (x ∷ xs) h = ground (arith, Below-fresh n xs h.1)

Below-suc : (n : ℕ) (hist : List ℕ) → Below n hist → Below (n + 1) hist
Below-suc n [] h = tt
Below-suc n (x ∷ xs) h = (omega arith, Below-suc n xs h.1)

module _ {p : Primitives} (l : Laws p) where
  -- The receiver has everything so far: same epoch, and only smaller numbers in its window.
  pub record InOrder (a b : Session) : Type 0 where
    pub linked : Linked p a b
    pub one_epoch : a.epoch ≡ b.epoch
    pub hist : List ℕ
    pub tracks : Tracks b.recv_win hist
    pub below : Below a.send_seq hist

  transfer_lem :
      (a b : Session) (m : Payload) (d : Delivered l a b m)
      → transfer p a b m ≡ (d.sender, d.receiver, ok (m.typ, m.text))
  unfolding transfer
  transfer_lem a b m d = ground (arith, d.sealed, d.opened)

  step_epoch : (a b : Session) → a.epoch ≡ b.epoch → IsNear (epoch_after a) b.epoch
  step_epoch a b e =
      if_elim (λ x. IsNear x b.epoch) (is_due a.send_seq) (a.epoch + 1) a.epoch
        (λ _. inr (inl (omega arith))) (λ _. inl e)

  step_grows : (a : Session) → (a.epoch ≤ epoch_after a) × (epoch_after a ≤ a.epoch + 1)
  step_grows a =
      if_elim (λ x. (a.epoch ≤ x) × (x ≤ a.epoch + 1)) (is_due a.send_seq) (a.epoch + 1) a.epoch
        (λ _. omega arith) (λ _. omega arith)

  after-InOrder :
      (a b : Session) (m : Payload) (o : InOrder a b) (d : Delivered l a b m)
      → a.send_seq < 2 ^ 64
      → InOrder d.sender d.receiver
  after-InOrder a b m o d small = record {
    linked = d.linked;
    one_epoch = omega (arith, d.sender_epoch, d.receiver_epoch, step_grows a, o.one_epoch);
    hist = remember o.hist a.send_seq;
    tracks = rw d.window_is (check_lem b.recv_win o.hist a.send_seq o.tracks small).1;
    below =
        if_elim (Below d.sender.send_seq) (fresh o.hist a.send_seq) (a.send_seq ∷ o.hist) o.hist
          (λ _. (omega (arith, d.seq_is), later)) (λ _. later);
  }
    where
      later : Below d.sender.send_seq o.hist
      later = rw d.seq_is (Below-suc a.send_seq o.hist o.below)

  pub InOrder-received :
      (ms : List Payload) (a b : Session)
      → InOrder a b
      → All IsPayload ms
      → a.send_seq + length ms < 2 ^ 64
      → a.epoch + length ms < 2 ^ 32
      → received p a b ms ≡ map (λ m. ok (m.typ, m.text)) ms
  unfolding received
  InOrder-received [] a b o w small room = refl
  InOrder-received (m ∷ ms) a b o w small room =
      ap₂ (λ x xs. x ∷ xs) (ap (λ r. r.2) run)
        (ap (λ r. received p r.0 r.1 ms) run
          ∙ InOrder-received ms d.sender d.receiver (after-InOrder a b m o d (omega arith)) w.1
              (omega (arith, d.seq_is)) (omega (arith, d.sender_epoch, step_grows a)))
    where
      accepted : (check b.recv_win a.send_seq).1 ≡ true
      accepted =
          (check_lem b.recv_win o.hist a.send_seq o.tracks (omega arith)).0
          ∙ ground (arith, Below-fresh a.send_seq o.hist o.below)

      d : Delivered l a b m
      d =
          seal-open'_delivers l a b m o.linked w.0 (omega arith) (omega arith)
            (omega (arith, o.one_epoch)) (step_epoch a b o.one_epoch) accepted

      run : transfer p a b m ≡ (d.sender, d.receiver, ok (m.typ, m.text))
      run = transfer_lem a b m d
