-- ===== src/Proto/Session/Delivery.antt =====
-- internal/proto/session.go: one message from the sealing to the opening side.
use Prim.Native.Nat.{max}
use xessenger_cli.Prelude.{ℕ, ◌+◌, ◌^◌, ◌≤◌, ◌<◌, Bool, true, false, not}
use xessenger_cli.Prelude.{length, some, ok, arith, ◌≡◌, refl, ap, sym, ◌∙◌, if_elim, ==_refl}
use xessenger_cli.Crypto.{Bytes, Primitives, Laws, nonce_size}
use xessenger_cli.Proto.Frame.{Frame, marshal_frame, parse_frame, known_type, max_plaintext}
use xessenger_cli.Proto.Frame.RoundTrip.{parse_frame-marshal_frame}
use xessenger_cli.Proto.Replay.{check}
use xessenger_cli.Proto.Session.{
  Session, seal, open', chain_for_epoch, decrypt_frame, admit, epoch_keys,
}
use xessenger_cli.Proto.Session.Epochs.{
  IsKeyed, IsNear, Chosen, chain_for_epoch_lem, out_key, in_key,
}
use xessenger_cli.Proto.Session.Sealing.{Sealed, seal_lem, epoch_after, is_due}

-- Two ends of one session, seen from the sender `a` and the receiver `b`.
pub record Linked (p : Primitives) (a b : Session) : Type 0 where
  pub one_id : b.session_id ≡ a.session_id
  pub id_u64 : a.session_id < 2 ^ 64
  pub one_root : b.root ≡ a.root
  pub opposite : b.initiator ≡ not a.initiator
  pub a_open : a.closed ≡ false
  pub b_open : b.closed ≡ false
  pub a_keyed : IsKeyed p a
  pub b_keyed : IsKeyed p b

-- A payload, with the nonce that the CSPRNG will draw for it.
pub record Payload : Type 0 where
  pub nonce : Bytes
  pub typ : ℕ
  pub text : Bytes

pub record IsPayload (m : Payload) : Type 0 where
  pub nonce_12 : length m.nonce ≡ nonce_size
  pub known : known_type m.typ ≡ true
  pub fits : length m.text ≤ max_plaintext

module _ (p : Primitives) where
  -- `Open` on a frame that parses, of this session, with a chain for its epoch, authentic and fresh.
  open'_run :
      (b t : Session) (buf : Bytes) (f : Frame) (chain pt : Bytes)
      → b.closed ≡ false
      → parse_frame buf ≡ ok f
      → f.session ≡ b.session_id
      → chain_for_epoch p f.rotation b ≡ (t, ok chain)
      → decrypt_frame p chain f ≡ ok pt
      → (check t.recv_win f.sequence).1 ≡ true
      → open' p buf b ≡ (record t { recv_win = (check t.recv_win f.sequence).0 }, ok (f.typ, pt))
  unfolding open' admit
  open'_run b t buf f chain pt up e id c d fr =
      ground (arith, up, e, id, c, d, fr, ==_refl b.session_id)

role_swap : (i : Bool) (ks : Bytes × Bytes) → in_key (not i) ks ≡ out_key i ks
role_swap true ks = refl
role_swap false ks = refl

module _ {p : Primitives} (l : Laws p) where
  pub record Delivered (a b : Session) (m : Payload) : Type 0 where
    pub sender : Session
    pub receiver : Session
    pub buf : Bytes
    pub sealed : seal p (some m.nonce) m.typ m.text a ≡ (sender, ok buf)
    pub opened : open' p buf b ≡ (receiver, ok (m.typ, m.text))
    pub linked : Linked p sender receiver
    pub seq_is : sender.send_seq ≡ a.send_seq + 1
    pub window_is : receiver.recv_win ≡ (check b.recv_win a.send_seq).0
    pub sender_epoch : sender.epoch ≡ epoch_after a
    pub receiver_epoch : receiver.epoch ≡ max (epoch_after a) b.epoch

  deliver-Sealed :
      (a b : Session) (m : Payload) (v : Linked p a b) (w : IsPayload m)
      → a.send_seq + 1 < 2 ^ 64
      → epoch_after a < 2 ^ 32
      → (check b.recv_win a.send_seq).1 ≡ true
      → (s : Sealed l m.nonce m.typ m.text a)
      → Chosen p b s.frame.rotation (in_key b.initiator s.keys)
      → Delivered a b m
  deliver-Sealed a b m v w small room fr s c = record {
    sender = s.after;
    receiver = record c.after { recv_win = (check c.after.recv_win s.frame.sequence).0 };
    buf = marshal_frame s.frame;
    sealed = s.run;
    opened =
        open'_run p b c.after (marshal_frame s.frame) s.frame (in_key b.initiator s.keys) m.text
          v.b_open parses (s.session_is ∙ sym v.one_id) c.run opens fresh'
        ∙ ap
            (λ t. (
              record c.after { recv_win = (check c.after.recv_win s.frame.sequence).0 },
              ok (t, m.text),
            ))
            s.typ_is;
    linked = record {
      one_id = c.kept.same_id ∙ v.one_id ∙ sym s.id_kept;
      id_u64 = rw s.id_kept v.id_u64;
      one_root = c.kept.same_root ∙ v.one_root ∙ sym s.root_kept;
      opposite = c.kept.same_role ∙ v.opposite ∙ ap not (sym s.role_kept);
      a_open = s.still_open;
      b_open = c.kept.same_closed ∙ v.b_open;
      a_keyed = s.keyed;
      b_keyed = record {
        keys = c.keyed.keys;
        derived = c.keyed.derived;
        send_is = c.keyed.send_is;
        recv_is = c.keyed.recv_is;
        old = c.keyed.old;
        rooted = c.keyed.rooted;
      };
    };
    seq_is = s.seq_is;
    window_is = cc (c.kept.same_window, s.sequence_is);
    sender_epoch = s.epoch_is;
    receiver_epoch = c.epoch_is ∙ ap (λ e. max e b.epoch) s.rotation_is;
  }
    where
      parses : parse_frame (marshal_frame s.frame) ≡ ok s.frame
      parses = parse_frame-marshal_frame s.frame (record {
        known = rw s.typ_is w.known;
        session_u64 = rw s.session_is v.id_u64;
        sequence_u64 = omega (arith, s.sequence_is);
        rotation_u32 = omega (arith, s.rotation_is);
        fits = omega (arith, s.blob_size, w.fits);
      })

      opens : decrypt_frame p (in_key b.initiator s.keys) s.frame ≡ ok m.text
      opens =
          ap (λ i. decrypt_frame p (in_key i s.keys) s.frame) v.opposite
          ∙ ap (λ k. decrypt_frame p k s.frame) (role_swap a.initiator s.keys)
          ∙ s.opens

      fresh' : (check c.after.recv_win s.frame.sequence).1 ≡ true
      fresh' = cc (fr, c.kept.same_window, s.sequence_is)

  -- One message between two linked ends: with room in the counters, a frame epoch at most one away from the receiver's, and a sequence number that the receiver's window still accepts, sealing succeeds, opening returns the type and payload, and the ends stay linked.
  pub seal-open'_delivers :
      (a b : Session) (m : Payload)
      → Linked p a b
      → IsPayload m
      → a.send_seq + 1 < 2 ^ 64
      → a.epoch + 1 < 2 ^ 32
      → b.epoch + 1 < 2 ^ 32
      → IsNear (epoch_after a) b.epoch
      → (check b.recv_win a.send_seq).1 ≡ true
      → Delivered a b m
  seal-open'_delivers a b m v w small ra rb near fr =
      let s = seal_lem l m.nonce m.typ m.text a v.a_keyed v.a_open w.fits w.nonce_12 small ra in
      let derived : epoch_keys p b.root s.frame.rotation ≡ ok s.keys =
        ap (λ r. epoch_keys p r s.frame.rotation) v.one_root ∙ s.derived in
      deliver-Sealed a b m v w small
        (if_elim (λ e. e < 2 ^ 32) (is_due a.send_seq) (a.epoch + 1) a.epoch (λ _. ra)
          (λ _. omega arith))
        fr s
        (chain_for_epoch_lem p b s.frame.rotation s.keys v.b_keyed rb (rw s.rotation_is near)
          derived)
