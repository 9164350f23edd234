-- ===== src/Proto/Session/Sealing.antt =====
-- internal/proto/session.go: the frame that `Seal` produces, its key and the session after it.
use xessenger_cli.Prelude.{ℕ, ◌+◌, ◌%◌, ◌^◌, ◌≤◌, ◌<◌, ◌++◌, Bool, true, false, ◌&&◌, ltb, ◌==◌}
use xessenger_cli.Prelude.{
  length, some, ok, if◌then◌else◌, arith, ◌≡◌, refl, ap, sym, ◌∙◌, length-append,
}
use xessenger_cli.Crypto.{Bytes, Primitives, Laws, key_size, nonce_size, tag_size}
use xessenger_cli.Crypto.Aead.{open'-seal, seal_succeeds}
use xessenger_cli.Proto.Frame.{Frame, marshal_header_only, marshal_frame, max_plaintext}
use xessenger_cli.Proto.Frame.RoundTrip.{marshal_header_only_blob}
use xessenger_cli.Proto.Session.{
  Session, header_of, rotate_if_due, rotation_interval, seal_frame, seal, message_key,
  decrypt_frame, assign_epoch, epoch_keys,
}
use xessenger_cli.Proto.Session.Epochs.{
  IsKeyed, SameBut, out_key, out_key-size, message_key_total, epoch_keys_total, install_epoch_lem,
  assign_epoch-IsKeyed,
}

-- A message takes the session to the next epoch if its number is a multiple of the interval.
abbrev pub is_due : ℕ → Bool
is_due seq = ltb 0 seq && (seq % rotation_interval == 0)

abbrev pub epoch_after : Session → ℕ
epoch_after s = if is_due s.send_seq then s.epoch + 1 else s.epoch

module _ {p : Primitives} (l : Laws p) (s : Session) where
  pub record Rotated : Type 0 where
    pub after : Session
    pub run : rotate_if_due p s ≡ (after, ok tt)
    pub keyed : IsKeyed p after
    pub epoch_is : after.epoch ≡ epoch_after s
    pub kept : SameBut s after

  rotate_if_due_lem :
      IsKeyed p s → s.epoch + 1 < 2 ^ 32 → (b : Bool) → is_due s.send_seq ≡ b → Rotated
  unfolding rotate_if_due assign_epoch
  rotate_if_due_lem k small true due =
      let (ks, h, _, _) = epoch_keys_total l s.root (s.epoch + 1) k.rooted in
      record {
        after = assign_epoch p (s.epoch + 1) ks s;
        run = ground (arith, install_epoch_lem p s (s.epoch + 1) ks h);
        keyed = assign_epoch-IsKeyed p s ks k h;
        epoch_is = rw due refl;
        kept = record {
          same_id = refl;
          same_root = refl;
          same_role = refl;
          same_window = refl;
          same_closed = refl;
          same_seq = refl;
        };
      }
  rotate_if_due_lem k small false not_due = record {
    after = s;
    run = ground arith;
    keyed = k;
    epoch_is = rw not_due refl;
    kept = record {
      same_id = refl;
      same_root = refl;
      same_role = refl;
      same_window = refl;
      same_closed = refl;
      same_seq = refl;
    };
  }

-- The frame that a session in place seals under a message key and a nonce.
abbrev pub sealed_frame : Primitives → Session → Bytes → Bytes → ℕ → Bytes → Frame
sealed_frame p s key n typ pt = record (header_of s typ) {
  blob = n ++ p.gcm_seal key n pt (marshal_header_only (header_of s typ));
}

module _ {p : Primitives} (l : Laws p) (n : Bytes) (typ : ℕ) (pt : Bytes) where
  seal_frame_lem :
      (s : Session) (chain key : Bytes)
      → s.send ≡ some chain
      → message_key p chain s.send_seq ≡ ok key
      → length key ≡ key_size
      → s.send_seq + 1 < 2 ^ 64
      → seal_frame p (some n) typ pt s ≡ (
        record s { send_seq = s.send_seq + 1 },
        ok (marshal_frame (sealed_frame p s key n typ pt)),
      )
  unfolding seal_frame
  seal_frame_lem s chain key hs hk len small =
      ground (arith, hs, hk, seal_succeeds l n key (marshal_header_only (header_of s typ)) pt len)

  decrypt_sealed_frame :
      (s : Session) (chain key : Bytes)
      → message_key p chain s.send_seq ≡ ok key
      → length key ≡ key_size
      → length n ≡ nonce_size
      → decrypt_frame p chain (sealed_frame p s key n typ pt) ≡ ok pt
  unfolding decrypt_frame
  decrypt_sealed_frame s chain key hk len hn = ground (
    arith,
    hk,
    marshal_header_only_blob (header_of s typ) (sealed_frame p s key n typ pt).blob,
    open'-seal l n key (marshal_header_only (header_of s typ)) pt len hn,
  )

  -- A whole successful call of `Seal`: the frame on the wire and the session after it.
  pub record Sealed (s : Session) : Type 0 where
    pub after : Session
    pub frame : Frame
    pub run : seal p (some n) typ pt s ≡ (after, ok (marshal_frame frame))
    pub typ_is : frame.typ ≡ typ
    pub session_is : frame.session ≡ s.session_id
    pub sequence_is : frame.sequence ≡ s.send_seq
    pub rotation_is : frame.rotation ≡ epoch_after s
    pub blob_size : length frame.blob ≡ nonce_size + (length pt + tag_size)
    pub keys : Bytes × Bytes
    pub derived : epoch_keys p s.root frame.rotation ≡ ok keys
    pub opens : decrypt_frame p (out_key s.initiator keys) frame ≡ ok pt
    pub keyed : IsKeyed p after
    pub epoch_is : after.epoch ≡ epoch_after s
    pub seq_is : after.send_seq ≡ s.send_seq + 1
    pub id_kept : after.session_id ≡ s.session_id
    pub root_kept : after.root ≡ s.root
    pub role_kept : after.initiator ≡ s.initiator
    pub window_kept : after.recv_win ≡ s.recv_win
    pub still_open : after.closed ≡ false

  Sealed-in_place :
      (s t : Session)
      → s.closed ≡ false
      → length pt ≤ max_plaintext
      → length n ≡ nonce_size
      → s.send_seq + 1 < 2 ^ 64
      → rotate_if_due p s ≡ (t, ok tt)
      → IsKeyed p t
      → t.epoch ≡ epoch_after s
      → SameBut s t
      → Sealed s
  unfolding seal
  Sealed-in_place s t up fits hn small r k ep same =
      let (key, hk, len) =
        message_key_total l (out_key t.initiator k.keys) t.send_seq
          (omega (arith, out_key-size l t t.initiator k)) in
      let step =
        seal_frame_lem t (out_key t.initiator k.keys) key k.send_is hk len
          (omega (arith, same.same_seq)) in
      record {
        after = record t { send_seq = t.send_seq + 1 };
        frame = sealed_frame p t key n typ pt;
        run = ground (arith, up, r, step);
        typ_is = refl;
        session_is = same.same_id;
        sequence_is = same.same_seq;
        rotation_is = ep;
        blob_size = omega (
          arith,
          length-append n (p.gcm_seal key n pt (marshal_header_only (header_of t typ))),
          l.length_seal key n pt (marshal_header_only (header_of t typ)),
        );
        keys = k.keys;
        derived = ap (λ root. epoch_keys p root t.epoch) (sym same.same_root) ∙ k.derived;
        opens =
            ap (λ i. decrypt_frame p (out_key i k.keys) (sealed_frame p t key n typ pt))
              (sym same.same_role)
            ∙ decrypt_sealed_frame t (out_key t.initiator k.keys) key hk len hn;
        keyed = record {
          keys = k.keys;
          derived = k.derived;
          send_is = k.send_is;
          recv_is = k.recv_is;
          old = k.old;
          rooted = k.rooted;
        };
        epoch_is = ep;
        seq_is = omega (arith, same.same_seq);
        id_kept = same.same_id;
        root_kept = same.same_root;
        role_kept = same.same_role;
        window_kept = same.same_window;
        still_open = same.same_closed ∙ up;
      }

  -- An open session in step seals every payload that fits, given a nonce.
  pub seal_lem :
      (s : Session)
      → IsKeyed p s
      → s.closed ≡ false
      → length pt ≤ max_plaintext
      → length n ≡ nonce_size
      → s.send_seq + 1 < 2 ^ 64
      → s.epoch + 1 < 2 ^ 32
      → Sealed s
  seal_lem s k up fits hn small room =
      let r = rotate_if_due_lem l s k room (is_due s.send_seq) refl in
      Sealed-in_place s r.after up fits hn small r.run r.keyed r.epoch_is r.kept
