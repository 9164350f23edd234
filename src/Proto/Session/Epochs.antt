-- ===== src/Proto/Session/Epochs.antt =====
-- internal/proto/session.go: the chains of a session and the epoch that they belong to.
use xessenger_cli.Prelude.{ℕ, suc, ◌+◌, ◌^◌, ◌<◌, [], ◌∷◌, ◌++◌, Bool, true, false}
use xessenger_cli.Prelude.{
  length, none, some, ok, if◌then◌else◌, arith, ◌≡◌, refl, ap, sym, ◌∙◌, ◌⊎◌, inl, inr,
}
use Prim.Native.Nat.{max}
use xessenger_cli.Crypto.{Bytes, Primitives, Laws, key_size}
use xessenger_cli.Crypto.Aead.{derive_key_total}
use xessenger_cli.Proto.Session.{
  Session, epoch_keys, epoch_seed, assign_epoch, install_epoch, chain_for_epoch, info_send_ab,
  info_send_ba, info_rotate, info_msg, itoa, message_key,
}
use xessenger_cli.Prelude.Bytes.{put_uint}

-- The keys of the two directions from one peer's side.
abbrev pub out_key : Bool → Bytes × Bytes → Bytes
out_key initiator keys = if initiator then keys.0 else keys.1

abbrev pub in_key : Bool → Bytes × Bytes → Bytes
in_key initiator keys = if initiator then keys.1 else keys.0

module _ (p : Primitives) where
  -- The previous receive chain is that of the epoch before, and absent in epoch 0.
  abbrev pub HasOld : Session → Type 0
  HasOld s =
      ((s.epoch ≡ 0) × (s.recv_old ≡ none))
      ⊎ ((e : ℕ) × (ks : Bytes × Bytes) × (s.epoch ≡ suc e)
          × (epoch_keys p s.root e ≡ ok ks)
          × (s.recv_old ≡ some (in_key s.initiator ks)))

  pub record IsKeyed (s : Session) : Type 0 where
    pub keys : Bytes × Bytes
    pub derived : epoch_keys p s.root s.epoch ≡ ok keys
    pub send_is : s.send ≡ some (out_key s.initiator keys)
    pub recv_is : s.recv ≡ some (in_key s.initiator keys)
    pub old : HasOld s
    pub rooted : 0 < length s.root

  pub install_epoch_lem :
      (s : Session) (e : ℕ) (ks : Bytes × Bytes)
      → epoch_keys p s.root e ≡ ok ks
      → install_epoch p e s ≡ (assign_epoch p e ks s, ok tt)
  unfolding install_epoch
  install_epoch_lem s e ks h = rw (h, install_epoch)

  -- Installing the next epoch keeps the chains in step with the epoch.
  pub assign_epoch-IsKeyed :
      (s : Session) (ks : Bytes × Bytes)
      → IsKeyed s
      → epoch_keys p s.root (s.epoch + 1) ≡ ok ks
      → IsKeyed (assign_epoch p (s.epoch + 1) ks s)
  unfolding assign_epoch
  assign_epoch-IsKeyed s ks k h = record {
    keys = ks;
    derived = h;
    send_is = refl;
    recv_is = refl;
    old = inr (s.epoch, k.keys, omega arith, k.derived, ground (arith, k.recv_is));
    rooted = k.rooted;
  }

-- With HKDF as documented, every epoch of a session with a root has its two 32-byte keys.
module _ {p : Primitives} (l : Laws p) where
  pub epoch_keys_total :
      (root : Bytes) (e : ℕ)
      → 0 < length root
      → (ks : Bytes × Bytes) × (epoch_keys p root e ≡ ok ks)
        × (length ks.0 ≡ key_size)
        × (length ks.1 ≡ key_size)
  unfolding epoch_keys
  epoch_keys_total root e h =
      let (seed, es, ls, _) =
        derive_key_total l root [] (info_rotate ++ (b' ' ∷ itoa e)) key_size h (omega arith) in
      let (ab, ea, la, _) =
        derive_key_total l seed [] info_send_ab key_size (omega (arith, ls)) (omega arith) in
      let (ba, eb, lb, _) =
        derive_key_total l seed [] info_send_ba key_size (omega (arith, ls)) (omega arith) in
      let s : epoch_seed p root e ≡ ok seed = unfold epoch_seed in rw es in
      ((ab, ba), rw (s, ea, eb), la, lb)

  -- The key of a message exists and fits AES-256.
  pub message_key_total :
      (chain : Bytes) (seq : ℕ)
      → 0 < length chain
      → (k : Bytes) × (message_key p chain seq ≡ ok k) × (length k ≡ key_size)
  unfolding message_key
  message_key_total chain seq h =
      let (k, e, lk, _) =
        derive_key_total l chain (put_uint 8 seq) info_msg key_size h (omega arith) in
      (k, rw e, lk)

  epoch_keys_sizes :
      (root : Bytes) (e : ℕ) (ks : Bytes × Bytes)
      → 0 < length root
      → epoch_keys p root e ≡ ok ks
      → (length ks.0 ≡ key_size) × (length ks.1 ≡ key_size)
  epoch_keys_sizes root e ks r h =
      let (ks', h', la, lb) = epoch_keys_total root e r in
      let same : ks' ≡ ks = cc in
      (cc (la, ap (λ x. length x.0) same), cc (lb, ap (λ x. length x.1) same))

  pub out_key-size :
      (s : Session) (i : Bool) (k : IsKeyed p s) → length (out_key i k.keys) ≡ key_size
  out_key-size s true k = (epoch_keys_sizes s.root s.epoch k.keys k.rooted k.derived).0
  out_key-size s false k = (epoch_keys_sizes s.root s.epoch k.keys k.rooted k.derived).1

-- What neither rotation nor the choice of a chain touches.
pub record SameBut (s t : Session) : Type 0 where
  pub same_id : t.session_id ≡ s.session_id
  pub same_root : t.root ≡ s.root
  pub same_role : t.initiator ≡ s.initiator
  pub same_window : t.recv_win ≡ s.recv_win
  pub same_closed : t.closed ≡ s.closed
  pub same_seq : t.send_seq ≡ s.send_seq

-- The epochs of frames that `chainForEpochLocked` finds a chain for.
abbrev pub IsNear : ℕ → ℕ → Type 0
IsNear e current = (e ≡ current) ⊎ ((e ≡ current + 1) ⊎ (e + 1 ≡ current))

module _ (p : Primitives) where
  -- The outcome of choosing a chain: the key of that epoch, and a session still in step.
  pub record Chosen (s : Session) (e : ℕ) (key : Bytes) : Type 0 where
    pub after : Session
    pub run : chain_for_epoch p e s ≡ (after, ok key)
    pub keyed : IsKeyed p after
    pub epoch_is : after.epoch ≡ max e s.epoch
    pub kept : SameBut s after

  module _ (s : Session) (e : ℕ) (ks : Bytes × Bytes) (k : IsKeyed p s)
      (small : s.epoch + 1 < 2 ^ 32) where
    run_now :
        e ≡ s.epoch
        → epoch_keys p s.root e ≡ ok ks
        → chain_for_epoch p e s ≡ (s, ok (in_key s.initiator ks))
    unfolding chain_for_epoch
    run_now now h = ground (arith, k.recv_is, k.derived, ap (epoch_keys p s.root) now)

    run_next :
        epoch_keys p s.root (s.epoch + 1) ≡ ok ks
        → chain_for_epoch p (s.epoch + 1) s
          ≡ (assign_epoch p (s.epoch + 1) ks s, ok (in_key s.initiator ks))
    unfolding chain_for_epoch assign_epoch
    run_next h = ground (arith, install_epoch_lem p s (s.epoch + 1) ks h)

    run_last :
        e + 1 ≡ s.epoch
        → epoch_keys p s.root e ≡ ok ks
        → chain_for_epoch p e s ≡ (s, ok (in_key s.initiator ks))
    unfolding chain_for_epoch
    run_last last h = elim k.old [
      | inl (z, _) ↦ absurd (omega arith)
      | inr (e', ks', at, h', is) ↦ ground (arith, is, h', ap (epoch_keys p s.root) (same e' at))
    ]
      where
        same : (e' : ℕ) → s.epoch ≡ suc e' → e' ≡ e
        same e' at = omega arith

  -- A session in step finds the key of the epoch before, of its own and of the next, and rolls forward for the last.
  pub chain_for_epoch_lem :
      (s : Session) (e : ℕ) (ks : Bytes × Bytes)
      → IsKeyed p s
      → s.epoch + 1 < 2 ^ 32
      → IsNear e s.epoch
      → epoch_keys p s.root e ≡ ok ks
      → Chosen s e (in_key s.initiator ks)
  unfolding assign_epoch
  chain_for_epoch_lem s e ks k small (inl now) h = record {
    after = s;
    run = run_now s e ks k small now h;
    keyed = k;
    epoch_is = omega arith;
    kept = record {
      same_id = refl;
      same_root = refl;
      same_role = refl;
      same_window = refl;
      same_closed = refl;
      same_seq = refl;
    };
  }
  chain_for_epoch_lem s e ks k small (inr (inl next)) h =
      let h' : epoch_keys p s.root (s.epoch + 1) ≡ ok ks =
        ap (epoch_keys p s.root) (sym next) ∙ h in
      record {
        after = assign_epoch p (s.epoch + 1) ks s;
        run = ap (λ n. chain_for_epoch p n s) next ∙ run_next s e ks k small h';
        keyed = assign_epoch-IsKeyed p s ks k h';
        epoch_is = omega arith;
        kept = record {
          same_id = refl;
          same_root = refl;
          same_role = refl;
          same_window = refl;
          same_closed = refl;
          same_seq = refl;
        };
      }
  chain_for_epoch_lem s e ks k small (inr (inr last)) h = record {
    after = s;
    run = run_last s e ks k small last h;
    keyed = k;
    epoch_is = omega arith;
    kept = record {
      same_id = refl;
      same_root = refl;
      same_role = refl;
      same_window = refl;
      same_closed = refl;
      same_seq = refl;
    };
  }
