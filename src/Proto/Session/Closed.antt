-- ===== src/Proto/Session/Closed.antt =====
-- internal/proto/session.go: the operations on a closed session.
use xessenger_cli.Prelude.{ℕ, true, Option, ◌≡◌, refl}
use xessenger_cli.Crypto.{Bytes, Primitives}
use xessenger_cli.Proto.Session.{Session, seal, open', seal_chat}

module _ (p : Primitives) (s : Session) where
  pub seal-closed :
      (drawn : Option Bytes) (typ : ℕ) (plaintext : Bytes)
      → s.closed ≡ true
      → (seal p drawn typ plaintext s).0 ≡ s
  unfolding seal
  seal-closed drawn typ plaintext e = rw (seal, e) refl

  pub seal_chat-closed :
      (drawn : Option Bytes) (text : Bytes) → s.closed ≡ true → (seal_chat p drawn text s).0 ≡ s
  unfolding seal_chat seal
  seal_chat-closed drawn text e = rw (seal_chat, seal, e) refl

  pub open'-closed : (buf : Bytes) → s.closed ≡ true → (open' p buf s).0 ≡ s
  unfolding open'
  open'-closed buf e = rw (open', e) refl
