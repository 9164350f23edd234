-- ===== src/Proto/Handshake/Pairing.antt =====
-- internal/proto/pairing.go: what the pairing confirmation accepts.
use xessenger_cli.Prelude.{true, ok, arith, ◌≡◌, ◌↔◌, inl, inr, Result-cases}
use xessenger_cli.Prelude.Bytes.{bytes_eq_iff}
use xessenger_cli.Crypto.{Bytes, Primitives}
use xessenger_cli.Proto.Handshake.{pair_confirm, verify_pair_confirm}

-- `VerifyPairConfirm` accepts a value exactly when `PairConfirm` succeeds and gives that value.
pub verify_pair_confirm_iff :
    (p : Primitives) (pairing_key transcript got : Bytes)
    → (verify_pair_confirm p pairing_key transcript got ≡ true)
      ↔ (pair_confirm p pairing_key transcript ≡ ok got)
unfolding verify_pair_confirm
verify_pair_confirm_iff p pairing_key transcript got =
    elim (Result-cases (pair_confirm p pairing_key transcript)) [
      | inr (x, e) ↦ ground (arith, e)
      | inl (want, e) ↦ ground (arith, e, bytes_eq_iff want got)
    ]
