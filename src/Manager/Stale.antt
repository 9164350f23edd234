-- ===== src/Manager/Stale.antt =====
-- internal/session/manager.go: the name of a connection that `register` replaces.
use xessenger_cli.Prelude.{
  ℕ, true, false, some, if◌then◌else◌, if_elim, arith, ◌≡◌, ◌≢◌, inl, inr, refl, ap, ◌∙◌,
  Bool-cases,
}
use xessenger_cli.Prelude.Bytes.{bytes_eq, bytes_eq_iff}
use xessenger_cli.Prelude.Assoc.{lookup, lookup-insert}
use xessenger_cli.Manager.Registry.{IsWf, IsOpen, put-heap}
use xessenger_cli.Manager.Effects.{close-done}
use xessenger_cli.Manager.{Conn, Manager, put, close, enter, refuses, register, trust_of}

register_replaces :
    (i : ℕ) (c : Conn) (m : Manager)
    → lookup c.fp m.conns ≡ some i
    → refuses (m.heap i) c ≡ false
    → register c m ≡ (enter c (close i m), true)
unfolding register
register_replaces i c m e r = rw (register, e, r) refl

close-keeps :
    (i : ℕ) (m : Manager) → ((close i m).by_name ≡ m.by_name) × ((close i m).count ≡ m.count)
unfolding close put
close-keeps i m =
    if_elim (λ (x : Manager). (x.by_name ≡ m.by_name) × (x.count ≡ m.count)) (m.heap i).done _ _
      (λ e. (refl, refl)) (λ e. (refl, refl))

-- The name of a replaced connection, when the new connection of the same identity has another name, still leads to the old connection, which is closed: `TrustOf` answers for it as for a connected peer.
pub register_stale :
    (i : ℕ) (c : Conn) (m : Manager)
    → IsWf m
    → IsOpen m i
    → lookup (m.heap i).name m.by_name ≡ some i
    → c.fp ≡ (m.heap i).fp
    → c.name ≢ (m.heap i).name
    → refuses (m.heap i) c ≡ false
    → (lookup (m.heap i).name (register c m).0.by_name ≡ some i)
      × (((register c m).0.heap i).done ≡ true)
      × ((trust_of (m.heap i).name (register c m).0).1 ≡ true)
unfolding enter put trust_of
register_stale i c m w (l, d) held same other r = (
  named,
  ap (λ (x : Manager). (x.heap i).done) replaced
      ∙ put-heap (λ x. x.done ≡ true) m'.count i c m' (λ e. absurd (omega (arith, l, e, kept.1)))
          (λ ne. close-done i m),
  trusted (register c m).0 named,
)
  where
    m' : Manager
    m' = close i m

    kept : (m'.by_name ≡ m.by_name) × (m'.count ≡ m.count)
    kept = close-keeps i m

    replaced : (register c m).0 ≡ enter c m'
    replaced =
        ap (λ x. x.0)
          (register_replaces i c m (ap (λ k. lookup k m.conns) same ∙ w.current i (l, d)) r)

    not_same : bytes_eq c.name (m.heap i).name ≡ false
    not_same = elim (Bool-cases (bytes_eq c.name (m.heap i).name)) [
      | inl e ↦ absurd (other ((bytes_eq_iff c.name (m.heap i).name).0 e))
      | inr e ↦ e
    ]

    named : lookup (m.heap i).name (register c m).0.by_name ≡ some i
    named =
        ap (λ (x : Manager). lookup (m.heap i).name x.by_name) replaced
        ∙ lookup-insert c.name (m.heap i).name m'.count m'.by_name
        ∙ ap (λ b. if b then some m'.count else lookup (m.heap i).name m'.by_name) not_same
        ∙ ap (λ names. lookup (m.heap i).name names) kept.0
        ∙ held

    trusted :
        (x : Manager)
        → lookup (m.heap i).name x.by_name ≡ some i
        → (trust_of (m.heap i).name x).1 ≡ true
    trusted x e = rw (trust_of, e) refl
