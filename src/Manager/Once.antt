-- ===== src/Manager/Once.antt =====
-- internal/session/manager.go: `announce` and `dropConn` called more than once.
use xessenger_cli.Prelude.{
  ℕ, Bool, true, false, not, ◌||◌, arith, ◌≡◌, inl, inr, refl, ap, ◌∙◌, Bool-cases,
}
use xessenger_cli.Prelude.Assoc.{lookup}
use xessenger_cli.Manager.Effects.{put_self, heap-emit, drop_conn-done}
use xessenger_cli.Manager.{
  event_peer_connected, Conn, Manager, leads_to, put, emit, about_conn, announce, drop_conn,
}

abbrev skips : ℕ → Manager → Bool
skips i m =
    (m.heap i).done || (not (leads_to (lookup (m.heap i).fp m.conns) i) || (m.heap i).announced)

announce-skips : (i : ℕ) (m : Manager) → skips i m ≡ true → announce i m ≡ m
unfolding announce
announce-skips i m e = rw (announce, e) refl

announce_tells :
    (i : ℕ) (m : Manager)
    → skips i m ≡ false
    → announce i m
      ≡ emit
          (about_conn event_peer_connected (m.heap i))
          (put i (record (m.heap i) { announced = true }) m)
unfolding announce
announce_tells i m e = rw (announce, e) refl

announced-skips : (i : ℕ) (m : Manager) → (m.heap i).announced ≡ true → skips i m ≡ true
announced-skips i m a = ground (arith, a)

-- Announcing a connection once more, or dropping it once more, changes nothing: neither the connections nor the events.
pub announce-drop_conn_once :
    (i : ℕ) (m : Manager)
    → (announce i (announce i m) ≡ announce i m) × (drop_conn i (drop_conn i m) ≡ drop_conn i m)
unfolding drop_conn
announce-drop_conn_once i m = (
  elim (Bool-cases (skips i m)) [
    | inl e ↦ ap (announce i) (announce-skips i m e)
    | inr e ↦ announce-skips i (announce i m) (
        announced-skips i (announce i m) (
          ap (λ (x : Manager). (x.heap i).announced) (announce_tells i m e)
          ∙ ap (λ h. (h i).announced)
              (heap-emit (about_conn event_peer_connected (m.heap i))
                (put i (record (m.heap i) { announced = true }) m))
          ∙ ap (λ (c : Conn). c.announced) (put_self i (record (m.heap i) { announced = true }) m)))
  ],
  dropped (drop_conn i m) (drop_conn-done i m),
)
  where
    dropped : (m' : Manager) → (m'.heap i).done ≡ true → drop_conn i m' ≡ m'
    dropped m' d = rw (drop_conn, d) refl
