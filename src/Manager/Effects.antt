-- ===== src/Manager/Effects.antt =====
-- internal/session/manager.go: what `unregister`, `emit` and `close` do to the connections.
use xessenger_cli.Prelude.{ℕ, true, if_elim, ltb, length, ◌≡◌, refl, ap, ◌∙◌, ==_refl}
use xessenger_cli.Prelude.Assoc.{lookup}
use xessenger_cli.Proto.Session.{Session, seal}
use xessenger_cli.Proto.Session
use xessenger_cli.Manager.{
  event_peer_disconnected, Event, events_capacity, Conn, Manager, leads_to, put, emit, close,
  unregister, about_conn, drop_conn,
}

pub put_self : (i : ℕ) (c : Conn) (m : Manager) → (put i c m).heap i ≡ c
unfolding put
put_self i c m = rw (==_refl i) refl

pub heap-unregister : (i : ℕ) (m : Manager) → (unregister i m).heap ≡ m.heap
unfolding unregister
heap-unregister i m =
    if_elim (λ (x : Manager). x.heap ≡ m.heap) (leads_to (lookup (m.heap i).fp m.conns) i) _ _
      (λ e. refl) (λ e. refl)

pub heap-emit : (e : Event) (m : Manager) → (emit e m).heap ≡ m.heap
unfolding emit
heap-emit e m =
    if_elim (λ (x : Manager). x.heap ≡ m.heap) (ltb (length m.events) events_capacity) _ _
      (λ e. refl) (λ e. refl)

pub close-done : (i : ℕ) (m : Manager) → ((close i m).heap i).done ≡ true
unfolding close
close-done i m =
    if_elim (λ (x : Manager). (x.heap i).done ≡ true) (m.heap i).done _ _ (λ e. e)
      (λ e.
        ap (λ (c : Conn). c.done)
          (put_self i (record (m.heap i) { done = true; sess = Session.close (m.heap i).sess }) m))

pub drop_conn-done : (i : ℕ) (m : Manager) → ((drop_conn i m).heap i).done ≡ true
unfolding drop_conn
drop_conn-done i m =
    if_elim P (m.heap i).done _ _ (λ e. e)
      (λ e.
        if_elim P (m.heap i).announced _ _
          (λ e.
            ap (λ h. (h i).done)
              (heap-emit (about_conn event_peer_disconnected (m.heap i)) (unregister i (close i m)))
            ∙ gone)
          (λ e. gone))
  where
    P : Manager → Type 0
    P x = (x.heap i).done ≡ true

    gone : ((unregister i (close i m)).heap i).done ≡ true
    gone = ap (λ h. (h i).done) (heap-unregister i (close i m)) ∙ close-done i m
