-- ===== src/Manager/Connections.antt =====
-- internal/session/manager.go: the registry under the operations on one connection.
use xessenger_cli.Prelude.{
  ℕ, ◌<◌, [], ◌∷◌, ◌++◌, Bool, true, false, not, ◌||◌, Result, if_elim, ltb, length, arith, ◌≡◌,
  inl, inr, refl, ap, subst, ◌∙◌, Bool-cases, Option-cases, ltb→lt, length-append,
}
use xessenger_cli.Prelude.Assoc.{lookup}
use xessenger_cli.Crypto.{Bytes}
use xessenger_cli.Proto.Session.{Session}
use xessenger_cli.Manager.{
  event_peer_connected, event_peer_disconnected, Event, send_capacity, Conn, Manager, Error,
  leads_to, put, emit, close, refuses, register, unregister, about_conn, announce, drop_conn, offer,
}
use xessenger_cli.Manager.Registry.{
  IsWfBut, IsOpen, IsSound, IsWf, put-IsWf, emit-IsWf, close-IsWfBut, empty-IsWfBut,
  unregister-IsWf, enter-IsWf,
}

-- A new connection is open, and its queue is not over the limit.
pub register-IsWf :
    (c : Conn) (m : Manager) → c.done ≡ false → IsSound c → IsWf m → IsWf (register c m).0
unfolding register
register-IsWf c m d s w = elim (Option-cases (lookup c.fp m.conns)) [
  | inl e ↦ rw (register, e) (enter-IsWf c m d s (empty-IsWfBut c.fp m e w))
  | inr (j, e) ↦
      let (o, f) = w.registered c.fp j e in
      rw (register, e)
        (if_elim (λ (x : Manager × Bool). IsWf x.0) (refuses (m.heap j) c) _ _ (λ r. w)
          (λ r.
            enter-IsWf c (close j m) d s
              (subst (λ k. IsWfBut k (close j m)) f (close-IsWfBut j m o w))))
]

drop_conn-IsWf_open : (i : ℕ) (m : Manager) → IsOpen m i → IsWf m → IsWf (unregister i (close i m))
unfolding close put
drop_conn-IsWf_open i m (l, d) w =
    unregister-IsWf i (close i m) (ground (arith, d, w.current i (l, d)))
      (subst (λ k. IsWfBut k (close i m)) (ground (arith, d)) (close-IsWfBut i m (l, d) w))

pub drop_conn-IsWf : (i : ℕ) (m : Manager) → i < m.count → IsWf m → IsWf (drop_conn i m)
unfolding drop_conn
drop_conn-IsWf i m l w = elim (Bool-cases (m.heap i).done) [
  | inl d ↦ rw (drop_conn, d) w
  | inr d ↦
      let v = drop_conn-IsWf_open i m (l, d) w in
      rw (drop_conn, d)
        (if_elim IsWf (m.heap i).announced _ _
          (λ e.
            emit-IsWf (about_conn event_peer_disconnected (m.heap i)) (unregister i (close i m)) v)
          (λ e. v))
]

pub announce-IsWf : (i : ℕ) (m : Manager) → IsWf m → IsWf (announce i m)
unfolding announce
announce-IsWf i m w =
    if_elim IsWf
      ((m.heap i).done || (not (leads_to (lookup (m.heap i).fp m.conns) i) || (m.heap i).announced))
      _ _ (λ e. w)
      (λ e.
        emit-IsWf (about_conn event_peer_connected (m.heap i))
          (put i (record (m.heap i) { announced = true }) m)
          (put-IsWf i (record (m.heap i) { announced = true }) m refl refl refl (w.tidy.sound i) w))

pub offer-IsWf : (i : ℕ) (buf : Bytes) (m : Manager) → IsWf m → IsWf (offer i buf m).0
unfolding offer
offer-IsWf i buf m w =
    if_elim P (m.heap i).done _ _ (λ e. w)
      (λ e.
        if_elim P (ltb (length (m.heap i).queue) send_capacity) _ _
          (λ room.
            put-IsWf i (record (m.heap i) { queue = (m.heap i).queue ++ (buf ∷ []) }) m refl refl
              refl
              (
                (w.tidy.sound i).0,
                omega (
                  arith,
                  length-append (m.heap i).queue (buf ∷ []),
                  ltb→lt (length (m.heap i).queue) send_capacity room,
                ),
              )
              w)
          (λ full. w))
  where
    P : Manager × Result Error (Unit {0}) → Type 0
    P r = IsWf r.0

-- A connection with its session after a call, one that leaves a closed session as it is.
pub put_sess-IsWf :
    (i : ℕ) (s : Session) (m : Manager)
    → ((m.heap i).sess.closed ≡ true → s ≡ (m.heap i).sess)
    → IsWf m
    → IsWf (put i (record (m.heap i) { sess = s }) m)
put_sess-IsWf i s m stays w =
    put-IsWf i (record (m.heap i) { sess = s }) m refl refl refl
      (
        (λ e. let c = (w.tidy.sound i).0 e in ap (λ (t : Session). t.closed) (stays c) ∙ c),
        (w.tidy.sound i).1,
      )
      w

pub count_emit : (e : Event) (m : Manager) → (emit e m).count ≡ m.count
unfolding emit
count_emit e m = ground arith

pub count_close : (i : ℕ) (m : Manager) → (close i m).count ≡ m.count
unfolding close put
count_close i m =
    if_elim (λ (x : Manager). x.count ≡ m.count) (m.heap i).done _ _ (λ e. refl) (λ e. refl)

pub count_unregister : (i : ℕ) (m : Manager) → (unregister i m).count ≡ m.count
unfolding unregister
count_unregister i m =
    if_elim (λ (x : Manager). x.count ≡ m.count) (leads_to (lookup (m.heap i).fp m.conns) i) _ _
      (λ e. refl) (λ e. refl)

pub count_drop_conn : (i : ℕ) (m : Manager) → (drop_conn i m).count ≡ m.count
unfolding drop_conn
count_drop_conn i m =
    if_elim P (m.heap i).done _ _ (λ e. refl)
      (λ e.
        if_elim P (m.heap i).announced _ _
          (λ e.
            count_emit (about_conn event_peer_disconnected (m.heap i)) (unregister i (close i m))
            ∙ gone)
          (λ e. gone))
  where
    P : Manager → Type 0
    P x = x.count ≡ m.count

    gone : (unregister i (close i m)).count ≡ m.count
    gone = count_unregister i (close i m) ∙ count_close i m
