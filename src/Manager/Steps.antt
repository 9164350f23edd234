-- ===== src/Manager/Steps.antt =====
-- internal/session/manager.go: the registry under each operation of the manager.
use xessenger_cli.Prelude.{
  ℕ, ◌+◌, ◌≤◌, ◌<◌, List, [], ◌∷◌, ◌++◌, Bool, true, Option, none, some, Result, ok, err,
  if◌then◌else◌, if_elim, ltb, length, arith, ◌≡◌, inl, inr, refl, ◌∙◌, Option-cases,
}
use xessenger_cli.Prelude.Assoc.{lookup}
use xessenger_cli.Crypto.{Bytes, Primitives}
use xessenger_cli.Proto.Frame.{Error as ProtoError, type_ping, type_close}
use xessenger_cli.Proto.Session.{Session, seal, seal_chat}
use xessenger_cli.Proto.Session.Closed.{seal-closed, seal_chat-closed}
use xessenger_cli.Manager.{
  keepalive_misses, send_capacity, Manager, Error, not_connected, put, drop_conn, offer,
  offer_sealed, enqueue, keepalive_tick, write_round, send, disconnect, broadcast,
}
use xessenger_cli.Manager.Registry.{IsWf, put-IsWf}
use xessenger_cli.Manager.Connections.{drop_conn-IsWf, offer-IsWf, put_sess-IsWf, count_drop_conn}

module _ (p : Primitives) where
  offer_sealed-IsWf :
      (i : ℕ) (r : Session × Result ProtoError Bytes) (m : Manager)
      → ((m.heap i).sess.closed ≡ true → r.0 ≡ (m.heap i).sess)
      → IsWf m
      → IsWf (offer_sealed p i r m).0
  unfolding offer_sealed
  offer_sealed-IsWf i (s, ok buf) m stays w =
      offer-IsWf i buf (put i (record (m.heap i) { sess = s }) m) (put_sess-IsWf i s m stays w)
  offer_sealed-IsWf i (s, err e) m stays w = put_sess-IsWf i s m stays w

  pub enqueue-IsWf :
      (drawn : Option Bytes) (i typ : ℕ) (payload : Bytes) (m : Manager)
      → IsWf m
      → IsWf (enqueue p drawn i typ payload m).0
  unfolding enqueue
  enqueue-IsWf drawn i typ payload m w =
      offer_sealed-IsWf i (seal p drawn typ payload (m.heap i).sess) m
        (seal-closed p (m.heap i).sess drawn typ payload) w

  count_offer : (i : ℕ) (buf : Bytes) (m : Manager) → (offer i buf m).0.count ≡ m.count
  unfolding offer put
  count_offer i buf m = ground arith

  count_offer_sealed :
      (i : ℕ) (r : Session × Result ProtoError Bytes) (m : Manager)
      → (offer_sealed p i r m).0.count ≡ m.count
  unfolding offer_sealed put
  count_offer_sealed i (s, ok buf) m = count_offer i buf (put i (record (m.heap i) { sess = s }) m)
  count_offer_sealed i (s, err e) m = refl

  count_enqueue :
      (drawn : Option Bytes) (i typ : ℕ) (payload : Bytes) (m : Manager)
      → (enqueue p drawn i typ payload m).0.count ≡ m.count
  unfolding enqueue
  count_enqueue drawn i typ payload m =
      count_offer_sealed i (seal p drawn typ payload (m.heap i).sess) m

  -- A later state of the same connections.
  abbrev Follows : Manager → Manager → Type 0
  Follows m m' = IsWf m' × (m'.count ≡ m.count)

  pub keepalive_tick-IsWf :
      (drawn : Option Bytes) (i : ℕ) (m : Manager)
      → i < m.count
      → IsWf m
      → IsWf (keepalive_tick p drawn i m)
  unfolding keepalive_tick put
  keepalive_tick-IsWf drawn i m l w =
      if_elim IsWf (m.heap i).done _ _ (λ e. w)
        (λ e.
          if_elim IsWf (ltb keepalive_misses ((m.heap i).unanswered + 1)) _ _
            (λ e. drop_conn-IsWf i m' l v) (λ e. go (enqueue p drawn i type_ping [] m').1))
    where
      m' : Manager
      m' = put i (record (m.heap i) { unanswered = (m.heap i).unanswered + 1 }) m

      v : IsWf m'
      v =
          put-IsWf i (record (m.heap i) { unanswered = (m.heap i).unanswered + 1 }) m refl refl refl
            (w.tidy.sound i) w

      go :
          (r : Result Error (Unit {0}))
          → IsWf (elim r as (λ x. Manager) [
            | ok u ↦ (enqueue p drawn i type_ping [] m').0
            | err e ↦ drop_conn i (enqueue p drawn i type_ping [] m').0
          ])
      go (ok u) = enqueue-IsWf drawn i type_ping [] m' v
      go (err e) =
          drop_conn-IsWf i (enqueue p drawn i type_ping [] m').0
            (omega (arith, l, count_enqueue drawn i type_ping [] m'))
            (enqueue-IsWf drawn i type_ping [] m' v)

  pub count_keepalive_tick :
      (drawn : Option Bytes) (i : ℕ) (m : Manager) → (keepalive_tick p drawn i m).count ≡ m.count
  unfolding keepalive_tick put
  count_keepalive_tick drawn i m =
      if_elim P (m.heap i).done _ _ (λ e. refl)
        (λ e.
          if_elim P (ltb keepalive_misses ((m.heap i).unanswered + 1)) _ _
            (λ e. count_drop_conn i m') (λ e. go (enqueue p drawn i type_ping [] m').1))
    where
      P : Manager → Type 0
      P x = x.count ≡ m.count

      m' : Manager
      m' = put i (record (m.heap i) { unanswered = (m.heap i).unanswered + 1 }) m

      go :
          (r : Result Error (Unit {0}))
          → (elim r as (λ x. Manager) [
            | ok u ↦ (enqueue p drawn i type_ping [] m').0
            | err e ↦ drop_conn i (enqueue p drawn i type_ping [] m').0
          ]).count
            ≡ m.count
      go (ok u) = count_enqueue drawn i type_ping [] m'
      go (err e) =
          count_drop_conn i (enqueue p drawn i type_ping [] m').0
          ∙ count_enqueue drawn i type_ping [] m'

  pub write_round-IsWf :
      (up : Bool) (i : ℕ) (m : Manager) → i < m.count → IsWf m → IsWf (write_round p up i m)
  unfolding write_round put
  write_round-IsWf up i m l w =
      if_elim IsWf (m.heap i).done _ _ (λ e. w) (λ e. go (m.heap i).queue (w.tidy.sound i).1)
    where
      after : List Bytes → Bytes → Manager
      after rest buf =
          put i
            (record (m.heap i) {
              queue = rest;
              written = if up then (m.heap i).written ++ (buf ∷ []) else (m.heap i).written;
            })
            m

      go :
          (q : List Bytes)
          → length q ≤ send_capacity
          → IsWf (elim q as (λ x. Manager) [
            | [] ↦ m
            | buf ∷ rest ↦ if up then after rest buf else drop_conn i (after rest buf)
          ])
      go [] h = w
      go (buf ∷ rest) h =
          let v : IsWf (after rest buf) =
            put-IsWf i
              (record (m.heap i) {
                queue = rest;
                written = if up then (m.heap i).written ++ (buf ∷ []) else (m.heap i).written;
              })
              m refl refl refl ((w.tidy.sound i).0, omega (arith, h)) w in
          if_elim IsWf up _ _ (λ e. v) (λ e. drop_conn-IsWf i (after rest buf) l v)

  pub send-IsWf :
      (drawn : Option Bytes) (name text : Bytes) (m : Manager)
      → IsWf m
      → IsWf (send p drawn name text m).0
  unfolding send
  send-IsWf drawn name text m w = go (lookup name m.by_name)
    where
      go :
          (o : Option ℕ)
          → IsWf
              (elim o as (λ x. Manager × Result Error (Unit {0})) [
                | none ↦ (m, err not_connected)
                | some i ↦ offer_sealed p i (seal_chat p drawn text (m.heap i).sess) m
              ]).0
      go none = w
      go (some i) =
          offer_sealed-IsWf i (seal_chat p drawn text (m.heap i).sess) m
            (seal_chat-closed p (m.heap i).sess drawn text) w

  pub disconnect-IsWf :
      (drawn : Option Bytes) (name : Bytes) (m : Manager)
      → IsWf m
      → IsWf (disconnect p drawn name m).0
  unfolding disconnect
  disconnect-IsWf drawn name m w = elim (Option-cases (lookup name m.by_name)) [
    | inl e ↦ rw (disconnect, e) w
    | inr (i, e) ↦
        rw (disconnect, e)
          (drop_conn-IsWf i (enqueue p drawn i type_close [] m).0
            (omega (arith, (w.tidy.named name i e).0, count_enqueue drawn i type_close [] m))
            (enqueue-IsWf drawn i type_close [] m w))
  ]

  pub broadcast-IsWf :
      (drawn : ℕ → Option Bytes) (text : Bytes) (l : List (Bytes × ℕ)) (m : Manager)
      → IsWf m
      → IsWf (broadcast p drawn text l m).0
  unfolding broadcast
  broadcast-IsWf drawn text [] m w = w
  broadcast-IsWf drawn text ((fp, i) ∷ rest) m w =
      broadcast-IsWf drawn text rest
        (offer_sealed p i (seal_chat p (drawn i) text (m.heap i).sess) m).0
        (offer_sealed-IsWf i (seal_chat p (drawn i) text (m.heap i).sess) m
          (seal_chat-closed p (m.heap i).sess (drawn i) text) w)
