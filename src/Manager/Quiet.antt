-- ===== src/Manager/Quiet.antt =====
-- internal/session/manager.go: what the manager does to a connection when no frame is received and its
-- timer does not tick.
use xessenger_cli.Prelude.{
  ℕ, ◌≤◌, ◌<◌, List, [], ◌∷◌, ◌++◌, Bool, true, false, not, ◌||◌, Option, Result, ok, err,
  if◌then◌else◌, if_elim, ltb, length, arith, ◌≡◌, inl, inr, refl, sym, ap, subst, ◌∙◌,
  Option-cases,
}
use xessenger_cli.Prelude.Assoc.{lookup}
use xessenger_cli.Crypto.{Bytes, Primitives}
use xessenger_cli.Proto.Frame.{Error as ProtoError, type_close}
use xessenger_cli.Proto.Session.{Session, seal, seal_chat}
use xessenger_cli.Manager.Registry.{IsWf, put-heap}
use xessenger_cli.Manager.Steps.{write_round-IsWf, send-IsWf, disconnect-IsWf, broadcast-IsWf}
use xessenger_cli.Manager.Connections.{announce-IsWf, count_unregister, count_emit}
use xessenger_cli.Manager.Effects.{heap-unregister, heap-emit}
use xessenger_cli.Manager.{
  Event, emit, event_peer_connected, event_peer_disconnected, send_capacity, Conn, Manager, Error,
  leads_to, put, close, unregister, about_conn, announce, drop_conn, offer, offer_sealed, enqueue,
  write_round, send, disconnect, broadcast,
}

-- A closed connection stays closed, the count of unanswered pings is the same, and no number is taken
-- back.
pub record Keeps (i : ℕ) (m m' : Manager) : Type 0 where
  pub stays : (m.heap i).done ≡ true → (m'.heap i).done ≡ true
  pub counts : (m'.heap i).unanswered ≡ (m.heap i).unanswered
  pub grows : m.count ≤ m'.count

same-Keeps : (i : ℕ) (m : Manager) → Keeps i m m
same-Keeps i m = record { stays = λ d. d; counts = refl; grows = omega arith }

then-Keeps : (i : ℕ) (a b c : Manager) → Keeps i a b → Keeps i b c → Keeps i a c
then-Keeps i a b c f g = record {
  stays = λ d. g.stays (f.stays d);
  counts = g.counts ∙ f.counts;
  grows = omega (arith, f.grows, g.grows);
}

count_put : (j : ℕ) (c : Conn) (m : Manager) → (put j c m).count ≡ m.count
unfolding put
count_put j c m = refl

put-Keeps :
    (i j : ℕ) (c : Conn) (m : Manager)
    → ((m.heap j).done ≡ true → c.done ≡ true)
    → c.unanswered ≡ (m.heap j).unanswered
    → Keeps i m (put j c m)
put-Keeps i j c m d u = record {
  stays =
      put-heap (λ x. (m.heap i).done ≡ true → x.done ≡ true) j i c m
        (λ e. subst (λ k. (m.heap k).done ≡ true → c.done ≡ true) (sym e) d) (λ ne h. h);
  counts =
      put-heap (λ x. x.unanswered ≡ (m.heap i).unanswered) j i c m
        (λ e. u ∙ ap (λ k. (m.heap k).unanswered) (sym e)) (λ ne. refl);
  grows = omega (arith, count_put j c m);
}

heap-Keeps : (i : ℕ) (m m' : Manager) → m'.heap ≡ m.heap → m'.count ≡ m.count → Keeps i m m'
heap-Keeps i m m' h c = record {
  stays = λ d. ap (λ g. (g i).done) h ∙ d;
  counts = ap (λ g. (g i).unanswered) h;
  grows = omega (arith, c);
}

emit-Keeps : (i : ℕ) (e : Event) (m : Manager) → Keeps i m (emit e m)
emit-Keeps i e m = heap-Keeps i m (emit e m) (heap-emit e m) (count_emit e m)

close-Keeps : (i j : ℕ) (m : Manager) → Keeps i m (close j m)
unfolding close
close-Keeps i j m =
    if_elim (Keeps i m) (m.heap j).done _ _ (λ e. same-Keeps i m)
      (λ e. put-Keeps i j _ m (λ d. refl) refl)

drop_conn-Keeps : (i j : ℕ) (m : Manager) → Keeps i m (drop_conn j m)
unfolding drop_conn
drop_conn-Keeps i j m =
    if_elim (Keeps i m) (m.heap j).done _ _ (λ e. same-Keeps i m)
      (λ e.
        if_elim (Keeps i m) (m.heap j).announced _ _
          (λ a.
            then-Keeps i m left _ dropped
              (emit-Keeps i (about_conn event_peer_disconnected (m.heap j)) left))
          (λ a. dropped))
  where
    left : Manager
    left = unregister j (close j m)

    dropped : Keeps i m left
    dropped = then-Keeps i m (close j m) left (close-Keeps i j m) (
        heap-Keeps i (close j m) left (heap-unregister j (close j m))
          (count_unregister j (close j m)))

announce-Keeps : (i j : ℕ) (m : Manager) → Keeps i m (announce j m)
unfolding announce
announce-Keeps i j m =
    if_elim (Keeps i m)
      ((m.heap j).done || (not (leads_to (lookup (m.heap j).fp m.conns) j) || (m.heap j).announced))
      _ _ (λ e. same-Keeps i m)
      (λ e.
        let m' = put j (record (m.heap j) { announced = true }) m in
        then-Keeps i m m' _ (put-Keeps i j _ m (λ d. d) refl)
          (emit-Keeps i (about_conn event_peer_connected (m.heap j)) m'))

offer-Keeps : (i j : ℕ) (buf : Bytes) (m : Manager) → Keeps i m (offer j buf m).0
unfolding offer
offer-Keeps i j buf m =
    if_elim P (m.heap j).done _ _ (λ e. same-Keeps i m)
      (λ e.
        if_elim P (ltb (length (m.heap j).queue) send_capacity) _ _
          (λ room. put-Keeps i j _ m (λ d. d) refl) (λ full. same-Keeps i m))
  where
    P : Manager × Result Error (Unit {0}) → Type 0
    P x = Keeps i m x.0

module _ (p : Primitives) where
  offer_sealed-Keeps :
      (i j : ℕ) (r : Session × Result ProtoError Bytes) (m : Manager)
      → Keeps i m (offer_sealed p j r m).0
  unfolding offer_sealed
  offer_sealed-Keeps i j (s, ok buf) m =
      then-Keeps i m (put j (record (m.heap j) { sess = s }) m) _ (put-Keeps i j _ m (λ d. d) refl)
        (offer-Keeps i j buf (put j (record (m.heap j) { sess = s }) m))
  offer_sealed-Keeps i j (s, err e) m = put-Keeps i j _ m (λ d. d) refl

  send-Keeps :
      (i : ℕ) (drawn : Option Bytes) (name text : Bytes) (m : Manager)
      → Keeps i m (send p drawn name text m).0
  unfolding send
  send-Keeps i drawn name text m = elim (Option-cases (lookup name m.by_name)) [
    | inl e ↦ rw (send, e) (same-Keeps i m)
    | inr (j, e) ↦ rw (send, e) (offer_sealed-Keeps i j (seal_chat p drawn text (m.heap j).sess) m)
  ]

  disconnect-Keeps :
      (i : ℕ) (drawn : Option Bytes) (name : Bytes) (m : Manager)
      → Keeps i m (disconnect p drawn name m).0
  unfolding disconnect enqueue
  disconnect-Keeps i drawn name m = elim (Option-cases (lookup name m.by_name)) [
    | inl e ↦ rw (disconnect, e) (same-Keeps i m)
    | inr (j, e) ↦
        rw (disconnect, e)
          (then-Keeps i m _ _
            (offer_sealed-Keeps i j (seal p drawn type_close [] (m.heap j).sess) m)
            (drop_conn-Keeps i j _))
  ]

  broadcast-Keeps :
      (i : ℕ) (drawn : ℕ → Option Bytes) (text : Bytes) (l : List (Bytes × ℕ)) (m : Manager)
      → Keeps i m (broadcast p drawn text l m).0
  unfolding broadcast
  broadcast-Keeps i drawn text [] m = same-Keeps i m
  broadcast-Keeps i drawn text ((fp, j) ∷ rest) m =
      then-Keeps i m _ _ (offer_sealed-Keeps i j (seal_chat p (drawn j) text (m.heap j).sess) m)
        (broadcast-Keeps i drawn text rest _)

  write_round-Keeps : (i : ℕ) (up : Bool) (j : ℕ) (m : Manager) → Keeps i m (write_round p up j m)
  unfolding write_round
  write_round-Keeps i up j m =
      if_elim (Keeps i m) (m.heap j).done _ _ (λ e. same-Keeps i m) (λ e. go (m.heap j).queue)
    where
      wrote : List Bytes → Bytes → Bool → Conn
      wrote rest buf b = record (m.heap j) {
        queue = rest;
        written = if b then (m.heap j).written ++ (buf ∷ []) else (m.heap j).written;
      }

      after :
          (buf : Bytes) (rest : List Bytes) (b : Bool)
          → Keeps i m
              (if b then put j (wrote rest buf b) m else drop_conn j (put j (wrote rest buf b) m))
      after buf rest true = put-Keeps i j (wrote rest buf true) m (λ d. d) refl
      after buf rest false =
          then-Keeps i m (put j (wrote rest buf false) m) _
            (put-Keeps i j (wrote rest buf false) m (λ d. d) refl)
            (drop_conn-Keeps i j (put j (wrote rest buf false) m))

      go :
          (q : List Bytes)
          → Keeps i m (elim q as (λ x. Manager) [
            | [] ↦ m
            | buf ∷ rest ↦
                if up
                then put j (wrote rest buf up) m
                else drop_conn j (put j (wrote rest buf up) m)
          ])
      go [] = same-Keeps i m
      go (buf ∷ rest) = after buf rest up

  -- Operations on any connections, but for frames received and ticks, one after another.
  pub data Between (i : ℕ) (m : Manager) : Manager → Type 0 where
    idle : Between i m m
    writing :
        {a : Manager}
        → Between i m a
        → (up : Bool) (j : ℕ) → j < a.count
        → Between i m (write_round p up j a)
    sending :
        {a : Manager}
        → Between i m a
        → (drawn : Option Bytes) (name text : Bytes) → Between i m (send p drawn name text a).0
    disconnecting :
        {a : Manager}
        → Between i m a
        → (drawn : Option Bytes) (name : Bytes) → Between i m (disconnect p drawn name a).0
    broadcasting :
        {a : Manager}
        → Between i m a
        → (drawn : ℕ → Option Bytes) (text : Bytes) (l : List (Bytes × ℕ))
        → Between i m (broadcast p drawn text l a).0
    announcing : {a : Manager} → Between i m a → (j : ℕ) → Between i m (announce j a)

  pub Between-Keeps : {i : ℕ} {m a : Manager} → Between i m a → Keeps i m a
  Between-Keeps {i} {m} idle = same-Keeps i m
  Between-Keeps {i} {m} (writing {a} b up j l) =
      then-Keeps i m a _ (Between-Keeps b) (write_round-Keeps i up j a)
  Between-Keeps {i} {m} (sending {a} b drawn name text) =
      then-Keeps i m a _ (Between-Keeps b) (send-Keeps i drawn name text a)
  Between-Keeps {i} {m} (disconnecting {a} b drawn name) =
      then-Keeps i m a _ (Between-Keeps b) (disconnect-Keeps i drawn name a)
  Between-Keeps {i} {m} (broadcasting {a} b drawn text l) =
      then-Keeps i m a _ (Between-Keeps b) (broadcast-Keeps i drawn text l a)
  Between-Keeps {i} {m} (announcing {a} b j) =
      then-Keeps i m a _ (Between-Keeps b) (announce-Keeps i j a)

  Between-IsWf_rest : {i : ℕ} {m a : Manager} → Between i m a → IsWf m → IsWf a
  Between-IsWf_rest idle w = w
  Between-IsWf_rest (writing {a} b up j l) w = write_round-IsWf p up j a l (Between-IsWf_rest b w)
  Between-IsWf_rest (sending {a} b drawn name text) w =
      send-IsWf p drawn name text a (Between-IsWf_rest b w)
  Between-IsWf_rest (disconnecting {a} b drawn name) w =
      disconnect-IsWf p drawn name a (Between-IsWf_rest b w)
  Between-IsWf_rest (broadcasting {a} b drawn text l) w =
      broadcast-IsWf p drawn text l a (Between-IsWf_rest b w)
  Between-IsWf_rest (announcing {a} b j) w = announce-IsWf j a (Between-IsWf_rest b w)

  pub Between-IsWf :
      {i : ℕ} {m a : Manager} → Between i m a → i < m.count → IsWf m → (i < a.count) × IsWf a
  Between-IsWf b l w = (omega (arith, l, (Between-Keeps b).grows), Between-IsWf_rest b w)
