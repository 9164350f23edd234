-- ===== src/Rendezvous/Client/Resend.antt =====
-- internal/rendezvous/client.go: what a client sends again once its connection is back.
use mathlib.Core.Path.{ap₂}
use xessenger_cli.Prelude.{
  length-set, ℕ, zero, suc, ◌<◌, List, [], ◌∷◌, map, Bool, true, false, none, some, if_elim, length,
  take, drop, All, arith, ◌≡◌, ◌≢◌, inl, inr, refl, sym, ap, subst, ◌∙◌, Bool-cases,
}
use xessenger_cli.Prelude.Assoc.{Map, lookup, IsMap}
use xessenger_cli.Prelude.Bytes.{bytes_eq, bytes_eq_iff}
use xessenger_cli.Crypto.{Bytes}
use xessenger_cli.Relay.Serve.{Codec}
use xessenger_cli.Rendezvous.Messages.{Message}
use xessenger_cli.Rendezvous.Client.Waiters.{
  Waiter, Client, waiter_at, pending_of, request, mark_sent, resend_loop, resend_waiters, connect,
  unsend_all, lose,
}
use xessenger_cli.Rendezvous.Client.Marks.{
  successes, request_of, Unused, IsPlaced, put_sent, Alike, put_sent-Alike, put_sent_other,
  put_sent_here, Unsent, unsend_all-Unsent, unsend_all-Alike, length-unsend_all,
}

pending_of_all : (m : Map ℕ) (made : List Waiter) → Unsent made m → pending_of m made ≡ m
unfolding pending_of
pending_of_all [] made h = refl
pending_of_all ((rid, i) ∷ m) made h = rw (h.0, pending_of_all m made h.1) refl

request-Alike :
    (codec : Codec) (rid : Bytes) (w v : Waiter)
    → Alike w v
    → request codec rid w ≡ request codec rid v
request-Alike codec rid w v h = rw (h.0, h.1) refl

requests-Alike :
    (codec : Codec) (conn : ℕ) (made made' : List Waiter) (ps : List (Bytes × ℕ))
    → ((i : ℕ) → Alike (waiter_at made i) (waiter_at made' i))
    → map (request_of codec conn made) ps ≡ map (request_of codec conn made') ps
requests-Alike codec conn made made' [] h = refl
requests-Alike codec conn made made' ((rid, i) ∷ ps) h =
    ap₂ (λ x xs. (conn, x) ∷ xs)
      (request-Alike codec rid (waiter_at made i) (waiter_at made' i) (h i))
      (requests-Alike codec conn made made' ps h)

resend_loop_sends :
    (codec : Codec) (conn : ℕ) (ps : List (Bytes × ℕ)) (sends : List Bool) (c : Client)
    → (resend_loop codec conn ps sends c).1
      ≡ map (request_of codec conn c.made) (take (successes sends) ps)
unfolding resend_loop mark_sent
resend_loop_sends codec conn [] [] c = refl
resend_loop_sends codec conn [] (false ∷ sends) c = refl
resend_loop_sends codec conn [] (true ∷ sends) c = refl
resend_loop_sends codec conn (p ∷ ps) [] c = refl
resend_loop_sends codec conn ((rid, i) ∷ ps) (false ∷ sends) c = refl
resend_loop_sends codec conn ((rid, i) ∷ ps) (true ∷ sends) c =
    ap (λ xs. (conn, request codec rid (waiter_at c.made i)) ∷ xs)
      (resend_loop_sends codec conn ps sends (mark_sent i c)
        ∙ requests-Alike codec conn (mark_sent i c).made c.made (take (successes sends) ps)
            (put_sent-Alike true c.made i))

sent-set :
    (made : List Waiter) (j i : ℕ)
    → (waiter_at made i).sent ≡ true
    → (waiter_at (put_sent true j made) i).sent ≡ true
sent-set [] j i h = h
sent-set (w ∷ ws) zero zero h = refl
sent-set (w ∷ ws) zero (suc i) h = h
sent-set (w ∷ ws) (suc j) zero h = h
sent-set (w ∷ ws) (suc j) (suc i) h = sent-set ws j i h

resend_loop-sent :
    (codec : Codec) (conn : ℕ) (ps : List (Bytes × ℕ)) (sends : List Bool) (c : Client) (i : ℕ)
    → (waiter_at c.made i).sent ≡ true
    → (waiter_at (resend_loop codec conn ps sends c).0.made i).sent ≡ true
unfolding resend_loop mark_sent
resend_loop-sent codec conn [] sends c i h = h
resend_loop-sent codec conn (p ∷ ps) [] c i h = h
resend_loop-sent codec conn ((rid, j) ∷ ps) (false ∷ sends) c i h = h
resend_loop-sent codec conn ((rid, j) ∷ ps) (true ∷ sends) c i h =
    resend_loop-sent codec conn ps sends (mark_sent j c) i (sent-set c.made j i h)

put_sent-Unsent :
    (made : List Waiter) (i : ℕ) (m : Map ℕ)
    → Unused i m
    → Unsent made m
    → Unsent (put_sent true i made) m
put_sent-Unsent made i [] u h = tt
put_sent-Unsent made i ((rid, j) ∷ m) u h = (
  ap (λ (w : Waiter). w.sent) (put_sent_other true made i j (λ e. u.0 (sym e))) ∙ h.0,
  put_sent-Unsent made i m u.1 h.1,
)

resend_loop_pending :
    (codec : Codec) (conn : ℕ) (ps : Map ℕ) (sends : List Bool) (c : Client)
    → IsPlaced (length c.made) ps
    → Unsent c.made ps
    → pending_of ps (resend_loop codec conn ps sends c).0.made ≡ drop (successes sends) ps
unfolding resend_loop mark_sent pending_of
resend_loop_pending codec conn [] [] c placed h = refl
resend_loop_pending codec conn [] (false ∷ sends) c placed h = refl
resend_loop_pending codec conn [] (true ∷ sends) c placed h = refl
resend_loop_pending codec conn ((rid, i) ∷ ps) [] c placed h =
    pending_of_all ((rid, i) ∷ ps) c.made h
resend_loop_pending codec conn ((rid, i) ∷ ps) (false ∷ sends) c placed h =
    pending_of_all ((rid, i) ∷ ps) c.made h
resend_loop_pending codec conn ((rid, i) ∷ ps) (true ∷ sends) c placed h =
    rw
      (resend_loop-sent codec conn ps sends (mark_sent i c) i
        (put_sent_here true c.made i placed.0))
      (resend_loop_pending codec conn ps sends (mark_sent i c)
        (subst (λ n. IsPlaced n ps) (sym (length-set c.made i _)) placed.2)
        (put_sent-Unsent c.made i ps placed.1 h.1))

-- What is sent again over a new connection, if each waiter in the map has a place of its own.
pub reconnect_resends :
    (codec : Codec) (conn rung : ℕ) (sends : List Bool) (c : Client)
    → IsPlaced (length c.made) c.waiters
    → (let again = resend_waiters codec sends (connect conn rung (lose c)) in
        (again.1 ≡ map (request_of codec conn c.made) (take (successes sends) c.waiters))
        × (pending_of c.waiters again.0.made ≡ drop (successes sends) c.waiters))
unfolding resend_waiters connect lose
reconnect_resends codec conn rung sends c placed = (
  resend_loop_sends codec conn (pending_of c.waiters made) sends up
      ∙ ap (λ ps. map (request_of codec conn made) (take (successes sends) ps)) all
      ∙ requests-Alike codec conn made c.made (take (successes sends) c.waiters)
          (unsend_all-Alike c.waiters c.made),
  ap (λ ps. pending_of c.waiters (resend_loop codec conn ps sends up).0.made) all
      ∙ resend_loop_pending codec conn c.waiters sends up
          (subst (λ n. IsPlaced n c.waiters) (sym (length-unsend_all c.waiters c.made)) placed)
          (unsend_all-Unsent c.waiters c.made),
)
  where
    made : List Waiter
    made = unsend_all c.waiters c.made

    up : Client
    up = connect conn rung (lose c)

    all : pending_of c.waiters made ≡ c.waiters
    all = pending_of_all c.waiters made (unsend_all-Unsent c.waiters c.made)

-- The requests that a list of pending waiters gives have their keys.
abbrev Names : Bytes → List (ℕ × Message) → Type 0
Names rid out = All (λ (x : ℕ × Message). x.1.rendezvous_id ≢ rid) out

requests-Names :
    (codec : Codec) (conn : ℕ) (made : List Waiter) (rid : Bytes) (n : ℕ) (ps : List (Bytes × ℕ))
    → All (λ (e : Bytes × ℕ). e.0 ≢ rid) ps
    → Names rid (map (request_of codec conn made) (take n ps))
requests-Names codec conn made rid zero ps h = tt
requests-Names codec conn made rid (suc n) [] h = tt
requests-Names codec conn made rid (suc n) ((k, i) ∷ ps) h =
    (h.0, requests-Names codec conn made rid n ps h.1)

lookup-none-Names :
    (rid : Bytes) (m : Map ℕ) → lookup rid m ≡ none → All (λ (e : Bytes × ℕ). e.0 ≢ rid) m
unfolding lookup
lookup-none-Names rid [] h = tt
lookup-none-Names rid ((k, i) ∷ m) h =
    (ground (arith, h, bytes_eq_iff k rid), lookup-none-Names rid m (ground (arith, h)))

pending_of-Names :
    (rid : Bytes) (m : Map ℕ) (made : List Waiter)
    → All (λ (e : Bytes × ℕ). e.0 ≢ rid) m
    → All (λ (e : Bytes × ℕ). e.0 ≢ rid) (pending_of m made)
unfolding pending_of
pending_of-Names rid [] made h = tt
pending_of-Names rid ((k, i) ∷ m) made h =
    if_elim (All (λ (e : Bytes × ℕ). e.0 ≢ rid)) (waiter_at made i).sent _ _
      (λ e. pending_of-Names rid m made h.1) (λ e. (h.0, pending_of-Names rid m made h.1))

pending_of_sent :
    (rid : Bytes) (i : ℕ) (m : Map ℕ) (made : List Waiter)
    → IsMap m
    → lookup rid m ≡ some i
    → (waiter_at made i).sent ≡ true
    → All (λ (e : Bytes × ℕ). e.0 ≢ rid) (pending_of m made)
unfolding pending_of lookup IsMap
pending_of_sent rid i [] made h e t = tt
pending_of_sent rid i ((k, j) ∷ m) made h e t = elim (Bool-cases (bytes_eq k rid)) [
  | inl f ↦
      let same : k ≡ rid = (bytes_eq_iff k rid).0 f in
      let place : j ≡ i = ground (arith, e, f) in
      rw (ap (λ n. (waiter_at made n).sent) place ∙ t) (
        pending_of-Names rid m made
          (lookup-none-Names rid m (ap (λ x. lookup x m) (sym same) ∙ h.0)))
  | inr f ↦
      let rest = pending_of_sent rid i m made h.1 (ground (arith, e, f)) t in
      if_elim (All (λ (e : Bytes × ℕ). e.0 ≢ rid)) (waiter_at made j).sent _ _ (λ d. rest)
        (λ d. (ground (arith, f, bytes_eq_iff k rid), rest))
]

-- The mark that `resendWaiters` sets after a send can come after the connection was lost and the marks were cleared: then the rendezvous is not sent again over the next connection, however its sends end, though it is still outstanding.
pub late_mark_forgets :
    (codec : Codec) (conn rung : ℕ) (sends : List Bool) (c : Client) (rid : Bytes) (i : ℕ)
    → IsMap c.waiters
    → lookup rid c.waiters ≡ some i
    → i < length c.made
    → (let next = connect conn rung (mark_sent i (lose c)) in
        (lookup rid next.waiters ≡ some i) × Names rid (resend_waiters codec sends next).1)
unfolding resend_waiters connect lose mark_sent
late_mark_forgets codec conn rung sends c rid i h e place = (
  e,
  subst (Names rid) (sym (resend_loop_sends codec conn ps sends next)) (
      requests-Names codec conn made rid (successes sends) ps (
        pending_of_sent rid i c.waiters made h e (
          put_sent_here true (unsend_all c.waiters c.made) i
            (subst (λ n. i < n) (sym (length-unsend_all c.waiters c.made)) place)))),
)
  where
    made : List Waiter
    made = put_sent true i (unsend_all c.waiters c.made)

    next : Client
    next = connect conn rung (mark_sent i (lose c))

    ps : List (Bytes × ℕ)
    ps = pending_of c.waiters made
