-- ===== src/Rendezvous/Client/Places.antt =====
-- internal/rendezvous/client.go: the map of a client's waiters over its runs.
use xessenger_cli.Prelude.{
  length-set, ℕ, ◌≤◌, ◌<◌, List, [], ◌∷◌, ◌++◌, Bool, true, false, Option, none, if_elim, length,
  set, arith, ◌≡◌, ◌≢◌, inl, inr, refl, sym, subst, Bool-cases, Option-cases, length-append,
}
use xessenger_cli.Prelude.Assoc.{
  Map, lookup, insert, delete, IsMap, insert-IsMap, delete-IsMap, All-delete, All-insert,
}
use xessenger_cli.Prelude.Bytes.{bytes_eq}
use xessenger_cli.Crypto.{Bytes}
use xessenger_cli.Relay.Serve.{Codec}
use xessenger_cli.Rendezvous.Messages.{Message, msg_published, msg_paired, msg_error}
use xessenger_cli.Rendezvous.Client.Waiters.{
  Waiter, Client, new_client, new_waiter, waiter_at, put_published, put_paired, deliver, dispatch,
  pending_of, mark_sent, resend_loop, resend_waiters, add_waiter, unregister, connect, lose, close,
  message, await, take_published, take_paired,
}
use xessenger_cli.Rendezvous.Client.Marks.{IsPlaced, Unused, length-unsend_all}
use xessenger_cli.Rendezvous.Client.Events.{
  Event, registers, resends, marks, cancels, connects, loses, receives, takes_published,
  takes_paired, closes, after_await, step, run,
}

-- The keys and the places of the map are distinct, and every place is that of a waiter made.
pub record IsWf (c : Client) : Type 0 where
  pub keys : IsMap c.waiters
  pub places : IsPlaced (length c.made) c.waiters

IsPlaced-mono : (n k : ℕ) (m : Map ℕ) → n ≤ k → IsPlaced n m → IsPlaced k m
IsPlaced-mono n k [] le h = tt
IsPlaced-mono n k ((rid, i) ∷ m) le h = (omega (arith, h.0), h.1, IsPlaced-mono n k m le h.2)

delete-IsPlaced : (n : ℕ) (rid : Bytes) (m : Map ℕ) → IsPlaced n m → IsPlaced n (delete rid m)
unfolding delete
delete-IsPlaced n rid [] h = tt
delete-IsPlaced n rid ((k, i) ∷ m) h =
    if_elim (IsPlaced n) (bytes_eq k rid) _ _ (λ e. delete-IsPlaced n rid m h.2)
      (λ e. (h.0, All-delete (λ (x : Bytes × ℕ). x.1 ≢ i) rid m h.1, delete-IsPlaced n rid m h.2))

pub placed-Unused : (n : ℕ) (m : Map ℕ) → IsPlaced n m → Unused n m
placed-Unused n [] h = tt
placed-Unused n ((k, i) ∷ m) h = (λ e. absurd (omega (arith, h.0, e)), placed-Unused n m h.2)

insert-IsPlaced :
    (n k : ℕ) (rid : Bytes) (m : Map ℕ)
    → k < n
    → lookup rid m ≡ none
    → Unused k m
    → IsPlaced n m
    → IsPlaced n (insert rid k m)
unfolding insert lookup
insert-IsPlaced n k rid [] lt e u h = (lt, tt, tt)
insert-IsPlaced n k rid ((j, i) ∷ m) lt e u h = elim (Bool-cases (bytes_eq j rid)) [
  | inl f ↦ absurd (ground (arith, e, f))
  | inr f ↦ rw f (
    h.0,
    All-insert (λ (x : Bytes × ℕ). x.1 ≢ i) rid k m h.1 (λ d. u.0 (sym d)),
    insert-IsPlaced n k rid m lt (ground (arith, e, f)) u.1 h.2,
  )
]

-- A step that leaves the map keeps the invariant, if it makes no waiter fewer.
kept : (c c' : Client) → c'.waiters ≡ c.waiters → length c.made ≤ length c'.made → IsWf c → IsWf c'
kept c c' e le h = record {
  keys = subst IsMap (sym e) h.keys;
  places = subst (IsPlaced (length c'.made)) (sym e) (IsPlaced-mono _ _ c.waiters le h.places);
}

kept_set : (c : Client) (i : ℕ) (w : Waiter) → IsWf c → IsWf (record c { made = set c.made i w })
kept_set c i w h =
    kept c (record c { made = set c.made i w }) refl (omega (arith, length-set c.made i w)) h

deliver-IsWf : (f : Waiter → Waiter) (rid : Bytes) (c : Client) → IsWf c → IsWf (deliver f rid c)
unfolding deliver
deliver-IsWf f rid c h = elim (Option-cases (lookup rid c.waiters)) [
  | inl e ↦ rw (deliver, e) h
  | inr (i, e) ↦ rw (deliver, e) (kept_set c i (f (waiter_at c.made i)) h)
]

dispatch-IsWf : (msg : Message) (c : Client) → IsWf c → IsWf (dispatch msg c)
unfolding dispatch
dispatch-IsWf msg c h =
    if_elim IsWf (bytes_eq msg.kind msg_published) _ _
      (λ e. deliver-IsWf (put_published msg) msg.rendezvous_id _ (
        if_elim IsWf (bytes_eq msg.observed []) _ _ (λ d. h)
          (λ d. record { keys = h.keys; places = h.places })))
      (λ e.
        if_elim IsWf (bytes_eq msg.kind msg_paired) _ _
          (λ d. deliver-IsWf (put_paired msg) msg.rendezvous_id c h)
          (λ d.
            if_elim IsWf (bytes_eq msg.kind msg_error) _ _
              (λ d'. deliver-IsWf (λ w. put_paired msg (put_published msg w)) msg.rendezvous_id c h)
              (λ d'. h)))

resend_loop-IsWf :
    (codec : Codec) (conn : ℕ) (ps : List (Bytes × ℕ)) (sends : List Bool) (c : Client)
    → IsWf c
    → IsWf (resend_loop codec conn ps sends c).0
unfolding resend_loop mark_sent
resend_loop-IsWf codec conn [] sends c h = h
resend_loop-IsWf codec conn (p ∷ ps) [] c h = h
resend_loop-IsWf codec conn ((k, j) ∷ ps) (false ∷ sends) c h = h
resend_loop-IsWf codec conn ((k, j) ∷ ps) (true ∷ sends) c h =
    resend_loop-IsWf codec conn ps sends (mark_sent j c) (kept_set c j _ h)

resend_waiters-IsWf :
    (codec : Codec) (sends : List Bool) (c : Client)
    → IsWf c
    → IsWf (resend_waiters codec sends c).0
unfolding resend_waiters
resend_waiters-IsWf codec sends c h = elim (Option-cases c.conn) [
  | inl e ↦ rw (resend_waiters, e) h
  | inr (conn, e) ↦
      rw (resend_waiters, e) (resend_loop-IsWf codec conn (pending_of c.waiters c.made) sends c h)
]

add_waiter-IsWf : (rid : Bytes) (w : Waiter) (c : Client) → IsWf c → IsWf (add_waiter rid w c).0
unfolding add_waiter
add_waiter-IsWf rid w c h = elim (Option-cases (lookup rid c.waiters)) [
  | inr (j, e) ↦ rw (add_waiter, e) h
  | inl e ↦
      let more : length c.made < length (c.made ++ (w ∷ [])) =
        omega (arith, length-append c.made (w ∷ [])) in
      rw (add_waiter, e)
        (record {
          keys = insert-IsMap rid (length c.made) c.waiters h.keys;
          places =
              insert-IsPlaced (length (c.made ++ (w ∷ []))) (length c.made) rid c.waiters more e
                (placed-Unused (length c.made) c.waiters h.places)
                (IsPlaced-mono _ _ c.waiters (omega (arith, more)) h.places);
        })
]

await-IsWf :
    (channel : Waiter → Option Message) (taken : Waiter → Waiter) (i : ℕ) (c : Client)
    → IsWf c
    → IsWf (after_await (await message channel taken i c) c)
unfolding await
await-IsWf channel taken i c h = elim (Option-cases (channel (waiter_at c.made i))) [
  | inl e ↦ rw (await, e) h
  | inr (msg, e) ↦ rw (await, e) (kept_set c i (taken (waiter_at c.made i)) h)
]

step-IsWf : (e : Event) (c : Client) → IsWf c → IsWf (step e c)
unfolding step unregister connect close lose mark_sent
step-IsWf (registers rid sealed claims) c h = add_waiter-IsWf rid (new_waiter sealed claims) c h
step-IsWf (resends codec sends) c h = resend_waiters-IsWf codec sends c h
step-IsWf (marks i) c h = kept_set c i _ h
step-IsWf (cancels rid) c h = record {
  keys = delete-IsMap rid c.waiters h.keys;
  places = delete-IsPlaced (length c.made) rid c.waiters h.places;
}
step-IsWf (connects conn rung) c h = record { keys = h.keys; places = h.places }
step-IsWf loses c h = kept c (lose c) refl (omega (arith, length-unsend_all c.waiters c.made)) h
step-IsWf (receives msg) c h = dispatch-IsWf msg c h
step-IsWf (takes_published i) c h = await-IsWf (λ w. w.published) take_published i c h
step-IsWf (takes_paired i) c h = await-IsWf (λ w. w.paired) take_paired i c h
step-IsWf closes c h = record { keys = h.keys; places = h.places }

pub run-IsWf : (es : List Event) (c : Client) → IsWf c → IsWf (run es c)
unfolding run
run-IsWf [] c h = h
run-IsWf (e ∷ es) c h = run-IsWf es (step e c) (step-IsWf e c h)

pub new_client-IsWf : IsWf new_client
unfolding IsMap
new_client-IsWf = record { keys = tt; places = tt }
