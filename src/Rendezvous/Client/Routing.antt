-- ===== src/Rendezvous/Client/Routing.antt =====
-- internal/rendezvous/client.go: the messages that reach a registered waiter.
use xessenger_cli.Prelude.{
  ℕ, List, [], ◌∷◌, Bool, ok, length, All, arith, ◌≡◌, inl, inr, refl, sym, subst, Option-cases,
  length-append,
}
use xessenger_cli.Prelude.Assoc.{Map, lookup, All-insert}
use xessenger_cli.Crypto.{Bytes}
use xessenger_cli.Rendezvous.Client.Waiters.{Client, new_client, new_waiter, waiter_at, add_waiter}
use xessenger_cli.Rendezvous.Client.Marks.{Unused}
use xessenger_cli.Rendezvous.Client.Events.{Event, run}
use xessenger_cli.Rendezvous.Client.Ownership.{Hears, Owns, waiter_at_end, run-Owns}
use xessenger_cli.Rendezvous.Client.Places.{IsWf, placed-Unused, run-IsWf, new_client-IsWf}

placed-keyed :
    (rid : Bytes) (n : ℕ) (m : Map ℕ) → Unused n m → All (λ (e : Bytes × ℕ). e.1 ≡ n → e.0 ≡ rid) m
placed-keyed rid n [] h = tt
placed-keyed rid n ((k, j) ∷ m) h = (λ e. absurd (h.0 e), placed-keyed rid n m h.1)

-- The waiter that a registration makes belongs to its key.
pub add_waiter-Owns_new :
    (rid sealed : Bytes) (claims : Bool) (c : Client) (i : ℕ)
    → IsWf c
    → (add_waiter rid (new_waiter sealed claims) c).1 ≡ ok i
    → Owns rid i (add_waiter rid (new_waiter sealed claims) c).0
unfolding add_waiter
add_waiter-Owns_new rid sealed claims c i h e = elim (Option-cases (lookup rid c.waiters)) [
  | inr (j, f) ↦ absurd (ground (arith, e, f))
  | inl f ↦
      let place : i ≡ length c.made = ground (arith, e, f) in
      rw (add_waiter, f, place)
        (record {
          placed = omega (arith, length-append c.made (new_waiter sealed claims ∷ []));
          hears =
              subst (Hears rid) (sym (waiter_at_end c.made (new_waiter sealed claims))) (tt, tt);
          keyed =
              All-insert (λ (x : Bytes × ℕ). x.1 ≡ length c.made → x.0 ≡ rid) rid (length c.made)
                c.waiters
                (placed-keyed rid (length c.made) c.waiters
                  (placed-Unused (length c.made) c.waiters h.places))
                (λ d. refl);
        })
]

-- Whatever the client did before and does after it made a waiter for a rendezvous id, in any order of its goroutines' sections and whatever the relay sends, the waiter's channels hold only messages that bear that id. This covers a waiter whose code was cancelled, or registered again.
pub registered-Hears :
    (es es' : List Event) (rid sealed : Bytes) (claims : Bool) (i : ℕ)
    → (add_waiter rid (new_waiter sealed claims) (run es new_client)).1 ≡ ok i
    → Hears rid (
        waiter_at
          (run es' (add_waiter rid (new_waiter sealed claims) (run es new_client)).0).made
          i)
registered-Hears es es' rid sealed claims i e =
    (run-Owns rid i es' (add_waiter rid (new_waiter sealed claims) (run es new_client)).0 (
      add_waiter-Owns_new rid sealed claims (run es new_client) i
        (run-IsWf es new_client new_client-IsWf) e)).hears
