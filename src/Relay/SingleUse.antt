-- ===== src/Relay/SingleUse.antt =====
-- internal/relay/server.go: codes and tickets after they are taken, and after they expire.
use xessenger_cli.Prelude.{ℕ, ◌-◌, ◌≤◌, ◌<◌, List, [], ◌∷◌, Bool, true, ltb, All, none, some}
use xessenger_cli.Prelude.{Result, ok, err, arith, ◌≡◌, ◌≢◌, refl, ap, lt→ltb}
use xessenger_cli.Prelude.Assoc.{
  Map, lookup, insert, delete, delete_if, lookup-insert, lookup-delete, lookup-delete_self,
}
use xessenger_cli.Prelude.Bytes.{bytes_eq_iff}
use xessenger_cli.Crypto.{Bytes}
use xessenger_cli.Relay.Limits.{Limits}
use xessenger_cli.Relay.State.{
  Server, Circuit, TicketRef, PendingCode, Error, no_such_code, at_capacity, circuit_at,
}
use xessenger_cli.Relay.State.{
  add_pending, drop_pending, claim, release_circuit, release_once, issue, redeem, join, acquire_ip,
  release_ip, reap,
}
use xessenger_cli.Relay.Sections.{
  Running, Section, step, run, claimed, publishes, drops, claims, issues, gives_up, redeems, joins,
  ends, acquires, releases, reaps,
}

module _ {ℓ} {V : Type ℓ} where
  lookup-insert_ne :
      (k j : Bytes) (v : V) (m : Map V) → k ≢ j → lookup j m ≡ none → lookup j (insert k v m) ≡ none
  lookup-insert_ne k j v m ne e = ground (arith, bytes_eq_iff k j, lookup-insert k j v m)

  lookup-delete-none : (k j : Bytes) (m : Map V) → lookup j m ≡ none → lookup j (delete k m) ≡ none
  lookup-delete-none k j m e = ground (arith, lookup-delete k j m)

  lookup-delete_if-none :
      (test : V → Bool) (j : Bytes) (m : Map V)
      → lookup j m ≡ none
      → lookup j (delete_if test m) ≡ none
  unfolding lookup delete_if
  lookup-delete_if-none test j [] e = refl
  lookup-delete_if-none test j ((i, w) ∷ m) e = ground (arith, e, lookup-delete_if-none test j m)

-- The section does not publish the code; it does not issue the ticket.
abbrev pub Spares : Bytes → Section → Type 0
Spares rid (publishes now r conn sealed observed) = r ≢ rid
Spares rid (drops r conn) = Unit
Spares rid (claims r conn) = Unit
Spares rid (issues now a b) = Unit
Spares rid gives_up = Unit
Spares rid (redeems t) = Unit
Spares rid (joins conn ref) = Unit
Spares rid (ends c) = Unit
Spares rid (acquires ip) = Unit
Spares rid (releases ip) = Unit
Spares rid (reaps now) = Unit

-- No one has the code published.
abbrev Absent : Bytes → Running → Type 0
Absent rid r = lookup rid r.server.pending ≡ none

drop_absent :
    (rid r : Bytes) (conn : ℕ) (s : Server)
    → lookup rid s.pending ≡ none
    → lookup rid (drop_pending r conn s).pending ≡ none
unfolding drop_pending
drop_absent rid r conn s e = ground (arith, e, lookup-delete-none r rid s.pending e)

claim_absent :
    (limits : Limits) (rid r : Bytes) (conn : ℕ) (s : Server)
    → lookup rid s.pending ≡ none
    → lookup rid (claim limits r conn s).0.pending ≡ none
unfolding claim
claim_absent limits rid r conn s e = ground (arith, e, lookup-delete-none r rid s.pending e)

-- A claim that succeeds leaves no such code.
claim_takes :
    (limits : Limits) (rid : Bytes) (conn : ℕ) (s : Server) (p : PendingCode)
    → (claim limits rid conn s).1 ≡ ok p
    → lookup rid (claim limits rid conn s).0.pending ≡ none
unfolding claim
claim_takes limits rid conn s p e = ground (arith, e, lookup-delete_self rid s.pending)

claimed-Absent :
    (rid : Bytes) (r : Running) (x : Server × Result Error PendingCode)
    → lookup rid x.0.pending ≡ none
    → Absent rid (claimed r x)
claimed-Absent rid r (s, ok p) e = e
claimed-Absent rid r (s, err x) e = e

step-Absent :
    (limits : Limits) (rid : Bytes) (r : Running) (e : Section)
    → Spares rid e
    → Absent rid r
    → Absent rid (step limits r e)
unfolding step add_pending issue release_circuit redeem join release_once acquire_ip release_ip reap
step-Absent limits rid r (publishes now rid' conn sealed observed) ne h =
    let p : PendingCode = record {
      conn = conn;
      sealed = sealed;
      observed = observed;
      created = now;
    } in
    ground (arith, h, lookup-insert_ne rid' rid p r.server.pending ne h)
step-Absent limits rid r (drops rid' conn) t h = drop_absent rid rid' conn r.server h
step-Absent limits rid r (claims rid' conn) t h =
    claimed-Absent rid r (claim limits rid' conn r.server)
      (claim_absent limits rid rid' conn r.server h)
step-Absent limits rid r (issues now a b) t h = ground (arith, h)
step-Absent limits rid r gives_up t h = ground (arith, h)
step-Absent limits rid r (redeems ticket) t h = ground (arith, h)
step-Absent limits rid r (joins conn ref) t h = ground (arith, h)
step-Absent limits rid r (ends c) t h = ground (arith, h)
step-Absent limits rid r (acquires ip) t h = ground (arith, h)
step-Absent limits rid r (releases ip) t h = ground (arith, h)
step-Absent limits rid r (reaps now) t h =
    lookup-delete_if-none (λ p. ltb limits.code_ttl (now - p.created)) rid r.server.pending h

run-Absent :
    (limits : Limits) (rid : Bytes) (r : Running) (es : List Section)
    → All (Spares rid) es
    → Absent rid r
    → Absent rid (run limits r es)
unfolding run
run-Absent limits rid r [] t h = h
run-Absent limits rid r (e ∷ es) t h =
    run-Absent limits rid (step limits r e) es t.1 (step-Absent limits rid r e t.0 h)

-- A code that was claimed is not claimed again by anyone: whatever critical sections run in between, if none publishes the code anew, the next claim of it finds no such code and changes nothing.
pub claim_once :
    (limits : Limits) (rid : Bytes) (conn conn' : ℕ) (r : Running) (p : PendingCode)
    (es : List Section)
    → (claim limits rid conn r.server).1 ≡ ok p
    → All (Spares rid) es
    → (let after = (run limits (claimed r (claim limits rid conn r.server)) es).server in
        claim limits rid conn' after ≡ (after, err no_such_code))
unfolding claim
claim_once limits rid conn conn' r p es won spares =
    let gone = run-Absent limits rid (claimed r (claim limits rid conn r.server)) es spares (
      claimed-Absent rid r (claim limits rid conn r.server)
        (claim_takes limits rid conn r.server p won)) in
    rw (claim, gone) refl

delete_if-All {ℓ} :
    {V : Type ℓ} (test : V → Bool) (m : Map V)
    → All (λ (x : Bytes × V). test x.1 ≡ true) m
    → delete_if test m ≡ []
unfolding delete_if
delete_if-All test [] h = refl
delete_if-All test ((j, w) ∷ m) h = rw h.0 (delete_if-All test m h.1)

redeem_missing :
    (ticket : Bytes) (s : Server) → lookup ticket s.tickets ≡ none → (redeem ticket s).1 ≡ none
unfolding redeem
redeem_missing ticket s e = ground (arith, e)

claim_full :
    (limits : Limits) (rid : Bytes) (conn : ℕ) (s : Server) (p : PendingCode)
    → lookup rid s.pending ≡ some p
    → p.conn ≢ conn
    → limits.max_circuits ≤ s.circuits
    → (claim limits rid conn s).1 ≡ err at_capacity
unfolding claim
claim_full limits rid conn s p e ne full = ground (arith, e, ne, full)

old_tickets :
    (limits : Limits) (now : ℕ) (pipes : List Circuit) (m : Map TicketRef)
    → All
        (λ (t : Bytes × TicketRef). limits.code_ttl < now - (circuit_at pipes t.1.circuit).created)
        m
    → All
        (λ (t : Bytes × TicketRef).
          ltb limits.code_ttl (now - (circuit_at pipes t.1.circuit).created) ≡ true)
        m
old_tickets limits now pipes [] h = tt
old_tickets limits now pipes (t ∷ m) h = (
  lt→ltb limits.code_ttl (now - (circuit_at pipes t.1.circuit).created) h.0,
  old_tickets limits now pipes m h.1,
)

-- When every ticket is older than the code TTL, the circuit counter is at its maximum, and a code is pending after a sweep of `reap` that another connection published, then after that sweep no ticket can be redeemed, the circuit counter is what it was, and the claim of that code is refused for want of capacity.
pub reap_keeps_slots :
    (limits : Limits) (now : ℕ) (s : Server) (ticket rid : Bytes) (conn : ℕ) (p : PendingCode)
    → All
        (λ (t : Bytes × TicketRef).
          limits.code_ttl < now - (circuit_at s.pipes t.1.circuit).created)
        s.tickets
    → limits.max_circuits ≤ s.circuits
    → lookup rid (reap limits now s).pending ≡ some p
    → p.conn ≢ conn
    → ((redeem ticket (reap limits now s)).1 ≡ none)
      × ((reap limits now s).circuits ≡ s.circuits)
      × ((claim limits rid conn (reap limits now s)).1 ≡ err at_capacity)
unfolding reap lookup
reap_keeps_slots limits now s ticket rid conn p old full held other = (
  redeem_missing ticket (reap limits now s) (ap (lookup ticket) emptied),
  refl,
  claim_full limits rid conn (reap limits now s) p held other full,
)
  where
    emptied : (reap limits now s).tickets ≡ []
    emptied =
        delete_if-All
          (λ (t : TicketRef). ltb limits.code_ttl (now - (circuit_at s.pipes t.circuit).created))
          s.tickets (old_tickets limits now s.pipes s.tickets old)
