-- ===== src/Relay/Ceilings.antt =====
-- internal/relay/server.go: the relay's counts when its critical sections run in any order.
use xessenger_cli.Prelude.{
  ℕ, ◌+◌, ◌-◌, ◌≤◌, ◌<◌, List, [], ◌∷◌, true, ltb, leb, none, some, length, set,
}
use xessenger_cli.Prelude.{
  Result, ok, err, if◌then◌else◌, if_elim, ltb→lt, ◌==◌, ◌&&◌, not, arith, ◌≡◌, refl, sym, subst,
  inl, inr, Option-cases, Bool-cases,
}
use xessenger_cli.Prelude.Assoc.{
  lookup, insert, delete, length-insert, length-delete, length-delete_if, All-insert, All-delete,
  All-lookup,
}
use xessenger_cli.Crypto.{Bytes}
use xessenger_cli.Relay.Limits.{Limits}
use xessenger_cli.Relay.State.{
  Server, Circuit, TicketRef, PendingCode, Error, new, new_circuit, circuit_at, conns_of,
}
use xessenger_cli.Relay.State.{
  add_pending, drop_pending, claim, no_such_code, own_code, at_capacity, release_circuit,
  release_once, issue, redeem, join, put_side, other_there, acquire_ip, release_ip, reap,
}
use xessenger_cli.Relay.Sections.{
  Section, publishes, drops, claims, issues, gives_up, redeems, joins, ends, acquires, releases,
  reaps, Running, with_server, claimed, step, run, live, live-append, live-set, Sound, same_slots,
}

module _ (limits : Limits) (r : Running) (h : Sound limits r) where
  pub publishes-Sound :
      (now conn : ℕ) (rid sealed observed : Bytes)
      → Sound limits (with_server r (add_pending limits now rid conn sealed observed r.server).0)
  unfolding add_pending
  publishes-Sound now conn rid sealed observed =
      let p : PendingCode = record {
        conn = conn;
        sealed = sealed;
        observed = observed;
        created = now;
      } in
      elim (Bool-cases (leb limits.max_pending_codes (length r.server.pending))) [
        | inl e ↦ rw e h
        | inr e ↦ rw e (
            same_slots limits r (record r.server { pending = insert rid p r.server.pending }) h refl
              refl (ground (arith, e, length-insert rid p r.server.pending)) refl)
      ]

  pub fewer_pending :
      (rid : Bytes) → length (delete rid r.server.pending) ≤ limits.max_pending_codes
  fewer_pending rid = ground (arith, length-delete rid r.server.pending, h.pending_le)

  drops-Sound :
      (rid : Bytes) (conn : ℕ) → Sound limits (with_server r (drop_pending rid conn r.server))
  unfolding drop_pending
  drops-Sound rid conn = elim (Option-cases (lookup rid r.server.pending)) [
    | inl e ↦ rw (e, drop_pending) h
    | inr (p, e) ↦
        rw (e, drop_pending)
          (if_elim (λ s. Sound limits (with_server r s)) (p.conn == conn) _ _
            (λ d.
              same_slots limits r (record r.server { pending = delete rid r.server.pending }) h refl
                refl (fewer_pending rid) refl)
            (λ d. h))
  ]

  pub claims-Sound :
      (rid : Bytes) (conn : ℕ) → Sound limits (claimed r (claim limits rid conn r.server))
  unfolding claim
  claims-Sound rid conn = elim (Option-cases (lookup rid r.server.pending)) [
    | inl e ↦ subst (λ x. Sound limits (claimed r x)) (sym (claim_missing e)) h
    | inr (p, e) ↦ subst (λ x. Sound limits (claimed r x)) (sym (claim_found p e)) (found p)
  ]
    where
      taken : PendingCode → Server × Result Error PendingCode
      taken p =
          if p.conn == conn
          then (r.server, err own_code)
          else if leb limits.max_circuits r.server.circuits
          then (r.server, err at_capacity)
          else (
            record r.server {
              pending = delete rid r.server.pending;
              circuits = r.server.circuits + 1;
            },
            ok p,
          )

      claim_missing :
          lookup rid r.server.pending ≡ none
          → claim limits rid conn r.server ≡ (r.server, err no_such_code)
      claim_missing e = rw (claim, e) refl

      claim_found :
          (p : PendingCode)
          → lookup rid r.server.pending ≡ some p
          → claim limits rid conn r.server ≡ taken p
      claim_found p e = rw (claim, e) refl

      found : (p : PendingCode) → Sound limits (claimed r (taken p))
      found p =
          if_elim (λ s. Sound limits (claimed r s)) (p.conn == conn) _ _ (λ d. h)
            (λ d.
              if_elim (λ s. Sound limits (claimed r s)) (leb limits.max_circuits r.server.circuits)
                _ _ (λ d. h)
                (λ d. record {
                  balanced = ground (arith, h.balanced);
                  circuits_le = ground (arith, d);
                  pending_le = fewer_pending rid;
                  conns_le = h.conns_le;
                }))

  pub issues-Sound :
      (now : ℕ) (a b : Bytes)
      → 0 < r.claiming
      → Sound limits (record { server = (issue now a b r.server).0; claiming = r.claiming - 1 })
  unfolding issue live
  issues-Sound now a b some_claim = record {
    balanced =
        ground (arith, some_claim, h.balanced, live-append r.server.pipes (new_circuit now ∷ []));
    circuits_le = h.circuits_le;
    pending_le = h.pending_le;
    conns_le = h.conns_le;
  }

  pub gives_up-Sound :
      0 < r.claiming
      → Sound limits (record { server = release_circuit r.server; claiming = r.claiming - 1 })
  unfolding release_circuit
  gives_up-Sound some_claim = elim (Bool-cases (ltb 0 r.server.circuits)) [
    | inl e ↦ rw e record {
      balanced = ground (arith, some_claim, h.balanced);
      circuits_le = ground (arith, h.circuits_le);
      pending_le = h.pending_le;
      conns_le = h.conns_le;
    }
    | inr e ↦ absurd (ground (arith, some_claim, e, h.balanced))
  ]

  pub redeems-Sound : (ticket : Bytes) → Sound limits (with_server r (redeem ticket r.server).0)
  unfolding redeem
  redeems-Sound ticket = elim (Option-cases (lookup ticket r.server.tickets)) [
    | inl e ↦ rw (e, redeem) h
    | inr (t, e) ↦
        rw (e, redeem)
          (same_slots limits r (record r.server { tickets = delete ticket r.server.tickets }) h refl
            refl h.pending_le refl)
  ]

  pub joins-Sound :
      (conn : ℕ) (ref : TicketRef)
      → ref.circuit < length r.server.pipes
      → Sound limits (with_server r (join conn ref r.server).0)
  unfolding join
  joins-Sound conn ref place =
      same_slots limits r (join conn ref r.server).0 h refl
        (ground (arith, live-set r.server.pipes ref.circuit joined (new_circuit 0) place, kept))
        h.pending_le refl
    where
      c : Circuit
      c = put_side ref.side conn (circuit_at r.server.pipes ref.circuit)

      joined : Circuit
      joined = if other_there ref.side c && not c.started then record c { started = true } else c

      kept : joined.released ≡ (circuit_at r.server.pipes ref.circuit).released
      kept = ground arith

  pub ends-Sound :
      (c : ℕ) → c < length r.server.pipes → Sound limits (with_server r (release_once c r.server))
  unfolding release_once release_circuit
  ends-Sound c place = elim (Bool-cases (circuit_at r.server.pipes c).released) [
    | inl e ↦ rw e h
    | inr e ↦
        let ended : Circuit = record (circuit_at r.server.pipes c) { released = true } in
        let fewer : live (set r.server.pipes c ended) + 1 ≡ live r.server.pipes =
          ground (arith, e, live-set r.server.pipes c ended (new_circuit 0) place) in
        let some_circuit : ltb 0 r.server.circuits ≡ true = ground (arith, fewer, h.balanced) in
        rw (e, some_circuit)
          record {
            balanced = ground (arith, fewer, h.balanced, some_circuit);
            circuits_le = ground (arith, h.circuits_le);
            pending_le = h.pending_le;
            conns_le = h.conns_le;
          }
  ]

  conns_of-le : (ip : Bytes) → conns_of ip r.server.ip_conns ≤ limits.max_conns_per_ip
  conns_of-le ip = elim (Option-cases (lookup ip r.server.ip_conns)) [
    | inl e ↦ ground (arith, e)
    | inr (n, e) ↦ ground (
      arith,
      e,
      All-lookup (λ (c : List ℕ × ℕ). c.1 ≤ limits.max_conns_per_ip) ip r.server.ip_conns n
          h.conns_le e,
    )
  ]

  acquires-Sound : (ip : Bytes) → Sound limits (with_server r (acquire_ip limits ip r.server).0)
  unfolding acquire_ip
  acquires-Sound ip =
      let n = conns_of ip r.server.ip_conns in
      elim (Bool-cases (leb limits.max_conns_per_ip n)) [
        | inl e ↦ rw e h
        | inr e ↦ rw e record {
          balanced = h.balanced;
          circuits_le = h.circuits_le;
          pending_le = h.pending_le;
          conns_le =
              All-insert (λ (e : List ℕ × ℕ). e.1 ≤ limits.max_conns_per_ip) ip (n + 1)
                r.server.ip_conns h.conns_le (ground (arith, e));
        }
      ]

  releases-Sound : (ip : Bytes) → Sound limits (with_server r (release_ip ip r.server))
  unfolding release_ip
  releases-Sound ip =
      let n = conns_of ip r.server.ip_conns in
      elim (Bool-cases (leb n 1)) [
        | inl e ↦ rw e record {
          balanced = h.balanced;
          circuits_le = h.circuits_le;
          pending_le = h.pending_le;
          conns_le =
              All-delete (λ (e : List ℕ × ℕ). e.1 ≤ limits.max_conns_per_ip) ip r.server.ip_conns
                h.conns_le;
        }
        | inr e ↦ rw e record {
          balanced = h.balanced;
          circuits_le = h.circuits_le;
          pending_le = h.pending_le;
          conns_le =
              All-insert (λ (e : List ℕ × ℕ). e.1 ≤ limits.max_conns_per_ip) ip (n - 1)
                r.server.ip_conns h.conns_le (ground (arith, conns_of-le ip));
        }
      ]

  reaps-Sound : (now : ℕ) → Sound limits (with_server r (reap limits now r.server))
  unfolding reap
  reaps-Sound now =
      same_slots limits r (reap limits now r.server) h refl refl
        (ground (
          arith,
          length-delete_if (λ (p : PendingCode). ltb limits.code_ttl (now - p.created))
              r.server.pending,
          h.pending_le,
        ))
        refl

step-Sound :
    (limits : Limits) (r : Running) (e : Section) → Sound limits r → Sound limits (step limits r e)
unfolding step
step-Sound limits r (publishes now rid conn sealed observed) h =
    publishes-Sound limits r h now conn rid sealed observed
step-Sound limits r (drops rid conn) h = drops-Sound limits r h rid conn
step-Sound limits r (claims rid conn) h = claims-Sound limits r h rid conn
step-Sound limits r (issues now a b) h =
    if_elim (Sound limits) (ltb 0 r.claiming) _ _
      (λ e. issues-Sound limits r h now a b (ltb→lt 0 r.claiming e)) (λ e. h)
step-Sound limits r gives_up h =
    if_elim (Sound limits) (ltb 0 r.claiming) _ _
      (λ e. gives_up-Sound limits r h (ltb→lt 0 r.claiming e)) (λ e. h)
step-Sound limits r (redeems ticket) h = redeems-Sound limits r h ticket
step-Sound limits r (joins conn ref) h =
    if_elim (Sound limits) (ltb ref.circuit (length r.server.pipes)) _ _
      (λ e. joins-Sound limits r h conn ref (ltb→lt ref.circuit (length r.server.pipes) e)) (λ e. h)
step-Sound limits r (ends c) h =
    if_elim (Sound limits) (ltb c (length r.server.pipes)) _ _
      (λ e. ends-Sound limits r h c (ltb→lt c (length r.server.pipes) e)) (λ e. h)
step-Sound limits r (acquires ip) h = acquires-Sound limits r h ip
step-Sound limits r (releases ip) h = releases-Sound limits r h ip
step-Sound limits r (reaps now) h = reaps-Sound limits r h now

run_from-Sound :
    (limits : Limits) (r : Running) (es : List Section)
    → Sound limits r
    → Sound limits (run limits r es)
unfolding run
run_from-Sound limits r [] h = h
run_from-Sound limits r (e ∷ es) h =
    run_from-Sound limits (step limits r e) es (step-Sound limits r e h)

-- From a new relay, after any sequence of the handlers' critical sections in any interleaving: the circuit counter is the number of circuits not released plus the claims under way, and the circuits, the unclaimed codes and the connections of every source address are within their limits.
pub run-Sound :
    (limits : Limits) (es : List Section)
    → Sound limits (run limits (record { server = new; claiming = 0 }) es)
unfolding live
run-Sound limits es =
    run_from-Sound limits (record { server = new; claiming = 0 }) es
      (record {
        balanced = omega arith;
        circuits_le = omega arith;
        pending_le = omega arith;
        conns_le = tt;
      })
