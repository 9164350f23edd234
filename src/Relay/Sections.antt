-- ===== src/Relay/Sections.antt =====
-- internal/relay/server.go: the relay's critical sections as steps, and what its counts should be.
use xessenger_cli.Prelude.{
  ℕ, zero, suc, ◌+◌, ◌-◌, ◌≤◌, ◌<◌, List, [], ◌∷◌, ◌++◌, ltb, All, length, get_or, set,
}
use xessenger_cli.Prelude.{Result, ok, err, if◌then◌else◌, arith, ◌≡◌}
use xessenger_cli.Crypto.{Bytes}
use xessenger_cli.Relay.Limits.{Limits}
use xessenger_cli.Relay.State.{Server, Circuit, TicketRef, PendingCode, Error}
use xessenger_cli.Relay.State.{
  add_pending, drop_pending, claim, release_circuit, release_once, issue, redeem, join, acquire_ip,
  release_ip, reap,
}

-- The critical sections, with what they are called with. A claim that has succeeded goes on with
-- `issues` or, when no ticket could be drawn, with `gives_up`; `ends` is `releaseOnce` of a circuit.
pub data Section : Type 0 where
  publishes : ℕ → Bytes → ℕ → Bytes → Bytes → Section
  drops : Bytes → ℕ → Section
  claims : Bytes → ℕ → Section
  issues : ℕ → Bytes → Bytes → Section
  gives_up : Section
  redeems : Bytes → Section
  joins : ℕ → TicketRef → Section
  ends : ℕ → Section
  acquires : Bytes → Section
  releases : Bytes → Section
  reaps : ℕ → Section

-- A relay between critical sections: `claiming` handlers hold a slot and have no circuit yet.
pub record Running : Type 0 where
  pub server : Server
  pub claiming : ℕ

abbrev pub with_server : Running → Server → Running
with_server r s = record r { server = s }

-- A claim that succeeded is under way from then on.
abbrev pub claimed : Running → Server × Result Error PendingCode → Running
claimed r (s, ok p) = record { server = s; claiming = r.claiming + 1 }
claimed r (s, err e) = with_server r s

-- A section that no handler has come to does not happen.
unfoldable pub step : Limits → Running → Section → Running
step limits r (publishes now rid conn sealed observed) =
    with_server r (add_pending limits now rid conn sealed observed r.server).0
step limits r (drops rid conn) = with_server r (drop_pending rid conn r.server)
step limits r (claims rid conn) = claimed r (claim limits rid conn r.server)
step limits r (issues now a b) =
    if ltb 0 r.claiming
    then record { server = (issue now a b r.server).0; claiming = r.claiming - 1 }
    else r
step limits r gives_up =
    if ltb 0 r.claiming
    then record { server = release_circuit r.server; claiming = r.claiming - 1 }
    else r
step limits r (redeems ticket) = with_server r (redeem ticket r.server).0
step limits r (joins conn ref) =
    if ltb ref.circuit (length r.server.pipes) then with_server r (join conn ref r.server).0 else r
step limits r (ends c) =
    if ltb c (length r.server.pipes) then with_server r (release_once c r.server) else r
step limits r (acquires ip) = with_server r (acquire_ip limits ip r.server).0
step limits r (releases ip) = with_server r (release_ip ip r.server)
step limits r (reaps now) = with_server r (reap limits now r.server)

unfoldable pub run : Limits → Running → List Section → Running
unfolding step
run limits r [] = r
run limits r (e ∷ es) = run limits (step limits r e) es

abbrev pub slot : Circuit → ℕ
slot c = if c.released then 0 else 1

-- The circuits not released.
unfoldable pub live : List Circuit → ℕ
live [] = 0
live (c ∷ cs) = slot c + live cs

pub live-append : (cs ds : List Circuit) → live (cs ++ ds) ≡ live cs + live ds
unfolding live
live-append [] ds = omega arith
live-append (c ∷ cs) ds = omega (arith, live-append cs ds)

pub live-set :
    (cs : List Circuit) (i : ℕ) (c : Circuit) (d : Circuit)
    → i < length cs
    → live (set cs i c) + slot (get_or cs i d) ≡ live cs + slot c
unfolding live
live-set [] i c d h = absurd (omega arith)
live-set (x ∷ cs) zero c d h = omega arith
live-set (x ∷ cs) (suc i) c d h = omega (arith, live-set cs i c d (omega arith))

-- The slots taken are the circuits not released and the claims under way, and every count is under
-- its ceiling.
pub record Sound (limits : Limits) (r : Running) : Type 0 where
  pub balanced : r.server.circuits ≡ live r.server.pipes + r.claiming
  pub circuits_le : r.server.circuits ≤ limits.max_circuits
  pub pending_le : length r.server.pending ≤ limits.max_pending_codes
  pub conns_le : All (λ (e : List ℕ × ℕ). e.1 ≤ limits.max_conns_per_ip) r.server.ip_conns

-- A section that leaves the slots and the addresses alone.
pub same_slots :
    (limits : Limits) (r : Running) (s : Server)
    → Sound limits r
    → s.circuits ≡ r.server.circuits
    → live s.pipes ≡ live r.server.pipes
    → length s.pending ≤ limits.max_pending_codes
    → s.ip_conns ≡ r.server.ip_conns
    → Sound limits (with_server r s)
same_slots limits r s h c l p i = record {
  balanced = ground (arith, c, l, h.balanced);
  circuits_le = ground (arith, c, h.circuits_le);
  pending_le = p;
  conns_le = rw i h.conns_le;
}
