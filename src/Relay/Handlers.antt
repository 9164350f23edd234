-- ===== src/Relay/Handlers.antt =====
-- internal/relay/server.go: the handlers of the control messages and the relay's counts.
use xessenger_cli.Prelude.{ℕ, zero, suc, ◌+◌, ◌≤◌, ◌<◌, List, [], ◌∷◌, Bool, not, ◌&&◌, ltb, length}
use xessenger_cli.Prelude.{
  Result, ok, err, if_elim, arith, ◌≡◌, refl, subst, ap, inl, inr, Option-cases, Result-cases,
  length-append, Bool-cases, ltb→lt, ltb_false→le, set,
}
use xessenger_cli.Prelude.Assoc.{Map, delete}
use xessenger_cli.Crypto.{Bytes}
use xessenger_cli.Relay.Limits.{Limits, Window, allow, minute}
use xessenger_cli.Relay.State.{
  Server, Circuit, PendingCode, Error, TicketRef, new_circuit, add_pending, claim, release_circuit,
  issue, drop_circuit, redeem, join,
}
use xessenger_cli.Relay.Sections.{Running, live, Sound, claimed, same_slots}
use xessenger_cli.Relay.Ceilings.{
  publishes-Sound, claims-Sound, issues-Sound, gives_up-Sound, redeems-Sound, joins-Sound,
  ends-Sound,
}
use xessenger_cli.Relay.Serve
use xessenger_cli.Relay.Serve.{
  Handled, Message, publish, claims, circuit, bye, published, paired, circuit_ok, failure, other,
  decode_exact, ticket_size, pair, handle_publish, handle_claim, attach_circuit, serve_message,
  check_rid, source_ip,
}

abbrev pub at : Server → ℕ → Running
at s n = record { server = s; claiming = n }

drop_circuit-Sound :
    (limits : Limits) (s : Server) (n c : ℕ) (a b : Bytes)
    → c < length s.pipes
    → Sound limits (at s n)
    → Sound limits (at (drop_circuit c a b s) n)
unfolding drop_circuit
drop_circuit-Sound limits s n c a b place h =
    let bare : Server = record s { tickets = delete b (delete a s.tickets) } in
    ends-Sound limits (at bare n) (same_slots limits (at s n) bare h refl refl h.pending_le refl) c
      place

-- What `pair` gives.
abbrev Paired : Type 0
Paired = Server × Serve.Outbox × Result Error (Unit {0})

module _ (codec : Serve.Codec) (limits : Limits) (w : Serve.World) where
  introduce-Sound :
      (rid : Bytes) (p : PendingCode) (conn : ℕ) (sealed addr a b : Bytes) (s : Server) (n : ℕ)
      → Sound limits (at s (n + 1))
      → Sound limits (at (Serve.introduce codec limits w rid p conn sealed addr a b s).0 n)
  unfolding Serve.introduce issue
  introduce-Sound rid p conn sealed addr a b s n h =
      let issued : Sound limits (at (issue w.now a b s).0 n) =
        subst (λ k. Sound limits (at (issue w.now a b s).0 k)) (omega arith)
          (issues-Sound limits (at s (n + 1)) h w.now a b (omega arith)) in
      if_elim (λ (x : Paired). Sound limits (at x.0 n)) (w.peer_send && w.paired_send) _ _
        (λ e. issued)
        (λ e. drop_circuit-Sound limits (issue w.now a b s).0 n (length s.pipes) a b placed issued)
    where
      placed : length s.pipes < length (issue w.now a b s).0.pipes
      placed = ground (arith, length-append s.pipes (new_circuit w.now ∷ []))

  pair-Sound :
      (rid : Bytes) (conn : ℕ) (sealed addr : Bytes) (s : Server) (n : ℕ)
      → Sound limits (at s n)
      → Sound limits (at (pair codec limits w rid conn sealed addr s).0 n)
  unfolding pair
  pair-Sound rid conn sealed addr s n h = elim (Result-cases (claim limits rid conn s).1) [
    | inr (x, e) ↦ rw (pair, e) (failed x e)
    | inl (p, e) ↦ elim (Option-cases w.ticket_a) [
      | inl ea ↦ rw (pair, e, ea) (given_up p e)
      | inr (a, ea) ↦ elim (Option-cases w.ticket_b) [
        | inl eb ↦ rw (pair, e, ea, eb) (given_up p e)
        | inr (b, eb) ↦
            rw (pair, e, ea, eb)
              (introduce-Sound rid p conn sealed addr (codec.base64_encode a)
                (codec.base64_encode b) (claim limits rid conn s).0 n (won p e))
      ]
    ]
  ]
    where
      claimed-Sound : Sound limits (claimed (at s n) (claim limits rid conn s))
      claimed-Sound = claims-Sound limits (at s n) h rid conn

      failed :
          (x : Error)
          → (claim limits rid conn s).1 ≡ err x
          → Sound limits (at (claim limits rid conn s).0 n)
      failed x e =
          subst (λ r. Sound limits (claimed (at s n) ((claim limits rid conn s).0, r))) e
            claimed-Sound

      won :
          (p : PendingCode)
          → (claim limits rid conn s).1 ≡ ok p
          → Sound limits (at (claim limits rid conn s).0 (n + 1))
      won p e =
          subst (λ r. Sound limits (claimed (at s n) ((claim limits rid conn s).0, r))) e
            claimed-Sound

      given_up :
          (p : PendingCode)
          → (claim limits rid conn s).1 ≡ ok p
          → Sound limits (at (release_circuit (claim limits rid conn s).0) n)
      given_up p e =
          subst (λ k. Sound limits (at (release_circuit (claim limits rid conn s).0) k))
            (omega arith)
            (gives_up-Sound limits (at (claim limits rid conn s).0 (n + 1)) (won p e) (omega arith))

  handle_publish-Sound :
      (conn : ℕ) (addr : Bytes) (mine : List Bytes) (rid candidates : Bytes) (s : Server) (n : ℕ)
      → Sound limits (at s n)
      → Sound limits (at (handle_publish codec limits w conn addr mine rid candidates s).server n)
  unfolding handle_publish
  handle_publish-Sound conn addr mine rid candidates s n h =
      elim (Option-cases (check_rid codec rid candidates)) [
        | inr (why, e) ↦ rw (handle_publish, e) h
        | inl e ↦
            rw (handle_publish, e)
              (if_elim (λ (x : Handled). Sound limits (at x.server n)) (not counted.1) _ _
                (λ d. limited)
                (λ d.
                  if_elim (λ (x : Handled). Sound limits (at x.server n))
                    (not (add_pending limits w.now rid conn candidates addr next).1) _ _
                    (λ d'. added) (λ d'. added)))
      ]
    where
      counted : Map Window × Bool
      counted =
          allow (source_ip codec addr) limits.publishes_per_ip_per_min minute w.now s.publishes

      next : Server
      next = record s { publishes = counted.0 }

      limited : Sound limits (at next n)
      limited = same_slots limits (at s n) next h refl refl h.pending_le refl

      added : Sound limits (at (add_pending limits w.now rid conn candidates addr next).0 n)
      added = publishes-Sound limits (at next n) limited w.now conn rid candidates addr

  handle_claim-Sound :
      (conn : ℕ) (addr : Bytes) (mine : List Bytes) (rid candidates : Bytes) (s : Server) (n : ℕ)
      → Sound limits (at s n)
      → Sound limits (at (handle_claim codec limits w conn addr mine rid candidates s).server n)
  unfolding handle_claim
  handle_claim-Sound conn addr mine rid candidates s n h =
      elim (Option-cases (check_rid codec rid candidates)) [
        | inr (why, e) ↦ rw (handle_claim, e) h
        | inl e ↦
            rw (handle_claim, e)
              (if_elim (λ (x : Handled). Sound limits (at x.server n)) (not w.own_send) _ _ (λ d. h)
                (λ d. elim (Result-cases (pair codec limits w rid conn candidates addr s).2) [
                  | inl (u, f) ↦ rw f (pair-Sound rid conn candidates addr s n h)
                  | inr (x, f) ↦ rw f (pair-Sound rid conn candidates addr s n h)
                ]))
      ]

  set_outside : (cs : List Circuit) (i : ℕ) (c : Circuit) → length cs ≤ i → set cs i c ≡ cs
  set_outside [] i c h = refl
  set_outside (x ∷ cs) zero c h = absurd (omega arith)
  set_outside (x ∷ cs) (suc i) c h = ap (λ l. x ∷ l) (set_outside cs i c (omega arith))

  -- A half joins its circuit; a place that holds no circuit is left as it is.
  any_join-Sound :
      (conn : ℕ) (ref : TicketRef) (s : Server) (n : ℕ)
      → Sound limits (at s n)
      → Sound limits (at (join conn ref s).0 n)
  unfolding join
  any_join-Sound conn ref s n h = elim (Bool-cases (ltb ref.circuit (length s.pipes))) [
    | inl e ↦ joins-Sound limits (at s n) h conn ref (ltb→lt ref.circuit (length s.pipes) e)
    | inr e ↦
        same_slots limits (at s n) (join conn ref s).0 h refl
          (ap live
            (set_outside s.pipes ref.circuit _ (ltb_false→le ref.circuit (length s.pipes) e)))
          h.pending_le refl
  ]

  attach_circuit-Sound :
      (conn : ℕ) (mine : List Bytes) (ticket : Bytes) (s : Server) (n : ℕ)
      → Sound limits (at s n)
      → Sound limits (at (attach_circuit codec w conn mine ticket s).server n)
  unfolding attach_circuit
  attach_circuit-Sound conn mine ticket s n h =
      elim (Option-cases (decode_exact codec ticket ticket_size)) [
        | inl e ↦ rw (attach_circuit, e) h
        | inr (b, e) ↦ elim (Option-cases (redeem ticket s).1) [
          | inl f ↦ rw (attach_circuit, e, f) redeemed
          | inr (ref, f) ↦
              rw (attach_circuit, e, f)
                (if_elim (λ (x : Handled). Sound limits (at x.server n)) w.own_send _ _
                  (λ d. any_join-Sound conn ref (redeem ticket s).0 n redeemed) (λ d. redeemed))
        ]
      ]
    where
      redeemed : Sound limits (at (redeem ticket s).0 n)
      redeemed = redeems-Sound limits (at s n) h ticket

  -- However each of the sends and draws of a message's handler ends and whatever the message is: if the circuit counter counts the circuits not released and the claims under way, and circuits, codes and connections are within their limits, then the same holds after the handler, with as many other claims under way.
  pub serve_message-Sound :
      (conn : ℕ) (addr : Bytes) (mine : List Bytes) (msg : Message) (s : Server) (n : ℕ)
      → Sound limits (at s n)
      → Sound limits (at (serve_message codec limits w conn addr mine msg s).server n)
  unfolding serve_message
  serve_message-Sound conn addr mine (publish rid candidates) s n h =
      handle_publish-Sound conn addr mine rid candidates s n h
  serve_message-Sound conn addr mine (claims rid candidates) s n h =
      handle_claim-Sound conn addr mine rid candidates s n h
  serve_message-Sound conn addr mine (circuit ticket) s n h =
      attach_circuit-Sound conn mine ticket s n h
  serve_message-Sound conn addr mine bye s n h = h
  serve_message-Sound conn addr mine (published rid o) s n h = h
  serve_message-Sound conn addr mine (paired rid role c o ms t) s n h = h
  serve_message-Sound conn addr mine circuit_ok s n h = h
  serve_message-Sound conn addr mine (failure rid why) s n h = h
  serve_message-Sound conn addr mine (other rid) s n h = h
