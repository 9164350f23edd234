-- ===== src/Rendezvous/Client/Pairing.antt =====
-- internal/rendezvous/client.go: what a client makes of the relay's answer to a claim, to an invite and
-- to a ticket.
use xessenger_cli.Prelude.{
  ℕ, ◌*◌, ◌%◌, ◌^◌, ◌≤◌, List, [], ◌∷◌, ◌++◌, Bool, true, false, not, ◌||◌, Option, none, some,
  Result, ok, err, guard, ◌>>=◌, ◌>>◌, if◌then◌else◌, ltb, leb, ◌==◌, length, take, All, arith, ◌≡◌,
  inl, inr, sym, ap, subst, ◌∙◌, Option-cases, Result-cases,
}
use xessenger_cli.Prelude.Bytes.{bytes_eq}
use xessenger_cli.Crypto.{Bytes, Primitives, Laws, open'}
use xessenger_cli.Crypto.Aead.{seal-open'}
use xessenger_cli.Relay.Serve.{Codec, ticket_size}
use xessenger_cli.Rendezvous.Messages
use xessenger_cli.Rendezvous.Messages.{
  Message, bare, role_claimer, msg_circuit, msg_circuit_ok, msg_error, b64, unb64,
}
use xessenger_cli.Rendezvous.Candidates.{
  Net, Candidate, IsSafe, privates, max_candidates, max_private_candidates, validate_candidates,
  validate_candidates-IsSafe,
}
use xessenger_cli.Rendezvous.Sealed
use xessenger_cli.Rendezvous.Sealed.{SetJson, open_candidates, max_sealed_candidates, candidate_aad}
use xessenger_cli.Rendezvous.Client.Waiters.{
  Client, Error, send_failed, recv_failed, dial_failed, bad_field, bad_candidates, malformed_ticket,
  relay_refused, unexpected, unregister, Wake, await, take_paired, accepted,
}

-- Times are in nanoseconds.
pub record Pairing : Type 0 where
  pub role : Bytes
  pub peer_candidates : List Candidate
  pub peer_observed : Bytes
  pub observed : Bytes
  pub punch_in : ℕ
  pub ticket : Bytes
  pub rung : ℕ

abbrev pub max_punch_in : ℕ
max_punch_in = 30000000000

-- `Initiator`
abbrev pub initiator : Pairing → Bool
initiator g = bytes_eq g.role role_claimer

-- `time.Duration(ms) * time.Millisecond`, on int64, and its range check.
unfoldable pub punch_delay : ℕ → ℕ
punch_delay ms =
    let d = ms * 1000000 % 2 ^ 64 in if leb (2 ^ 63) d || ltb max_punch_in d then 0 else d

abbrev pub read_field : Result Messages.Error Bytes → Result Error Bytes
read_field (ok b) = ok b
read_field (err e) = err (bad_field e)

abbrev pub read_set : Result Sealed.Error (List Candidate) → Result Error (List Candidate)
read_set (ok cs) = ok cs
read_set (err e) = err (bad_candidates e)

module _ (p : Primitives) (codec : Codec) (j : SetJson) (net : Net) where
  unfoldable pub to_pairing : Message → Bytes → Client → Result Error Pairing
  unfolding punch_delay
  to_pairing msg pairing_key c = do
    sealed ← read_field (unb64 codec msg.peer_candidates max_sealed_candidates)
    set' ← read_set (open_candidates p j net pairing_key sealed)
    ticket' ← read_field (unb64 codec msg.ticket ticket_size)
    guard (length ticket' == ticket_size) malformed_ticket
    ok (record {
      role = msg.role;
      peer_candidates = set';
      peer_observed = msg.peer_observed;
      observed = c.observed;
      punch_in = punch_delay msg.punch_in_ms;
      ticket = ticket';
      rung = c.rung;
    })

  -- `Claim` and `Invite.Wait` after their wait: the deferred `unregister` runs on every path.
  unfoldable pub pairing_end :
      Bytes → Bytes → Client × Result Error Message → Client × Result Error Pairing
  pairing_end rid pairing_key (c, r) =
      (unregister rid c, r >>= λ msg. accepted msg >>= λ m. to_pairing m pairing_key c)

  -- `Claim` and `Invite.Wait` from their wait on, for the waiter at the place `i`: none while they block.
  unfoldable pub wait_pairing :
      Wake → Bytes → ℕ → Bytes → Client → Option (Client × Result Error Pairing)
  unfolding pairing_end
  wait_pairing wake rid i pairing_key c = elim (await wake (λ w. w.paired) take_paired i c) [
    | none ↦ none
    | some r ↦ some (pairing_end rid pairing_key r)
  ]

-- `OpenCircuit`: whether the dial up the proven rung and the send succeed, and what is received; with
-- the rung dialled, the message sent, and whether the connection is left open.
pub record Circuit : Type 0 where
  pub rung : ℕ
  pub out : List Message
  pub open_conn : Bool
  pub result : Result Error (Unit {0})

unfoldable pub open_circuit : Codec → Bool → Bool → Option Message → Bytes → Client → Circuit
open_circuit codec dialled sent answer ticket c =
    let request' : Message = record (bare msg_circuit) { ticket = b64 codec ticket } in
    if not dialled
    then record { rung = c.rung; out = []; open_conn = false; result = err dial_failed }
    else if not sent
    then record { rung = c.rung; out = []; open_conn = false; result = err send_failed }
    else elim answer [
      | none ↦ record {
        rung = c.rung;
        out = request' ∷ [];
        open_conn = false;
        result = err recv_failed;
      }
      | some msg ↦
          if bytes_eq msg.kind msg_circuit_ok
          then record { rung = c.rung; out = request' ∷ []; open_conn = true; result = ok tt }
          else if bytes_eq msg.kind msg_error
          then record {
            rung = c.rung;
            out = request' ∷ [];
            open_conn = false;
            result = err (relay_refused msg.reason);
          }
          else record {
            rung = c.rung;
            out = request' ∷ [];
            open_conn = false;
            result = err (unexpected msg.kind);
          }
    ]

punch_delay_bound : (ms : ℕ) → punch_delay ms ≤ max_punch_in
unfolding punch_delay
punch_delay_bound ms = ground arith

pub punch_delay_exact : (ms : ℕ) → ms ≤ 30000 → punch_delay ms ≡ ms * 1000000
unfolding punch_delay
punch_delay_exact ms h = ground (arith, h)

module _ {p : Primitives} (l : Laws p) (codec : Codec) (j : SetJson) (net : Net) where
  open_candidates_inverse :
      (k blob : Bytes) (cs : List Candidate)
      → open_candidates p j net k blob ≡ ok cs
      → (plain : Bytes) × (raw : List Candidate) × (open' p k candidate_aad blob ≡ ok plain)
        × (j.unmarshal plain ≡ some raw)
        × (cs ≡ validate_candidates net raw)
  unfolding open_candidates
  open_candidates_inverse k blob cs e = elim (Result-cases (open' p k candidate_aad blob)) [
    | inr (x, f) ↦ absurd (ground (arith, e, f))
    | inl (plain, f) ↦ elim (Option-cases (j.unmarshal plain)) [
      | inl g ↦ absurd (ground (arith, e, f, g))
      | inr (raw, g) ↦ (plain, raw, f, g, ground (arith, e, f, g))
    ]
  ]

  -- The parts of a message that becomes a pairing.
  to_pairing_inverse :
      (msg : Message) (k : Bytes) (c : Client) (g : Pairing)
      → to_pairing p codec j net msg k c ≡ ok g
      → (blob : Bytes) × (open_candidates p j net k blob ≡ ok g.peer_candidates)
        × (unb64 codec msg.peer_candidates max_sealed_candidates ≡ ok blob)
        × (length g.ticket ≡ ticket_size)
        × (g.punch_in ≡ punch_delay msg.punch_in_ms)
        × (g.role ≡ msg.role)
  unfolding to_pairing
  to_pairing_inverse msg k c g e =
      elim (Result-cases (unb64 codec msg.peer_candidates max_sealed_candidates)) [
        | inr (x, f) ↦ absurd (ground (arith, e, f))
        | inl (blob, f) ↦ elim (Result-cases (open_candidates p j net k blob)) [
          | inr (x, f') ↦ absurd (ground (arith, e, f, f'))
          | inl (cs, f') ↦ elim (Result-cases (unb64 codec msg.ticket ticket_size)) [
            | inr (x, f'') ↦ absurd (ground (arith, e, f, f', f''))
            | inl (t, f'') ↦ (
              blob,
              ground (arith, e, f, f', f''),
              f,
              ground (arith, e, f, f', f''),
              ground (arith, e, f, f', f''),
              ground (arith, e, f, f', f''),
            )
          ]
        ]
      ]

  -- Whatever a relay answers, a pairing that a client accepts has the role that the relay sent, a ticket of 32 bytes and a delay of at most 30 seconds, and the candidate field decodes to a list sealed under the pairing key for this purpose. The candidates of the pairing are what `ValidateCandidates` keeps of just that list: at most 8, at most 2 with a private address, each with a port other than 0 and an IP address that is not unspecified, loopback, link-local, multicast or broadcast.
  pub to_pairing-IsSafe :
      (msg : Message) (k : Bytes) (c : Client) (g : Pairing)
      → to_pairing p codec j net msg k c ≡ ok g
      → (length g.ticket ≡ ticket_size)
        × (g.punch_in ≤ max_punch_in)
        × (g.role ≡ msg.role)
        × All (IsSafe net) g.peer_candidates
        × (length g.peer_candidates ≤ max_candidates)
        × (privates net g.peer_candidates ≤ max_private_candidates)
        × ((nonce : Bytes) × (plain : Bytes) × (raw : List Candidate) × (unb64 codec
                msg.peer_candidates max_sealed_candidates
              ≡ ok (nonce ++ p.gcm_seal k nonce plain candidate_aad))
            × (j.unmarshal plain ≡ some raw)
            × (g.peer_candidates ≡ validate_candidates net raw))
  to_pairing-IsSafe msg k c g e =
      let (blob, opened, field, t, d, r) = to_pairing_inverse msg k c g e in
      let (plain, raw, f, read, kept) = open_candidates_inverse k blob g.peer_candidates opened in
      let safe = validate_candidates-IsSafe net raw in
      let sealed = seal-open' l k candidate_aad blob plain f in
      (
        t,
        subst (λ n. n ≤ max_punch_in) (sym d) (punch_delay_bound msg.punch_in_ms),
        r,
        subst (All (IsSafe net)) (sym kept) safe.0,
        subst (λ cs. length cs ≤ max_candidates) (sym kept) safe.1,
        subst (λ cs. privates net cs ≤ max_private_candidates) (sym kept) safe.2,
        (take 12 blob, plain, raw, field ∙ ap ok sealed.2, read, kept),
      )
