-- ===== src/Rendezvous/Client/Introduction.antt =====
-- internal/rendezvous/client.go with internal/relay/server.go: a publisher, a claimer and the relay
-- between them.
use xessenger_cli.Prelude.{
  get_or-set_self, length-set, ℕ, ◌/◌, ◌≤◌, ◌<◌, List, [], true, false, Option, none, some, Result,
  ok, if◌then◌else◌, length, set, arith, ◌≡◌, ◌≢◌, ap, ◌∙◌,
}
use xessenger_cli.Prelude.Assoc.{lookup}
use xessenger_cli.Prelude.Bytes.{bytes_eq}
use xessenger_cli.Crypto.{Bytes, Primitives, Laws, nonce_size}
use xessenger_cli.Relay.Limits.{Limits, millisecond}
use xessenger_cli.Relay.State.{Server, PendingCode, rendezvous_id_size}
use xessenger_cli.Relay.Serve.{Codec, World, ticket_size, serve_message, claims, published}
use xessenger_cli.Rendezvous.Messages.{wire, b64, unb64, unb64-b64, role_publisher, role_claimer}
use xessenger_cli.Rendezvous.Messages
use xessenger_cli.Rendezvous.Candidates.{Net, Candidate, validate_candidates}
use xessenger_cli.Rendezvous.Sealed.{
  SetJson, RoundTrips, seal_candidates, open_candidates, max_sealed_candidates,
  seal_candidates_inverse, open_candidates-seal_candidates,
}
use xessenger_cli.Rendezvous.Client.Waiters.{
  Waiter, Client, Error, waiter_at, put_published, deliver, dispatch, message,
}
use xessenger_cli.Rendezvous.Client.Pairing.{Pairing, wait_pairing}
use xessenger_cli.Rendezvous.Client.Claims.{
  CodecLaws, inbox, deliver_found, inbox_first, inbox_second, hear, claim_outbox,
}
use xessenger_cli.Rendezvous.Client.Answers.{introduction, pairing_of, wait_introduction}

-- One peer of a rendezvous: its client with the place of its waiter there, its connection as the relay
-- knows it, and its candidate list with the nonce and the form in which it is sealed.
pub record Side : Type 0 where
  pub client : Client
  pub place : ℕ
  pub conn : ℕ
  pub addr : Bytes
  pub candidates : List Candidate
  pub nonce : Bytes
  pub sealed : Bytes

module _ (p : Primitives) (codec : Codec) (j : SetJson) (key rid : Bytes) where
  -- The peer has sealed its list under the pairing key, and waits under the rendezvous id.
  pub record IsReady (x : Side) : Type 0 where
    pub sealed_ok : seal_candidates p j (some x.nonce) key x.candidates ≡ ok x.sealed
    pub nonce_ok : length x.nonce ≡ nonce_size
    pub round_trips : RoundTrips j x.candidates
    pub registered : lookup (b64 codec rid) x.client.waiters ≡ some x.place
    pub placed : x.place < length x.client.made
    pub waiting : (waiter_at x.client.made x.place).paired ≡ none

-- The code of a publisher as the relay holds it.
abbrev pub pending_code : Codec → Side → ℕ → PendingCode
pending_code codec x created = record {
  conn = x.conn;
  sealed = b64 codec x.sealed;
  observed = x.addr;
  created = created;
}

module _ {p : Primitives} (l : Laws p) (codec : Codec) (laws : CodecLaws codec) (j : SetJson)
    (net : Net) (key rid : Bytes) where
  IsReady-small : (x : Side) → IsReady p codec j key rid x → length x.sealed ≤ max_sealed_candidates
  IsReady-small x h =
      (seal_candidates_inverse p j (some x.nonce) key x.sealed x.candidates h.sealed_ok).3

  IsReady-opens :
      (x : Side)
      → IsReady p codec j key rid x
      → open_candidates p j net key x.sealed ≡ ok (validate_candidates net x.candidates)
  IsReady-opens x h =
      open_candidates-seal_candidates l j net x.nonce key x.sealed x.candidates h.nonce_ok
        h.round_trips h.sealed_ok

  -- The acknowledgement of a claim, and what the client is after it.
  acknowledged : (c : Client) (i : ℕ) (addr : Bytes) → Client
  acknowledged c i addr = record c {
    observed = addr;
    made =
        set c.made i (put_published (wire (published (b64 codec rid) addr)) (waiter_at c.made i));
  }

  dispatch_published :
      (c : Client) (i : ℕ) (addr : Bytes)
      → lookup (b64 codec rid) c.waiters ≡ some i
      → bytes_eq addr [] ≡ false
      → dispatch (wire (published (b64 codec rid) addr)) c ≡ acknowledged c i addr
  unfolding dispatch acknowledged
  dispatch_published c i addr e h =
      let msg : Messages.Message = wire (published (b64 codec rid) addr) in
      ap
        (λ t.
          deliver (put_published msg) (b64 codec rid)
            (if t then c else record c { observed = addr }))
        h
      ∙ deliver_found (put_published msg) (b64 codec rid) (record c { observed = addr }) i e

  acknowledged-IsReady :
      (x : Side)
      → IsReady p codec j key rid x
      → IsReady p codec j key rid (record x { client = acknowledged x.client x.place x.addr })
  unfolding acknowledged
  acknowledged-IsReady x h = record {
    sealed_ok = h.sealed_ok;
    nonce_ok = h.nonce_ok;
    round_trips = h.round_trips;
    registered = h.registered;
    placed = omega (arith, h.placed, length-set x.client.made x.place _);
    waiting =
        ap (λ (v : Waiter). v.paired) (get_or-set_self x.client.made x.place _ _ h.placed)
        ∙ h.waiting;
  }

  -- Two clients wait under one rendezvous id, each with a candidate list that it has sealed under one pairing key and with nothing heard of a pairing, and the code of one of them is pending at the relay. If the relay has a slot left, both tickets are drawn with 32 bytes and its sends succeed, then a claim by the other over another connection ends both waits with pairings: the claimer's has the claimer's role and the publisher's the publisher's, and each holds the valid candidates of the other's list, the other's address, the relay's delay and the ticket drawn for it.
  pub claim_introduces :
      (limits : Limits) (w : World) (mine : List Bytes) (s : Server) (created : ℕ) (a b : Side)
      (ticket_a ticket_b : Bytes)
      → IsReady p codec j key rid a
      → IsReady p codec j key rid b
      → length rid ≡ rendezvous_id_size
      → lookup (b64 codec rid) s.pending ≡ some (pending_code codec a created)
      → a.conn ≢ b.conn
      → bytes_eq b.addr [] ≡ false
      → s.circuits < limits.max_circuits
      → w.ticket_a ≡ some ticket_a
      → w.ticket_b ≡ some ticket_b
      → length ticket_a ≡ ticket_size
      → length ticket_b ≡ ticket_size
      → w.own_send ≡ true
      → w.peer_send ≡ true
      → w.paired_send ≡ true
      → (let out =
            (serve_message codec limits w b.conn b.addr mine
              (claims (b64 codec rid) (b64 codec b.sealed))
              s).outbox in
          let ms = limits.punch_delay / millisecond in
          ((c' : Client) × (wait_pairing p codec j net message
                (b64 codec rid)
                a.place
                key
                (hear (inbox a.conn out) a.client)
              ≡ some (
                c',
                ok (
                    pairing_of true
                      (validate_candidates net b.candidates)
                      b.addr
                      ms
                      ticket_a
                      a.client),
              )))
          × ((c' : Client) × (wait_pairing p codec j net message
                  (b64 codec rid)
                  b.place
                  key
                  (hear (inbox b.conn out) b.client)
                ≡ some (
                  c',
                  ok (
                      pairing_of false
                        (validate_candidates net a.candidates)
                        a.addr
                        ms
                        ticket_b
                        (record b.client { observed = b.addr })),
                ))))
  unfolding hear acknowledged
  claim_introduces limits w mine s created a b ta tb ra rb hr e other named room ea eb la lb eo ep
        es =
      let out =
        claim_outbox codec laws limits w b.conn b.addr mine s (pending_code codec a created) rid
          b.sealed ta tb hr (IsReady-small b rb) e other room ea eb eo ep es in
      let ms : ℕ = limits.punch_delay / millisecond in
      let (pub_end, heard) =
        wait_introduction p codec laws j net key rid b.sealed (validate_candidates net b.candidates)
          true b.addr ta ms (IsReady-opens b rb) (IsReady-small b rb) la a.client a.place
          ra.registered ra.placed ra.waiting in
      let after : Client = acknowledged b.client b.place b.addr in
      let rb' = acknowledged-IsReady b rb in
      let (claim_end, heard') =
        wait_introduction p codec laws j net key rid a.sealed (validate_candidates net a.candidates)
          false a.addr tb ms (IsReady-opens a ra) (IsReady-small a ra) lb after b.place
          rb'.registered rb'.placed rb'.waiting in
      (
        (
          pub_end,
          ap (λ o. wait_at a (hear (inbox a.conn o) a.client)) out
              ∙ ap (λ ms. wait_at a (hear ms a.client))
                  (inbox_first a.conn b.conn (published (b64 codec rid) b.addr) _ _ other)
              ∙ heard,
        ),
        (
          claim_end,
          ap (λ o. wait_at b (hear (inbox b.conn o) b.client)) out
              ∙ ap (λ ms. wait_at b (hear ms b.client)) (inbox_second a.conn b.conn _ _ _ other)
              ∙ ap
                  (λ c.
                    wait_at b
                      (dispatch (wire (introduction codec rid false a.sealed a.addr ms tb)) c))
                  (dispatch_published b.client b.place b.addr rb.registered named)
              ∙ heard',
        ),
      )
    where
      wait_at : Side → Client → Option (Client × Result Error Pairing)
      wait_at x c = wait_pairing p codec j net message (b64 codec rid) x.place key c
