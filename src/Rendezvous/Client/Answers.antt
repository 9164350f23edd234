-- ===== src/Rendezvous/Client/Answers.antt =====
-- internal/rendezvous/client.go: what a client makes of the message of a pairing.
use xessenger_cli.Prelude.{
  get_or-set_self, ℕ, ◌≤◌, ◌<◌, List, Bool, none, some, ok, if◌then◌else◌, length, set, arith, ◌≡◌,
  refl, ap, ◌∙◌,
}
use xessenger_cli.Prelude.Assoc.{lookup}
use xessenger_cli.Crypto.{Bytes, Primitives}
use xessenger_cli.Relay.Serve
use xessenger_cli.Relay.Serve.{
  Codec, World, Outbox, ticket_size, max_control_frame, decode_exact, check_rid, pair, introduce,
  pair_messages, handle_claim, serve_message, claims, paired, published,
}
use xessenger_cli.Rendezvous.Messages.{wire, b64, unb64, unb64-b64, role_publisher, role_claimer}
use xessenger_cli.Rendezvous.Messages
use xessenger_cli.Rendezvous.Candidates.{Net, Candidate}
use xessenger_cli.Rendezvous.Sealed.{SetJson, open_candidates, max_sealed_candidates}
use xessenger_cli.Rendezvous.Client.Waiters.{
  Waiter, Client, waiter_at, put, put_paired, dispatch, unregister, message, await, take_paired,
}
use xessenger_cli.Rendezvous.Client.Pairing.{
  Pairing, punch_delay, to_pairing, pairing_end, wait_pairing,
}
use xessenger_cli.Rendezvous.Client.Claims.{CodecLaws, deliver_found}

-- The message of a pairing, in the encoded form in which the relay sends it.
abbrev pub introduction : Codec → Bytes → Bool → Bytes → Bytes → ℕ → Bytes → Serve.Message
introduction codec rid role sealed addr ms t =
    paired (b64 codec rid) role (b64 codec sealed) addr ms (b64 codec t)

-- The pairing that a client makes of it.
abbrev pub pairing_of : Bool → List Candidate → Bytes → ℕ → Bytes → Client → Pairing
pairing_of role cs addr ms t c = record {
  role = if role then role_publisher else role_claimer;
  peer_candidates = cs;
  peer_observed = addr;
  observed = c.observed;
  punch_in = punch_delay ms;
  ticket = t;
  rung = c.rung;
}

module _ (p : Primitives) (codec : Codec) (laws : CodecLaws codec) (j : SetJson) (net : Net)
    (key rid sealed : Bytes) (cs : List Candidate) (role : Bool) (addr t : Bytes) (ms : ℕ)
    (opened : open_candidates p j net key sealed ≡ ok cs)
    (small : length sealed ≤ max_sealed_candidates) (ticket_ok : length t ≡ ticket_size) where
  to_pairing-introduction :
      (c : Client)
      → to_pairing p codec j net (wire (introduction codec rid role sealed addr ms t)) key c
        ≡ ok (pairing_of role cs addr ms t c)
  unfolding to_pairing
  to_pairing-introduction c =
      rw
        (
          unb64-b64 codec sealed max_sealed_candidates (laws.decode_encode sealed) small,
          opened,
          unb64-b64 codec t ticket_size (laws.decode_encode t) (omega (arith, ticket_ok)),
          ticket_ok,
        )
        refl

  dispatch-introduction :
      (c : Client) (i : ℕ)
      → lookup (b64 codec rid) c.waiters ≡ some i
      → dispatch (wire (introduction codec rid role sealed addr ms t)) c ≡ record c {
        made =
            set c.made i (
              put_paired
                (wire (introduction codec rid role sealed addr ms t))
                (waiter_at c.made i));
      }
  unfolding dispatch
  dispatch-introduction c i e =
      let msg : Messages.Message = wire (introduction codec rid role sealed addr ms t) in
      deliver_found (put_paired msg) (b64 codec rid) c i e

  wait_ready :
      (c : Client) (i : ℕ) (k : Bytes) (msg : Messages.Message)
      → (waiter_at c.made i).paired ≡ some msg
      → wait_pairing p codec j net message k i key c
        ≡ some (
            pairing_end p codec j net k key
              (record c { made = set c.made i (take_paired (waiter_at c.made i)) }, ok msg))
  unfolding wait_pairing await
  wait_ready c i k msg e = rw (wait_pairing, await, e) refl

  -- A client whose waiter has heard nothing takes the pairing from the relay's message.
  pub wait_introduction :
      (c : Client) (i : ℕ)
      → lookup (b64 codec rid) c.waiters ≡ some i
      → i < length c.made
      → (waiter_at c.made i).paired ≡ none
      → (c' : Client) × (wait_pairing p codec j net message
            (b64 codec rid)
            i
            key
            (dispatch (wire (introduction codec rid role sealed addr ms t)) c)
          ≡ some (c', ok (pairing_of role cs addr ms t c)))
  unfolding pairing_end
  wait_introduction c i e place empty =
      let msg : Messages.Message = wire (introduction codec rid role sealed addr ms t) in
      let w : Waiter = put_paired msg (waiter_at c.made i) in
      let heard : Client = record c { made = set c.made i w } in
      let here : waiter_at heard.made i ≡ w = get_or-set_self c.made i w _ place in
      let full : (waiter_at heard.made i).paired ≡ some msg =
        ap (λ (v : Waiter). v.paired) here ∙ ap (λ o. put o msg) empty in
      let after : Client = record heard {
        made = set heard.made i (take_paired (waiter_at heard.made i));
      } in
      (
        unregister (b64 codec rid) after,
        ap (wait_pairing p codec j net message (b64 codec rid) i key) (dispatch-introduction c i e)
            ∙ wait_ready heard i (b64 codec rid) msg full
            ∙ ap (λ r. some (unregister (b64 codec rid) after, r)) (to_pairing-introduction after),
      )
