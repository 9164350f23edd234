-- ===== src/Examples/Clients.antt =====
-- Clients of internal/rendezvous with invite codes and a relay, at which their theorems are applied.
use xessenger_cli.Prelude.{
  map, take, drop, ℕ, ◌+◌, ◌-◌, ◌*◌, ◌/◌, ◌%◌, ◌≤◌, ◌<◌, List, [], ◌∷◌, ◌++◌, true, false, ◌&&◌,
  Option, none, some, ok, if◌then◌else◌, leb, length, replicate, All, arith, ◌≡◌, ◌≢◌, refl, sym,
  ap,
}
use xessenger_cli.Prelude.Assoc.{lookup, IsMap, insert}
use xessenger_cli.Prelude.Bytes.{IsByte}
use xessenger_cli.Crypto.{Bytes, codes, seal, open', random_bytes, aead}
use xessenger_cli.Crypto.Toy.{toy, toy_laws}
use xessenger_cli.Relay.Limits.{default_limits, millisecond}
use xessenger_cli.Relay.State.{Server, new}
use xessenger_cli.Relay.Serve.{World, serve_message, claims, ticket_size}
use xessenger_cli.Rendezvous.Messages.{Message, msg_paired, role_claimer, bare, unb64}
use xessenger_cli.Rendezvous.Candidates.{
  validate_candidates, Candidate, IsSafe, privates, validate_candidates, max_candidates,
  max_private_candidates,
}
use xessenger_cli.Rendezvous.Sealed.{
  SetJson, seal_candidates, open_candidates, max_sealed_candidates, candidate_aad,
}
use xessenger_cli.Rendezvous.Code.{Alphabet, Laws, Code, Text, in_alphabet, parse_code, to_string}
use xessenger_cli.Rendezvous.Code.Respelling.{Respells, done, same, adds, parse_code-to_string}
use xessenger_cli.Rendezvous.Client.Waiters.{
  Client, new_client, new_waiter, waiter_at, pending_of, mark_sent, resend_waiters, add_waiter,
  connect, lose, message,
}
use xessenger_cli.Rendezvous.Client.Events.{Event, registers, receives, cancels, loses, run}
use xessenger_cli.Rendezvous.Client.Ownership.{Hears}
use xessenger_cli.Rendezvous.Client.Marks.{request_of}
use xessenger_cli.Rendezvous.Client.Reconnect.{outstanding_resent}
use xessenger_cli.Rendezvous.Client.Routing.{registered-Hears}
use xessenger_cli.Rendezvous.Client.Resend.{late_mark_forgets}
use xessenger_cli.Rendezvous.Client.Backoff.{
  Attempt, Follows, schedule, supervise, min_backoff, supervise-Follows,
}
use xessenger_cli.Rendezvous.Client.Pairing.{
  Pairing, to_pairing, to_pairing-IsSafe, max_punch_in, wait_pairing,
}
use xessenger_cli.Rendezvous.Client.Claims.{CodecLaws, inbox, hear}
use xessenger_cli.Rendezvous.Client.Answers.{pairing_of}
use xessenger_cli.Rendezvous.Client.Introduction.{Side, IsReady, pending_code, claim_introduces}
use xessenger_cli.Examples.Relays.{plain, lan, today}

abbrev rid : Bytes
rid = replicate 16 7

abbrev waiting_client : Client
waiting_client = record new_client {
  waiters = (rid, 0) ∷ [];
  made = new_waiter (codes "s") false ∷ [];
}

abbrev before : List Event
before = registers (codes "A") [] false ∷ []

outstanding_resent_example :
    (let c = run before new_client in
      let again = resend_waiters plain (true ∷ []) (connect 4 0 (lose c)) in
      (again.1 ≡ map (request_of plain 4 c.made) (take 1 c.waiters))
      × (pending_of c.waiters again.0.made ≡ drop 1 c.waiters))
outstanding_resent_example = outstanding_resent before plain 4 0 (true ∷ [])

waiting_keys : IsMap waiting_client.waiters
unfolding IsMap lookup
waiting_keys = (refl, tt)

waiting_found : lookup rid waiting_client.waiters ≡ some 0
unfolding lookup
waiting_found = refl

late_mark_forgets_example :
    (lookup rid (connect 4 0 (mark_sent 0 (lose waiting_client))).waiters ≡ some 0)
    × All
        (λ (x : ℕ × Message). x.1.rendezvous_id ≢ rid)
        (resend_waiters plain (true ∷ []) (connect 4 0 (mark_sent 0 (lose waiting_client)))).1
late_mark_forgets_example =
    late_mark_forgets plain 4 0 (true ∷ []) waiting_client rid 0 waiting_keys waiting_found
      (omega arith)

abbrev after : List Event
after =
    receives (record (bare msg_paired) { rendezvous_id = codes "A" })
    ∷ receives (record (bare msg_paired) { rendezvous_id = codes "B" })
    ∷ cancels (codes "B")
    ∷ loses
    ∷ []

second_place : (add_waiter (codes "B") (new_waiter [] true) (run before new_client)).1 ≡ ok 1
unfolding add_waiter run lookup insert
second_place = refl

registered-Hears_example : Hears (codes "B") (
    waiter_at
      (run after (add_waiter (codes "B") (new_waiter [] true) (run before new_client)).0).made
      1)
registered-Hears_example = registered-Hears before after (codes "B") [] true 1 second_place

abbrev failing : Attempt
failing = record { dialled = none; during = []; meanwhile = [] }

abbrev dials : List Attempt
dials =
    failing
    ∷ failing
    ∷ record { dialled = some (4, 0, []); during = []; meanwhile = [] }
    ∷ failing
    ∷ []

supervise-Follows_example :
    Follows (schedule 0 dials) (supervise plain min_backoff dials waiting_client)
supervise-Follows_example = supervise-Follows plain dials waiting_client

-- Two letters for a byte.
abbrev letter : ℕ → ℕ
letter n = b'A' + n % 16

abbrev toy_encode : Bytes → Text
toy_encode [] = []
toy_encode (b ∷ bs) = letter (b / 16) ∷ letter b ∷ toy_encode bs

abbrev toy_decode : Text → Option Bytes
toy_decode [] = some []
toy_decode (c ∷ []) = none
toy_decode (c ∷ d ∷ s) = elim (toy_decode s) [
  | none ↦ none
  | some bs ↦ some (((c - b'A') * 16 + (d - b'A')) ∷ bs)
]

abbrev letters : Alphabet
letters = record {
  encode = toy_encode;
  decode = toy_decode;
  to_upper = λ c. if leb b'a' c && leb c b'z' then c - 32 else c;
}

letters_decode : (b : Bytes) → All IsByte b → toy_decode (toy_encode b) ≡ some b
letters_decode [] h = refl
letters_decode (b ∷ bs) h =
    rw (letters_decode bs h.1) (ap (λ n. some (n ∷ bs)) (omega (arith, h.0)))

letters_letters : (b : Bytes) → All (λ c. in_alphabet c ≡ true) (toy_encode b)
letters_letters [] = tt
letters_letters (b ∷ bs) = (ground arith, (ground arith, letters_letters bs))

letters_laws : Laws letters
letters_laws = record {
  decode_encode = letters_decode;
  encode_letters = letters_letters;
  encode_some = some_letters;
  upper_lower = λ c h k. ground (arith, h, k);
  upper_other = λ c h. ground (arith, h);
}
  where
    some_letters : (b : Bytes) → 0 < length b → 0 < length (toy_encode b)
    some_letters [] h = absurd (omega arith)
    some_letters (b ∷ bs) h = omega arith

Respells-refl : (s : Text) → Respells s s
Respells-refl [] = done
Respells-refl (c ∷ s) = same c (Respells-refl s)

abbrev secret_code : Code
secret_code = record { secret = replicate 20 9 }

parse_code-to_string_example :
    parse_code letters (b' ' ∷ to_string letters secret_code) ≡ ok secret_code
parse_code-to_string_example =
    parse_code-to_string letters letters_laws secret_code (b' ' ∷ to_string letters secret_code)
      refl nines (adds b' ' refl (Respells-refl (to_string letters secret_code)))
  where
    nines : All IsByte (replicate 20 9)
    nines = omega arith

-- JSON of lists of one candidate.
abbrev one_json : SetJson
one_json = record {
  marshal = λ cs. elim cs [ [] ↦ none | c ∷ rest ↦ some c.addr ];
  unmarshal = λ b. some (record { addr = b; kind = [] } ∷ []);
}

abbrev at_address : Bytes → List Candidate
at_address a = record { addr = a; kind = [] } ∷ []

abbrev key : Bytes
key = replicate 32 5

-- The peer `n` on the connection `n`, at an address.
abbrev side : ℕ → Bytes → Side
side n addr = record {
  client = waiting_client;
  place = 0;
  conn = n;
  addr = addr;
  candidates = at_address addr;
  nonce = replicate 12 n;
  sealed = replicate 12 n ++ (addr ++ replicate 16 9);
}

reads_back :
    (a : Bytes) (x : Bytes)
    → one_json.marshal (at_address a) ≡ some x
    → one_json.unmarshal x ≡ some (at_address a)
reads_back a x h = ap (λ y. some (at_address y)) (sym (inner a x h))
  where
    inner : (a x : Bytes) → some a ≡ some x → a ≡ x
    inner a x h = cc

sealed_here :
    seal_candidates toy one_json (some (replicate 12 4)) key (at_address (codes "a"))
    ≡ ok (side 4 (codes "a")).sealed
unfolding seal_candidates seal random_bytes aead
sealed_here = refl

sealed_there :
    seal_candidates toy one_json (some (replicate 12 6)) key (at_address (codes "b"))
    ≡ ok (side 6 (codes "b")).sealed
unfolding seal_candidates seal random_bytes aead
sealed_there = refl

publisher-IsReady : IsReady toy plain one_json key rid (side 4 (codes "a"))
publisher-IsReady = record {
  sealed_ok = sealed_here;
  nonce_ok = refl;
  round_trips = reads_back (codes "a");
  registered = waiting_found;
  placed = omega arith;
  waiting = refl;
}

claimer-IsReady : IsReady toy plain one_json key rid (side 6 (codes "b"))
claimer-IsReady = record {
  sealed_ok = sealed_there;
  nonce_ok = refl;
  round_trips = reads_back (codes "b");
  registered = waiting_found;
  placed = omega arith;
  waiting = refl;
}

plain_laws : CodecLaws plain
plain_laws = record { decode_encode = λ b. refl; length_encode = λ b. omega arith }

abbrev relay : Server
relay = record new { pending = (rid, pending_code plain (side 4 (codes "a")) 0) ∷ [] }

abbrev lucky : World
lucky = record today { ticket_a = some (replicate 32 1); ticket_b = some (replicate 32 2) }

code_pending : lookup rid relay.pending ≡ some (pending_code plain (side 4 (codes "a")) 0)
unfolding lookup
code_pending = refl

claim_introduces_example :
    (let out =
        (serve_message plain default_limits lucky 6
          (codes "b")
          []
          (claims rid (side 6 (codes "b")).sealed)
          relay).outbox in
      let ms = default_limits.punch_delay / millisecond in
      ((c' : Client) × (wait_pairing toy plain one_json lan message rid 0 key
            (hear (inbox 4 out) waiting_client)
          ≡ some (
            c',
            ok (
                pairing_of true
                  (validate_candidates lan (at_address (codes "b")))
                  (codes "b")
                  ms
                  (replicate 32 1)
                  waiting_client),
          )))
      × ((c' : Client) × (wait_pairing toy plain one_json lan message rid 0 key
              (hear (inbox 6 out) waiting_client)
            ≡ some (
              c',
              ok (
                  pairing_of false
                    (validate_candidates lan (at_address (codes "a")))
                    (codes "a")
                    ms
                    (replicate 32 2)
                    (record waiting_client { observed = codes "b" })),
            ))))
claim_introduces_example =
    claim_introduces toy_laws plain plain_laws one_json lan key rid default_limits lucky [] relay 0
      (side 4 (codes "a")) (side 6 (codes "b")) (replicate 32 1) (replicate 32 2) publisher-IsReady
      claimer-IsReady refl code_pending (λ e. absurd (omega (arith, e))) refl (omega arith) refl
      refl refl refl refl refl refl

-- A message of a relay that gives a delay of a minute.
abbrev offer : Message
offer = record (bare msg_paired) {
  role = role_claimer;
  peer_candidates = (side 4 (codes "a")).sealed;
  punch_in_ms = 60000;
  ticket = replicate 32 1;
}

abbrev accepted_offer : Pairing
accepted_offer = record {
  role = role_claimer;
  peer_candidates = validate_candidates lan (at_address (codes "a"));
  peer_observed = [];
  observed = [];
  punch_in = 0;
  ticket = replicate 32 1;
  rung = 0;
}

offer_taken : to_pairing toy plain one_json lan offer key new_client ≡ ok accepted_offer
unfolding to_pairing unb64 open_candidates open' aead
offer_taken = refl

to_pairing-IsSafe_example :
    (length accepted_offer.ticket ≡ ticket_size)
    × (accepted_offer.punch_in ≤ max_punch_in)
    × (accepted_offer.role ≡ role_claimer)
    × All (IsSafe lan) accepted_offer.peer_candidates
    × (length accepted_offer.peer_candidates ≤ max_candidates)
    × (privates lan accepted_offer.peer_candidates ≤ max_private_candidates)
    × ((nonce : Bytes) × (text : Bytes) × (raw : List Candidate) × (unb64 plain
            offer.peer_candidates max_sealed_candidates
          ≡ ok (nonce ++ toy.gcm_seal key nonce text candidate_aad))
        × (one_json.unmarshal text ≡ some raw)
        × (accepted_offer.peer_candidates ≡ validate_candidates lan raw))
to_pairing-IsSafe_example =
    to_pairing-IsSafe toy_laws plain one_json lan offer key new_client accepted_offer offer_taken
