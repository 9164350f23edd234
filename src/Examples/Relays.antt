-- ===== src/Examples/Relays.antt =====
-- Relays of internal/relay, candidate lists and expectations, at which their theorems are applied.
use xessenger_cli.Prelude.{
  ℕ, ◌≤◌, ◌<◌, ◌-◌, List, [], ◌∷◌, true, false, All, replicate, length, none, some, ok, err, arith,
  ◌≡◌, ◌≢◌, refl,
}
use xessenger_cli.Prelude.Assoc.{Map, lookup, delete_if}
use xessenger_cli.Crypto.{Bytes, codes}
use xessenger_cli.Relay.Limits.{default_limits, Window, minute}
use xessenger_cli.Relay.State.{
  Server, PendingCode, new, new_circuit, claim, redeem, reap, at_capacity, no_such_code,
}
use xessenger_cli.Relay.Serve.{Codec, World, publish, serve_message}
use xessenger_cli.Relay.Rates.{admitted, admitted_limit}
use xessenger_cli.Relay.Sections.{
  Section, publishes, claims, issues, drops, acquires, Running, Sound, live, run, claimed,
}
use xessenger_cli.Relay.Ceilings.{run-Sound}
use xessenger_cli.Relay.SingleUse.{claim_once, reap_keeps_slots}
use xessenger_cli.Relay.Handlers.{at, serve_message-Sound}
use xessenger_cli.Rendezvous.Candidates.{
  Net, Candidate, IsSafe, privates, validate_candidates, validate_candidates-IsSafe,
}
use xessenger_cli.Rendezvous.Expect.{expect, withdraw, withdraw-expect}

abbrev home : Bytes
home = codes "192.0.2.1"

abbrev code : Bytes
code = codes "MTIzNA=="

-- Strings stand for themselves.
abbrev pub plain : Codec
plain = record { base64_decode = λ s. some s; base64_encode = λ b. b; split_host_port = λ a. none }

admitted_limit_example :
    admitted home 2 minute
      ((home, 100000000000)
        ∷ (home, 100000000001)
        ∷ (code, 100000000001)
        ∷ (home, 100000000002)
        ∷ [])
      ((home, record { count = 2; start = 5 }) ∷ [])
    ≤ 2
unfolding lookup
admitted_limit_example =
    admitted_limit home 2 minute 100000000000
      ((home, 100000000001) ∷ (code, 100000000001) ∷ (home, 100000000002) ∷ [])
      ((home, record { count = 2; start = 5 }) ∷ []) expired
      (omega arith, (omega arith, (omega arith, tt)))
  where
    expired :
        (w : Window)
        → lookup home ((home, record { count = 2; start = 5 }) ∷ []) ≡ some w
        → minute < 100000000000 - w.start
    expired w e = ground (arith, e)

abbrev busy : List Section
busy =
    acquires home
    ∷ publishes 1 code 7 [] home
    ∷ claims code 8
    ∷ issues 2 (codes "A") (codes "B")
    ∷ []

run-Sound_example :
    Sound default_limits (run default_limits (record { server = new; claiming = 0 }) busy)
run-Sound_example = run-Sound default_limits busy

new-Sound : Sound default_limits (at new 0)
unfolding live
new-Sound = record {
  balanced = refl;
  circuits_le = omega arith;
  pending_le = omega arith;
  conns_le = tt;
}

abbrev pub today : World
today = record {
  now = 3;
  ticket_a = none;
  ticket_b = none;
  own_send = true;
  peer_send = true;
  paired_send = true;
}

serve_message-Sound_example : Sound default_limits (
    at
      (serve_message plain default_limits today 7 home [] (publish (replicate 16 65) []) new).server
      0)
serve_message-Sound_example =
    serve_message-Sound plain default_limits today 7 home [] (publish (replicate 16 65) []) new 0
      new-Sound

abbrev published_code : PendingCode
published_code = record { conn = 7; sealed = []; observed = home; created = 1 }

abbrev waiting : Running
waiting = record { server = record new { pending = (code, published_code) ∷ [] }; claiming = 0 }

wins : (claim default_limits code 8 waiting.server).1 ≡ ok published_code
unfolding claim lookup
wins = refl

claim_once_example :
    (let after =
        (run default_limits
          (claimed waiting (claim default_limits code 8 waiting.server))
          (drops code 7 ∷ [])).server in
      claim default_limits code 9 after ≡ (after, err no_such_code))
claim_once_example =
    claim_once default_limits code 8 9 waiting published_code (drops code 7 ∷ []) wins (tt, tt)

-- All 512 slots taken by pairings that nobody redeemed, one of whose tickets is left, and one code.
abbrev stuck : Server
stuck = record new {
  circuits = 512;
  pending = (code, record published_code { created = 400000000000 }) ∷ [];
  tickets = (codes "A", record { circuit = 0; side = 0 }) ∷ [];
  pipes = new_circuit 5 ∷ [];
}

still_pending :
    lookup code (reap default_limits 400000000000 stuck).pending
    ≡ some (record published_code { created = 400000000000 })
unfolding reap lookup delete_if
still_pending = refl

other_conn : ◌≢◌ {A = ℕ} 7 8
other_conn e = absurd (omega (arith, e))

reap_keeps_slots_example :
    ((redeem (codes "A") (reap default_limits 400000000000 stuck)).1 ≡ none)
    × ((reap default_limits 400000000000 stuck).circuits ≡ 512)
    × ((claim default_limits code 8 (reap default_limits 400000000000 stuck)).1 ≡ err at_capacity)
reap_keeps_slots_example =
    reap_keeps_slots default_limits 400000000000 stuck (codes "A") code 8
      (record published_code { created = 400000000000 }) (omega arith, tt) (omega arith)
      still_pending other_conn

-- Every address is a private one, and the port 1.
abbrev pub lan : Net
lan = record {
  split_host_port = λ a. some (a, codes "1");
  parse_ip = λ h. some (record {
    unspecified = false;
    loopback = false;
    link_local_unicast = false;
    link_local_multicast = false;
    interface_local_multicast = false;
    multicast = false;
    broadcast = false;
    is_private = true;
  });
}

abbrev offered : List Candidate
offered =
    record { addr = codes "a"; kind = [] }
    ∷ record { addr = codes "b"; kind = [] }
    ∷ record { addr = codes "c"; kind = [] }
    ∷ []

validate_candidates-IsSafe_example :
    All (IsSafe lan) (validate_candidates lan offered)
    × (length (validate_candidates lan offered) ≤ 8)
    × (privates lan (validate_candidates lan offered) ≤ 2)
validate_candidates-IsSafe_example = validate_candidates-IsSafe lan offered

abbrev adopting : ℕ
adopting = 1

abbrev earlier : Map ℕ
earlier = (home, 2) ∷ []

withdraw-expect_example :
    lookup home (
      withdraw
        (expect (home ∷ code ∷ []) adopting earlier).1
        (expect (home ∷ code ∷ []) adopting earlier).0)
    ≡ lookup home earlier
withdraw-expect_example = withdraw-expect (home ∷ code ∷ []) adopting earlier home
