-- ===== src/Rendezvous/Client/Reconnect.antt =====
-- internal/rendezvous/client.go: a client's outstanding rendezvous over a lost connection.
use xessenger_cli.Prelude.{ℕ, List, map, Bool, take, drop, ◌≡◌}
use xessenger_cli.Relay.Serve.{Codec}
use xessenger_cli.Rendezvous.Client.Waiters.{new_client, pending_of, resend_waiters, lose, connect}
use xessenger_cli.Rendezvous.Client.Events.{Event, run}
use xessenger_cli.Rendezvous.Client.Marks.{successes, request_of}
use xessenger_cli.Rendezvous.Client.Resend.{reconnect_resends}
use xessenger_cli.Rendezvous.Client.Places.{run-IsWf, new_client-IsWf}

-- Whatever sections of its goroutines a client has run, in any order: if its connection is then lost and another is up, `resendWaiters` sends over the new one the request of each rendezvous outstanding, in the order of the map, up to the first send that fails, and exactly the others are still to be sent.
pub outstanding_resent :
    (es : List Event) (codec : Codec) (conn rung : ℕ) (sends : List Bool)
    → (let c = run es new_client in
        let again = resend_waiters codec sends (connect conn rung (lose c)) in
        (again.1 ≡ map (request_of codec conn c.made) (take (successes sends) c.waiters))
        × (pending_of c.waiters again.0.made ≡ drop (successes sends) c.waiters))
outstanding_resent es codec conn rung sends =
    reconnect_resends codec conn rung sends (run es new_client)
      (run-IsWf es new_client new_client-IsWf).places
