-- ===== src/Rendezvous/Client/Events.antt =====
-- internal/rendezvous/client.go: runs of a client, in which the sections of its goroutines come in
-- any order.
use xessenger_cli.Prelude.{ℕ, List, [], ◌∷◌, Bool, Option, none, some, Result}
use xessenger_cli.Crypto.{Bytes}
use xessenger_cli.Relay.Serve.{Codec}
use xessenger_cli.Rendezvous.Messages.{Message}
use xessenger_cli.Rendezvous.Client.Waiters.{
  Client, Error, new_waiter, dispatch, mark_sent, resend_waiters, add_waiter, unregister, connect,
  lose, close, message, await, take_published, take_paired,
}

-- One section of a goroutine; `marks` is the end of a send, which another section can precede.
pub data Event : Type 0 where
  registers : Bytes → Bytes → Bool → Event
  resends : Codec → List Bool → Event
  marks : ℕ → Event
  cancels : Bytes → Event
  connects : ℕ → ℕ → Event
  loses : Event
  receives : Message → Event
  takes_published : ℕ → Event
  takes_paired : ℕ → Event
  closes : Event

-- A channel gives its message, if it holds one.
abbrev pub after_await : Option (Client × Result Error Message) → Client → Client
after_await none c = c
after_await (some (c', r)) c = c'

unfoldable pub step : Event → Client → Client
step (registers rid sealed claims) c = (add_waiter rid (new_waiter sealed claims) c).0
step (resends codec sends) c = (resend_waiters codec sends c).0
step (marks i) c = mark_sent i c
step (cancels rid) c = unregister rid c
step (connects conn rung) c = connect conn rung c
step loses c = lose c
step (receives msg) c = dispatch msg c
step (takes_published i) c = after_await (await message (λ w. w.published) take_published i c) c
step (takes_paired i) c = after_await (await message (λ w. w.paired) take_paired i c) c
step closes c = (close c).0

unfoldable pub run : List Event → Client → Client
unfolding step
run [] c = c
run (e ∷ es) c = run es (step e c)
