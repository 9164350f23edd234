-- ===== src/Rendezvous/Client.antt =====
-- internal/rendezvous/client.go: a client's control connection to a relay and the rendezvous it has
-- outstanding. A waiter is a place in the list of the waiters made, so that the map of the client and
-- an invite share it as the source's pointers do; each of its channels holds one message. Each section
-- that holds the mutex is one operation, a connection is a number, and whether a send succeeds is an
-- argument. A rung is its number in the ladder.
pub mod Waiters
pub mod Marks
pub mod Resend
pub mod Events
pub mod Ownership
pub mod Places
pub mod Routing
pub mod Reconnect
pub mod Pairing
pub mod Backoff
pub mod Claims
pub mod Answers
pub mod Introduction
