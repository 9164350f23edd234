-- ===== src/Lib.antt =====
-- A verification library for Heimdall, the end-to-end encrypted messenger of this repository, and its
-- rendezvous relay.
--
-- Two peers meet directly or through a relay, run a handshake over a framed byte stream, and then
-- exchange sealed frames in a session. The trust store remembers the peers' keys. The relay pairs the
-- publisher of an invite code with a claimer and copies bytes between them; it is never trusted.
--
-- The parts, and where each is modelled:
--   internal/crypto/crypto.go               Crypto, with Crypto/Aead
--   internal/proto/replay.go                Proto/Replay
--   internal/proto/frame.go, chatframe.go   Proto/Frame
--   internal/proto/session.go               Proto/Session
--   internal/proto/handshake.go, pairing.go Proto/Handshake
--   internal/transport/transport.go         Transport
--   internal/rendezvous/candidates.go       Rendezvous/Candidates and Rendezvous/Sealed
--   internal/rendezvous/code.go             Rendezvous/Code
--   internal/rendezvous/messages.go         Rendezvous/Messages
--   internal/rendezvous/client.go           Rendezvous/Client
--   internal/connect/expect.go              Rendezvous/Expect
--   internal/rendezvous/ws.go               Rendezvous/Websocket and Rendezvous/Channel
--   internal/session/manager.go             Manager, with the handshake in Manager/Shake
--   internal/relay/limits.go                Relay/Limits
--   internal/relay/server.go, encoding.go   Relay/State and Relay/Serve
--   internal/peers/peers.go                 Peers, with the fingerprints of internal/identity/identity.go
--   internal/identity/identity.go           IdentityFile, with the signing in Proto/Handshake
-- Prelude holds what they share: tests, lists, results, bits, bytes and maps. Examples holds concrete
-- runs, with the toy primitives of Crypto/Toy.
--
-- A Go method becomes a function of the same name in snake_case, from the state before it to the state
-- after it with its result; an error is a value, and what was changed before it stays changed. `Open`
-- is `open'`. A mutex makes each section that holds it one step: the relay's handlers are split into
-- those steps in Relay/State and composed in Relay/Serve, and Relay/Sections runs the steps in any
-- order. Strings and byte slices are lists of
-- numbers, a map with string keys is an association list, pointers are their targets or, for the
-- relay's circuits and connections, places in a list and numbers. Machine integers are natural
-- numbers with their wrap-around written out. Random bytes, the clock, and whether a send succeeds
-- are arguments.
--
-- The standard library is used through parameters where the source only calls it: Crypto.Primitives
-- for cryptography, with its documented behaviour in Crypto.Laws, Relay.Serve.Codec for base64 and
-- addresses, Rendezvous.Candidates.Net for IP addresses, Rendezvous.Code.Alphabet for base32 and upper
-- case, Rendezvous.Messages.Json, Rendezvous.Sealed.SetJson and IdentityFile.Platform for JSON and
-- PBKDF2. Loops are structural recursion; the digits of a number are counted by the places of the
-- buffer of its `itoa`, ten for an epoch of 32 bits and twenty for a port. The loop of `nextFrame` has
-- the length of its input as fuel: each round takes two bytes of it. `io.ReadFull` over `Read` has the
-- size of its buffer, since each read gives a byte.
--
-- The manager's operations are functions that run from their start to their end (Manager). Their
-- sections, between which the goroutines of the source run others, are a step relation
-- (Manager/Sections): the function of `once`, in the parts that `dropConn` runs, `register` with the
-- mutex held across `old.close()`, and what the loops do to one connection. A connection is a number
-- in a heap, so that the maps, the loops and the timers share it as the source's pointers do.
--
-- A rendezvous client keeps its waiters in a list, and its map and its invites hold places of that
-- list; the sections of its goroutines come in any order (Rendezvous/Client/Events). Its messages are
-- those of the relay in the form that `wire` gives (Rendezvous/Messages), so that a run of the relay
-- and of two clients is a composition of the two models (Rendezvous/Client/Introduction).
--
-- Not modelled: `Shutdown` of the manager, which works by a list from before its sleep; sockets, listeners and deadlines; the HTTP upgrade of a WebSocket; dialling with its
-- ladder of rungs, hole punching and the race of paths, which are system calls, goroutines and timers;
-- the JSON forms and files other than the identity's, which are parameters or left out; the command
-- lines.
pub mod Prelude
pub mod Crypto
pub mod Proto
pub mod Transport
pub mod Rendezvous
pub mod Relay
pub mod Peers
pub mod Manager
pub mod IdentityFile
pub mod Examples
