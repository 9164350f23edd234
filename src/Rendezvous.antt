-- ===== src/Rendezvous.antt =====
-- internal/rendezvous and internal/connect: invite codes, the relay's client and its connection, what
-- a peer met through a relay may make us dial, and the inbound connections it may make.
pub mod Messages
pub mod Code
pub mod Candidates
pub mod Sealed
pub mod Client
pub mod Expect
pub mod Websocket
pub mod Channel
