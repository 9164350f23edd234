-- ===== src/Proto.antt =====
-- internal/proto: the cryptographic wire protocol.
pub mod Replay
pub mod Frame
pub mod Session
pub mod Handshake
