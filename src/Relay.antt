-- ===== src/Relay.antt =====
-- internal/relay: the rendezvous and relay server.
pub mod Limits
pub mod State
pub mod Serve
pub mod Rates
pub mod Sections
pub mod Ceilings
pub mod SingleUse
pub mod Handlers
