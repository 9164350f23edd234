-- ===== src/Examples.antt =====
-- Concrete runs of the modelled code, at which the theorems with conditions are applied.
pub mod Sessions
pub mod Wire
pub mod Relays
pub mod Stores
pub mod Managers
pub mod Sockets
pub mod Clients
pub mod Handshakes
