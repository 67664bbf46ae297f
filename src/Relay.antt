-- ===== src/Relay.antt =====
-- protocol/src/zk_relay.rs: circuits through relays, with a layer of encryption for each: the client
-- that builds and uses them, and the relay that serves them.
pub mod Types
pub mod Handshake
pub mod Circuit
pub mod Client
pub mod Node
pub mod Cells
pub mod Peeling
pub mod Limits
pub mod Bounded
pub mod Agreement
pub mod Extending
pub mod Keeps
pub mod Isolation
pub mod Replay
pub mod Captured
pub mod Retained
pub mod Untouched
pub mod Traffic
pub mod Sample
mod Examples
