-- ===== src/Naming.antt =====
-- protocol/src/naming.rs: names, their signed records, and the caches of them.
pub mod Types
pub mod Manager
pub mod Resolver
pub mod Conflict
pub mod AnyOrder
pub mod Latest
pub mod Winner
pub mod Lookup
pub mod Signing
pub mod Names
pub mod Sample
mod Examples
