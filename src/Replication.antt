-- ===== src/Replication.antt =====
-- protocol/src/replication.rs: who holds which fragment, and the tasks that make more copies. A
-- peer's identity is a parameter, with its equality and its text; the clocks of a call are
-- arguments, `now` for the steady one and `unix` for the seconds since 1970.
-- `Types` has the records, `Manager` the methods that change the state, `Queries` those that read it
-- and make tasks; the other modules prove.
pub mod Types
pub mod Manager
pub mod Queries
pub mod Status
pub mod Tasks
mod Examples
