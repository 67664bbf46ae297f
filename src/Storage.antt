-- ===== src/Storage.antt =====
-- node-runner/src/storage.rs: the fragment store of a node. `Types` has its data and the paths of
-- fragments, `Ops` its methods, `Collect` the garbage collection; the other modules prove.
pub mod Types
pub mod Ops
pub mod Collect
pub mod Accounting
pub mod History
pub mod Paths
pub mod Removal
pub mod Pinning
pub mod Eviction
pub mod Stops
pub mod Spared
pub mod Collected
mod Examples
pub mod Exact
