-- ===== src/Overwatch/Registry.antt =====
-- pkg/overwatch/registry.go: the backends under their keys. `State` has the data and the status
-- computation, `Changes`, `Sweeps` and `Queries` the
-- registry's methods, and the others what is proved of them.
pub mod State
pub mod Changes
pub mod Sweeps
pub mod Queries
pub mod Authority
pub mod Run
pub mod Keyed
pub mod Runs
pub mod Expiry
pub mod LastSeen
pub mod Aging
pub mod Lifecycle
pub mod Stored
pub mod Durable
