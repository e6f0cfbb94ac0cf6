-- ===== src/Overwatch.antt =====
-- pkg/overwatch: the registry of backends, the table of latencies and the authentication of agents.
pub mod Registry
pub mod LatencyTable
pub mod AgentAuth
mod Tests
