-- ===== src/Routing.antt =====
-- pkg/routing: the choice of one server out of a pool. `Core` has the data, the children one router
-- each, and `Router` their common interface.
mod Tests
pub mod Core
pub mod RoundRobin
pub mod Weighted
pub mod Lowest
pub mod Latency
pub mod Learned
pub mod Geo
pub mod Router
