-- ===== src/Config/Startup.antt =====
-- From a configuration that pkg/config accepts to the map of domains that pkg/dns builds from it.
pub mod Algorithms
pub mod Loading
pub mod Indexing
pub mod Addresses
pub mod Building
