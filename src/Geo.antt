-- ===== src/Geo.antt =====
-- pkg/geo: the region of an address.
pub mod Custom
pub mod Lookup
