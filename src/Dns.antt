-- ===== src/Dns.antt =====
-- pkg/dns: the domains that are served, and the answers to queries.
pub mod Net
pub mod Domains
pub mod Build
pub mod Handler
pub mod Answers
pub mod Dropping
pub mod Servers
pub mod Parsed
pub mod Reload
pub mod Serving
mod Tests
