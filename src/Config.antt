-- ===== src/Config.antt =====
-- pkg/config: the configuration file, with its includes, defaults and validation.
pub mod Types
pub mod Defaults
pub mod Validator
pub mod Includes
pub mod Startup
pub mod Tests
