-- ===== src/Config.antt =====
-- src/Config.hpp: the configuration, read from JSON with the assertions of the Debug build.
pub mod Load
pub mod PoolLaws
