-- ===== src/App.antt =====
-- crates/app: the configuration, and the service that follows the beacon chain.
pub mod Config
pub mod Service
pub mod Start
