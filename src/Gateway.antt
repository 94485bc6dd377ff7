-- ===== src/Gateway.antt =====
-- crates/gateway/src/beacon: the connection to a beacon node.
pub mod Events
pub mod Merged
pub mod Node
pub mod Api
pub mod Service
pub mod Head
pub mod Publish
pub mod Subscribe
pub mod Silence
