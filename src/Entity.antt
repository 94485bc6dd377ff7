-- ===== src/Entity.antt =====
-- crates/entity: the domain types.
pub mod Types
pub mod Payload
pub mod Bid
pub mod Sized
pub mod Validator
pub mod HeadSlot
pub mod BeaconEvent
