-- ===== src/Relay.antt =====
-- The relay as a whole: the use cases of crates/usecase over the in-memory storage and auctioneer
-- of crates/datastore, as crates/app/src/lib.rs wires them.
pub mod State
pub mod Kept
pub mod Bids
pub mod Soundness
pub mod Delivery
pub mod Race
pub mod Retrieval
pub mod Interleaving
pub mod Served
