-- ===== src/Datastore.antt =====
-- crates/datastore: the storage and the auctioneer, their traits and their in-memory versions.
pub mod Storage
pub mod MemoryStorage
pub mod Auctioneer
pub mod Cache
pub mod MemoryAuctioneer
