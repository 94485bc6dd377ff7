-- ===== src/UseCase.antt =====
-- crates/usecase: the four use cases, each over the traits of crates/datastore.
pub mod Error
pub mod Exec
pub mod SubmitBid
pub mod GetHeader
pub mod RegisterValidator
pub mod UnblindBlock
pub mod Task
