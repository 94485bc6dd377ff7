-- ===== src/Api.antt =====
-- crates/api: the messages, their conversion to entities, and the gRPC services.
pub mod Proto
pub mod Conversion
pub mod Stream
pub mod Grpc
pub mod Bidder
pub mod Retriever
pub mod Validator
pub mod Calls
