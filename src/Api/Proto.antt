-- ===== src/Api/Proto.antt =====
-- crates/api/src/proto/relay.rs: the messages. A protobuf `string` is its bytes.
use mev_relay_rs.Prelude.{ℕ, Bytes, List, Option, Message}

pub record BidTrace : Type 0 where
  pub slot : ℕ
  pub parent_hash : Bytes
  pub block_hash : Bytes
  pub builder_pubkey : Bytes
  pub proposer_pubkey : Bytes
  pub proposer_fee_recipient : Bytes
  pub gas_limit : ℕ
  pub gas_used : ℕ
  pub value : Bytes

pub record Withdrawal : Type 0 where
  pub index : ℕ
  pub validator_index : ℕ
  pub address : Bytes
  pub amount : ℕ

pub record ExecutionPayload : Type 0 where
  pub parent_hash : Bytes
  pub state_root : Bytes
  pub receipts_root : Bytes
  pub logs_bloom : Bytes
  pub prev_randao : Bytes
  pub extra_data : Bytes
  pub base_fee_per_gas : Bytes
  pub fee_recipient : Bytes
  pub block_hash : Bytes
  pub transactions : List Bytes
  pub withdrawals : List Withdrawal
  pub block_number : ℕ
  pub gas_limit : ℕ
  pub timestamp : ℕ
  pub gas_used : ℕ
  pub blob_gas_used : ℕ
  pub excess_blob_gas : ℕ

pub record BlobsBundle : Type 0 where
  pub commitments : List Bytes
  pub proofs : List Bytes
  pub blobs : List Bytes

pub record BidRequest : Type 0 where
  pub bid_trace : Option BidTrace
  pub execution_payload : Option ExecutionPayload
  pub signature : Bytes
  pub blobs_bundle : Option BlobsBundle

pub record BidResponse : Type 0 where
  pub code : ℕ
  pub message : Message

pub record RetrieveRequest : Type 0 where
  pub slot : ℕ
  pub parent_hash : Bytes
  pub proposer_pubkey : Bytes

pub record RetrieveResponse : Type 0 where
  pub signed_header : Bytes
  pub execution_payload : Bytes
  pub blobs_bundle : Bytes

pub record SubmitBlindedBlockRequest : Type 0 where
  pub slot : ℕ
  pub proposer_index : ℕ
  pub block_hash : Bytes
  pub signature : Bytes

pub record BlindedBlockResponse : Type 0 where
  pub execution_payload : Bytes
  pub blobs_bundle : Bytes
  pub block_hash : Bytes

pub record ValidatorRegistrationMessage : Type 0 where
  pub fee_recipient : Bytes
  pub gas_limit : ℕ
  pub timestamp : ℕ
  pub pubkey : Bytes

pub record SignedValidatorRegistration : Type 0 where
  pub message : Option ValidatorRegistrationMessage
  pub signature : Bytes

pub record RegisterValidatorRequest : Type 0 where
  pub registration : Option SignedValidatorRegistration

pub record RegisterValidatorResponse : Type 0 where
  pub code : ℕ
  pub message : Message
