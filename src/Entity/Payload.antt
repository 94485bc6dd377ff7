-- ===== src/Entity/Payload.antt =====
-- crates/entity/src/execution_payload.rs. The SSZ vectors are their lists; the bounds in their types
-- are kept by the constructors of `ssz_types`, which crates/api calls.
use mev_relay_rs.Prelude.{ℕ, Bytes, List}
use mev_relay_rs.Entity.Types.{B256, Address, U256}

pub record Withdrawal : Type 0 where
  pub index : ℕ
  pub validator_index : ℕ
  pub address : Address
  pub amount : ℕ

pub record ExecutionPayload : Type 0 where
  pub parent_hash : B256
  pub fee_recipient : Address
  pub state_root : B256
  pub receipts_root : B256
  pub logs_bloom : Bytes
  pub prev_randao : B256
  pub block_number : ℕ
  pub gas_limit : ℕ
  pub gas_used : ℕ
  pub timestamp : ℕ
  pub extra_data : Bytes
  pub base_fee_per_gas : U256
  pub block_hash : B256
  pub transactions : List Bytes
  pub withdrawals : List Withdrawal
  pub blob_gas_used : ℕ
  pub excess_blob_gas : ℕ

pub record ExecutionPayloadHeader : Type 0 where
  pub parent_hash : B256
  pub fee_recipient : Address
  pub state_root : B256
  pub receipts_root : B256
  pub logs_bloom : Bytes
  pub prev_randao : B256
  pub block_number : ℕ
  pub gas_limit : ℕ
  pub gas_used : ℕ
  pub timestamp : ℕ
  pub extra_data : Bytes
  pub base_fee_per_gas : U256
  pub block_hash : B256
  pub transactions_root : B256
  pub withdrawals_root : B256
  pub blob_gas_used : ℕ
  pub excess_blob_gas : ℕ

pub record BlobsBundle : Type 0 where
  pub commitments : List Bytes
  pub proofs : List Bytes
  pub blobs : List Bytes
