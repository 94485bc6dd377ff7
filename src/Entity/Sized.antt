-- ===== src/Entity/Sized.antt =====
-- The bounds in the types of crates/entity: the bytes of a hash, an address and an SSZ vector, and
-- how many elements an SSZ list has at most.
use mev_relay_rs.Prelude.{ℕ, ◌^◌, ◌≤◌, ◌≡◌, Bytes, All, length}
use mev_relay_rs.Crypto.Blst.{Bls}
use mev_relay_rs.Entity.Payload.{ExecutionPayload, Withdrawal, BlobsBundle}
use mev_relay_rs.Entity.Bid.{BidTrace, BidSubmission}
use mev_relay_rs.Entity.Validator.{ValidatorRegistration}

-- `[u8; N]`, `FixedVector<u8, N>`
abbrev pub HasBytes : ℕ → Bytes → Type 0
HasBytes n v = length v ≡ n

-- `ExecutionPayload`
pub record IsSizedPayload (p : ExecutionPayload) : Type 0 where
  pub parent_hash : HasBytes 32 p.parent_hash
  pub fee_recipient : HasBytes 20 p.fee_recipient
  pub state_root : HasBytes 32 p.state_root
  pub receipts_root : HasBytes 32 p.receipts_root
  pub logs_bloom : HasBytes 256 p.logs_bloom
  pub prev_randao : HasBytes 32 p.prev_randao
  pub extra_data : length p.extra_data ≤ 32
  pub block_hash : HasBytes 32 p.block_hash
  pub transactions :
      All (λ (tx : Bytes). length tx ≤ 2 ^ 30) p.transactions × (length p.transactions ≤ 2 ^ 20)
  pub withdrawals :
      All (λ (x : Withdrawal). HasBytes 20 x.address) p.withdrawals × (length p.withdrawals ≤ 16)

-- `BlobsBundle`
pub record IsSizedBlobs (x : BlobsBundle) : Type 0 where
  pub commitments : All (HasBytes 48) x.commitments
  pub proofs : All (HasBytes 48) x.proofs
  pub blobs : All (HasBytes 131072) x.blobs

-- `BidTrace`
pub record IsSizedTrace {b : Bls} (t : BidTrace b) : Type 0 where
  pub parent_hash : HasBytes 32 t.parent_hash
  pub block_hash : HasBytes 32 t.block_hash
  pub proposer_fee_recipient : HasBytes 20 t.proposer_fee_recipient

-- `BidSubmission`
pub record IsSizedBid {b : Bls} (bid : BidSubmission b) : Type 0 where
  pub message : IsSizedTrace bid.message
  pub execution_payload : IsSizedPayload bid.execution_payload
  pub blobs_bundle : IsSizedBlobs bid.blobs_bundle

-- `ValidatorRegistration`
abbrev pub IsSizedRegistration : {b : Bls} → ValidatorRegistration b → Type 0
IsSizedRegistration m = HasBytes 20 m.fee_recipient
