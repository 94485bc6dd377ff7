-- ===== src/Entity/Bid.antt =====
-- crates/entity/src/{bid_trace,bid_submission,blinded_block,signed_header,versioned}.rs. An `Arc` of
-- immutable data is the data, but for the `Arc` of a bid, whose address the auctioneer compares.
use Prim.Native.Nat.{compare, Ordering}
use mev_relay_rs.Prelude.{ℕ, Bool, Bytes, List, Option, some, ◌==◌}
use mev_relay_rs.Crypto.Blst.{Bls}
use mev_relay_rs.Crypto.Keys.{BlsPublicKey, BlsSignature, sig_verify}
use mev_relay_rs.Crypto.Fork.{Domain, ForkName, ForkRoots, signing_root}
use mev_relay_rs.Entity.Types.{B256, Address, U256}
use mev_relay_rs.Entity.Payload.{ExecutionPayload, ExecutionPayloadHeader, BlobsBundle, Withdrawal}
use mev_relay_rs.Entity.Validator.{ValidatorRegistration}

pub record BidTrace (b : Bls) : Type 0 where
  pub slot : ℕ
  pub parent_hash : B256
  pub block_hash : B256
  pub builder_pubkey : BlsPublicKey b
  pub proposer_pubkey : BlsPublicKey b
  pub proposer_fee_recipient : Address
  pub gas_limit : ℕ
  pub gas_used : ℕ
  pub value : U256

-- The Merkle roots that `tree_hash_derive` generates for the signed types and for the SSZ lists.
pub record EntityRoots (b : Bls) : Type 0 where
  pub bid_trace_root : BidTrace b → Bytes
  pub registration_root : ValidatorRegistration b → Bytes
  pub header_root : ExecutionPayloadHeader → Bytes
  pub transactions_root : List Bytes → Bytes
  pub withdrawals_root : List Withdrawal → Bytes

-- `Ord::cmp` of `BidTrace`
unfoldable pub bid_trace_cmp : {b : Bls} → BidTrace b → BidTrace b → Ordering
bid_trace_cmp t u = compare t.value u.value

-- `BidTrace::verify_signature`
unfoldable pub verify_bid :
    (b : Bls) → ForkRoots → EntityRoots b → BidTrace b → BlsSignature b → Domain → Bool
verify_bid b h roots t signature domain =
    sig_verify b signature t.builder_pubkey (signing_root h roots.bid_trace_root t domain)

pub record BidSubmission (b : Bls) : Type 0 where
  pub message : BidTrace b
  pub execution_payload : ExecutionPayload
  pub blobs_bundle : BlobsBundle
  pub signature : BlsSignature b

pub record BlindedBlockResponse : Type 0 where
  pub execution_payload : ExecutionPayload
  pub blobs_bundle : Option BlobsBundle

-- `BidSubmission::to_blinded_block_response`
unfoldable pub to_blinded_block_response : {b : Bls} → BidSubmission b → BlindedBlockResponse
to_blinded_block_response bid = record {
  execution_payload = bid.execution_payload;
  blobs_bundle = some bid.blobs_bundle;
}

-- A shared bid: the value, and the address of its allocation.
pub record Arc {ℓ} (A : Type ℓ) : Type ℓ where
  pub addr : ℕ
  pub value : A

-- `Arc::ptr_eq`
abbrev pub ptr_eq {ℓ} : {A : Type ℓ} → Arc A → Arc A → Bool
ptr_eq p q = p.addr == q.addr

pub record SignedHeader (b : Bls) : Type 0 where
  pub message : ExecutionPayloadHeader
  pub signature : BlsSignature b

-- `SignedHeader::build_header`. A tree hash root has 32 bytes, so `from_slice` copies it.
unfoldable pub build_header : {b : Bls} → EntityRoots b → BidSubmission b → ExecutionPayloadHeader
build_header roots bid =
    let payload = bid.execution_payload in
    record {
      parent_hash = payload.parent_hash;
      fee_recipient = payload.fee_recipient;
      state_root = payload.state_root;
      receipts_root = payload.receipts_root;
      logs_bloom = payload.logs_bloom;
      prev_randao = payload.prev_randao;
      block_number = payload.block_number;
      gas_limit = payload.gas_limit;
      gas_used = payload.gas_used;
      timestamp = payload.timestamp;
      extra_data = payload.extra_data;
      base_fee_per_gas = payload.base_fee_per_gas;
      block_hash = payload.block_hash;
      transactions_root = roots.transactions_root payload.transactions;
      withdrawals_root = roots.withdrawals_root payload.withdrawals;
      blob_gas_used = payload.blob_gas_used;
      excess_blob_gas = payload.excess_blob_gas;
    }

pub record Versioned (T : Type 0) : Type 0 where
  pub version : ForkName
  pub contents : T
