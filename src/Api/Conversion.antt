-- ===== src/Api/Conversion.antt =====
-- crates/api/src/conversion.rs: from messages to entities.
pub mod Fields
pub mod Laws
pub mod Exact
pub mod Sized
use mev_relay_rs.Prelude.{
  ℕ, ◌^◌, ◌≡◌, ◌↔◌, ◌≤◌, Bytes, List, [], ◌∷◌, Option, none, some, Bool, not, Message, String, text,
  num, msg, Result, ok, err, ok_or, map_err, collect, length, ◌>>=◌, ◌==◌, if◌then◌else◌,
}
use mev_relay_rs.Crypto.Blst.{Bls}
use mev_relay_rs.Crypto.Keys.{pk_deserialize, sig_deserialize}
use mev_relay_rs.Entity.Types.{B256, Address, U256}
use mev_relay_rs.Entity.Payload.{ExecutionPayload, Withdrawal, BlobsBundle}
use mev_relay_rs.Entity.Bid.{BidSubmission, BidTrace}
use mev_relay_rs.Entity.Validator.{SignedValidatorRegistration}
use mev_relay_rs.Api.Proto

pub data ConversionError : Type 0 where
  hash : Message → ConversionError
  address : Message → ConversionError
  bls_public_key : Message → ConversionError
  bls_signature : Message → ConversionError
  u256 : Message → ConversionError
  fixed_vector : Message → ConversionError
  variable_list : Message → ConversionError
  missing_field : Message → ConversionError
  bytes48 : Message → ConversionError
  blob : Message → ConversionError

-- `ConversionError::to_string`
unfoldable pub conversion_message : ConversionError → Message
conversion_message (hash m) = text "invalid hash: " ∷ m
conversion_message (address m) = text "invalid address: " ∷ m
conversion_message (bls_public_key m) = text "invalid BLS public key: " ∷ m
conversion_message (bls_signature m) = text "invalid BLS signature: " ∷ m
conversion_message (u256 m) = text "invalid U256: " ∷ m
conversion_message (fixed_vector m) = text "invalid fixed vector: " ∷ m
conversion_message (variable_list m) = text "invalid variable list: " ∷ m
conversion_message (missing_field m) = text "missing required field: " ∷ m
conversion_message (bytes48 m) = text "invalid bytes length for Bytes48: " ∷ m
conversion_message (blob m) = text "invalid bytes length for Blob: " ∷ m

-- A conversion stops with an error, or by a panic of a library call.
pub data Failure : Type 0 where
  refuses : ConversionError → Failure
  panics : Failure

-- What the conversions call in `ssz_types` and `alloy_primitives`; `none` is a panic.
pub record Codecs : Type 1 where
  -- `FixedVector::<_, N>::new`, `VariableList::<_, N>::new`
  pub fixed_vector_new : {A : Type 0} → ℕ → List A → Result Message (List A)
  pub variable_list_new : {A : Type 0} → ℕ → List A → Result Message (List A)
  pub u256_from_str : Bytes → Result Message U256
  pub from_be_slice : Bytes → Option U256

-- Their documented behaviour: the vectors check the length, and `from_be_slice` panics beyond 32
-- bytes.
pub record CodecLaws (k : Codecs) : Type 1 where
  pub fixed_vector_iff :
      {A : Type 0} (n : ℕ) (xs ys : List A)
      → (k.fixed_vector_new n xs ≡ ok ys) ↔ ((ys ≡ xs) × (length xs ≡ n))
  pub variable_list_iff :
      {A : Type 0} (n : ℕ) (xs ys : List A)
      → (k.variable_list_new n xs ≡ ok ys) ↔ ((ys ≡ xs) × (length xs ≤ n))
  pub from_be_slice_iff :
      (bytes : Bytes) → ((v : U256) × (k.from_be_slice bytes ≡ some v)) ↔ (length bytes ≤ 32)

-- `map_err(ConversionError::..)?`
abbrev pub refuse : {A : Type 0} → Result Message A → (Message → ConversionError) → Result Failure A
refuse r f = map_err r (λ m. refuses (f m))

abbrev pub expected : String → ℕ → Message
expected s n = text s ∷ num n ∷ []

unfoldable pub bytes_to_b256 : Bytes → Result Failure B256
bytes_to_b256 bytes =
    if length bytes == 32
    then ok bytes
    else err (refuses (hash (expected "expected 32 bytes, got " (length bytes))))

unfoldable pub bytes_to_address : Bytes → Result Failure Address
bytes_to_address bytes =
    if length bytes == 20
    then ok bytes
    else err (refuses (address (expected "expected 20 bytes, got " (length bytes))))

unfoldable pub bytes_to_bytes48 : Bytes → Result Failure Bytes
bytes_to_bytes48 bytes =
    if not (length bytes == 48)
    then err (refuses (bytes48 (expected "expected 48 bytes, got " (length bytes))))
    else ok bytes

unfoldable pub bytes_to_blob : Bytes → Result Failure Bytes
bytes_to_blob bytes =
    if not (length bytes == 131072)
    then err (refuses (blob (expected "expected 131072 bytes, got " (length bytes))))
    else ok bytes

-- `Withdrawal::try_from`
unfoldable pub try_from_withdrawal : Proto.Withdrawal → Result Failure Withdrawal
try_from_withdrawal w = do
  addr ← bytes_to_address w.address
  ok (record {
    index = w.index;
    validator_index = w.validator_index;
    address = addr;
    amount = w.amount;
  })

-- `BlobsBundle::try_from`
unfoldable pub try_from_blobs : Proto.BlobsBundle → Result Failure BlobsBundle
try_from_blobs b = do
  commitments ← collect bytes_to_bytes48 b.commitments
  proofs ← collect bytes_to_bytes48 b.proofs
  blobs ← collect bytes_to_blob b.blobs
  ok (record { commitments = commitments; proofs = proofs; blobs = blobs })

module _ (k : Codecs) where
  -- `ExecutionPayload::try_from`, with the bounds of the entity's types
  unfoldable pub try_from_payload : Proto.ExecutionPayload → Result Failure ExecutionPayload
  try_from_payload p = do
    parent_hash ← bytes_to_b256 p.parent_hash
    fee_recipient ← bytes_to_address p.fee_recipient
    state_root ← bytes_to_b256 p.state_root
    receipts_root ← bytes_to_b256 p.receipts_root
    logs_bloom ← refuse (k.fixed_vector_new 256 p.logs_bloom) fixed_vector
    prev_randao ← bytes_to_b256 p.prev_randao
    extra_data ← refuse (k.variable_list_new 32 p.extra_data) variable_list
    base_fee ← ok_or (k.from_be_slice p.base_fee_per_gas) panics
    block_hash ← bytes_to_b256 p.block_hash
    inner ← collect (λ tx. refuse (k.variable_list_new (2 ^ 30) tx) variable_list) p.transactions
    transactions ← refuse (k.variable_list_new (2 ^ 20) inner) variable_list
    moved ← collect try_from_withdrawal p.withdrawals
    withdrawals ← refuse (k.variable_list_new 16 moved) variable_list
    ok (record {
      parent_hash = parent_hash;
      fee_recipient = fee_recipient;
      state_root = state_root;
      receipts_root = receipts_root;
      logs_bloom = logs_bloom;
      prev_randao = prev_randao;
      block_number = p.block_number;
      gas_limit = p.gas_limit;
      gas_used = p.gas_used;
      timestamp = p.timestamp;
      extra_data = extra_data;
      base_fee_per_gas = base_fee;
      block_hash = block_hash;
      transactions = transactions;
      withdrawals = withdrawals;
      blob_gas_used = p.blob_gas_used;
      excess_blob_gas = p.excess_blob_gas;
    })

module _ (b : Bls) (k : Codecs) where
  -- `BidTrace::try_from`
  unfoldable pub try_from_trace : Proto.BidTrace → Result Failure (BidTrace b)
  try_from_trace t = do
    parent_hash ← bytes_to_b256 t.parent_hash
    block_hash ← bytes_to_b256 t.block_hash
    builder_pubkey ← refuse (pk_deserialize b t.builder_pubkey) bls_public_key
    proposer_pubkey ← refuse (pk_deserialize b t.proposer_pubkey) bls_public_key
    proposer_fee_recipient ← bytes_to_address t.proposer_fee_recipient
    value ← refuse (k.u256_from_str t.value) u256
    ok (record {
      slot = t.slot;
      parent_hash = parent_hash;
      block_hash = block_hash;
      builder_pubkey = builder_pubkey;
      proposer_pubkey = proposer_pubkey;
      proposer_fee_recipient = proposer_fee_recipient;
      gas_limit = t.gas_limit;
      gas_used = t.gas_used;
      value = value;
    })

  abbrev pub blobs_or_default : Option Proto.BlobsBundle → Proto.BlobsBundle
  blobs_or_default none = record { commitments = []; proofs = []; blobs = [] }
  blobs_or_default (some x) = x

  -- `BidSubmission::try_from`
  unfoldable pub try_from_bid : Proto.BidRequest → Result Failure (BidSubmission b)
  try_from_bid req = do
    trace ← ok_or req.bid_trace (refuses (missing_field (msg "bid_trace")))
    payload ← ok_or req.execution_payload (refuses (missing_field (msg "execution_payload")))
    message ← try_from_trace trace
    execution_payload ← try_from_payload k payload
    blobs_bundle ← try_from_blobs (blobs_or_default req.blobs_bundle)
    signature ← refuse (sig_deserialize b req.signature) bls_signature
    ok (record {
      message = message;
      execution_payload = execution_payload;
      blobs_bundle = blobs_bundle;
      signature = signature;
    })

  -- `SignedValidatorRegistration::try_from`
  unfoldable pub try_from_registration :
      Proto.SignedValidatorRegistration → Result Failure (SignedValidatorRegistration b)
  try_from_registration s = do
    m ← ok_or s.message (refuses (missing_field (msg "message")))
    fee_recipient ← bytes_to_address m.fee_recipient
    pubkey ← refuse (pk_deserialize b m.pubkey) bls_public_key
    signature ← refuse (sig_deserialize b s.signature) bls_signature
    ok (record {
      message = record {
        fee_recipient = fee_recipient;
        gas_limit = m.gas_limit;
        timestamp = m.timestamp;
        pubkey = pubkey;
      };
      signature = signature;
    })
