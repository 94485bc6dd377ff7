-- ===== src/Datastore/MemoryStorage.antt =====
-- crates/datastore/src/storage/memory/storage.rs. The clones of a `MemoryStorage` share one
-- `RwLock`, so the state is passed along; each method holds the lock once.
pub mod Laws
use mev_relay_rs.Prelude.{
  ℕ, Bool, true, false, ◌||◌, List, [], ◌∷◌, ◌++◌, Option, HashMap, lookup, insert, find, is_empty,
  ◌==◌,
}
use mev_relay_rs.Crypto.Blst.{Bls}
use mev_relay_rs.Crypto.Keys.{BlsPublicKey}
use mev_relay_rs.Entity.Types.{B256, b256_default, address_default}
use mev_relay_rs.Entity.Bid.{BlindedBlockResponse}
use mev_relay_rs.Entity.Validator.{ValidatorRegistration, ProposerDuty, PayloadAttributes}
use mev_relay_rs.Entity.HeadSlot.{HeadSlot}
use mev_relay_rs.Datastore.Storage.{Storage}

-- `MemoryStorageInner`
pub record MemoryStorage (b : Bls) : Type 0 where
  pub head_slot : HeadSlot
  pub payload_attributes : PayloadAttributes
  pub validator_registrations : HashMap (BlsPublicKey b) (ValidatorRegistration b)
  pub proposer_duties : List (ProposerDuty b)
  pub whitelist : List (BlsPublicKey b)
  pub blinded_blocks : HashMap (BlsPublicKey b) BlindedBlockResponse
  pub delivered_blocks : List B256

-- `MemoryStorage::new`
unfoldable pub new_storage : {b : Bls} → List (BlsPublicKey b) → MemoryStorage b
new_storage whitelist = record {
  head_slot = record { slot = 0 };
  payload_attributes = record {
    timestamp = 0;
    prev_randao = b256_default;
    suggested_fee_recipient = address_default;
  };
  validator_registrations = [];
  proposer_duties = [];
  whitelist = whitelist;
  blinded_blocks = [];
  delivered_blocks = [];
}

module _ (b : Bls) where
  unfoldable pub set_head_slot : HeadSlot → MemoryStorage b → MemoryStorage b
  set_head_slot slot s = record s { head_slot = slot }

  unfoldable pub read_head_slot : MemoryStorage b → HeadSlot
  read_head_slot s = s.head_slot

  unfoldable pub set_payload_attributes : PayloadAttributes → MemoryStorage b → MemoryStorage b
  set_payload_attributes attrs s = record s { payload_attributes = attrs }

  unfoldable pub read_payload_attributes : MemoryStorage b → PayloadAttributes
  read_payload_attributes s = s.payload_attributes

  unfoldable pub set_validator_registration :
      BlsPublicKey b → ValidatorRegistration b → MemoryStorage b → MemoryStorage b
  set_validator_registration key reg s = record s {
    validator_registrations = insert b.pk_eq key reg s.validator_registrations;
  }

  unfoldable pub set_validator_registrations :
      HashMap (BlsPublicKey b) (ValidatorRegistration b) → MemoryStorage b → MemoryStorage b
  set_validator_registrations regs s = record s { validator_registrations = regs }

  unfoldable pub read_validator_registration :
      BlsPublicKey b → MemoryStorage b → Option (ValidatorRegistration b)
  read_validator_registration key s = lookup b.pk_eq key s.validator_registrations

  unfoldable pub empty_validator_regs : MemoryStorage b → Bool
  empty_validator_regs s = is_empty s.validator_registrations

  unfoldable pub contains : BlsPublicKey b → List (BlsPublicKey b) → Bool
  contains key [] = false
  contains key (k ∷ ks) = b.pk_eq.beq k key || contains key ks

  unfoldable pub is_whitelisted_builder : BlsPublicKey b → MemoryStorage b → Bool
  unfolding contains
  is_whitelisted_builder key s = contains key s.whitelist

  unfoldable pub set_proposer_duties : List (ProposerDuty b) → MemoryStorage b → MemoryStorage b
  set_proposer_duties duties s = record s { proposer_duties = duties }

  unfoldable pub find_duty_by_slot : ℕ → MemoryStorage b → Option (ProposerDuty b)
  find_duty_by_slot slot s = find (λ d. d.slot == slot) s.proposer_duties

  unfoldable pub read_proposer_duties : MemoryStorage b → List (ProposerDuty b)
  read_proposer_duties s = s.proposer_duties

  unfoldable pub set_blinded_block_response :
      BlsPublicKey b → BlindedBlockResponse → MemoryStorage b → MemoryStorage b
  set_blinded_block_response proposer resp s = record s {
    blinded_blocks = insert b.pk_eq proposer resp s.blinded_blocks;
  }

  unfoldable pub read_blinded_block_response :
      BlsPublicKey b → MemoryStorage b → Option BlindedBlockResponse
  read_blinded_block_response proposer s = lookup b.pk_eq proposer s.blinded_blocks

  unfoldable pub set_delivered_blocks : B256 → MemoryStorage b → MemoryStorage b
  set_delivered_blocks block_hash s = record s {
    delivered_blocks = s.delivered_blocks ++ block_hash ∷ [];
  }

  -- `impl Storage for MemoryStorage`
  abbrev pub memory_storage : Storage b
  memory_storage = record {
    State = MemoryStorage b;
    set_head_slot = set_head_slot;
    read_head_slot = read_head_slot;
    set_payload_attributes = set_payload_attributes;
    read_payload_attributes = read_payload_attributes;
    set_validator_registration = set_validator_registration;
    set_validator_registrations = set_validator_registrations;
    read_validator_registration = read_validator_registration;
    empty_validator_regs = empty_validator_regs;
    is_whitelisted_builder = is_whitelisted_builder;
    set_proposer_duties = set_proposer_duties;
    find_duty_by_slot = find_duty_by_slot;
    read_proposer_duties = read_proposer_duties;
    set_blinded_block_response = set_blinded_block_response;
    read_blinded_block_response = read_blinded_block_response;
    set_delivered_blocks = set_delivered_blocks;
  }
