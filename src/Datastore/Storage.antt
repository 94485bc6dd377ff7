-- ===== src/Datastore/Storage.antt =====
-- crates/datastore/src/storage/traits.rs: the trait `Storage`, on an explicit state. Each call is one
-- critical section.
use mev_relay_rs.Prelude.{ℕ, Bool, List, Option, HashMap}
use mev_relay_rs.Crypto.Blst.{Bls}
use mev_relay_rs.Crypto.Keys.{BlsPublicKey}
use mev_relay_rs.Entity.Types.{B256}
use mev_relay_rs.Entity.Bid.{BlindedBlockResponse}
use mev_relay_rs.Entity.Validator.{ValidatorRegistration, ProposerDuty, PayloadAttributes}
use mev_relay_rs.Entity.HeadSlot.{HeadSlot}

pub record Storage (b : Bls) : Type 1 where
  pub State : Type 0
  pub set_head_slot : HeadSlot → State → State
  pub read_head_slot : State → HeadSlot
  pub set_payload_attributes : PayloadAttributes → State → State
  pub read_payload_attributes : State → PayloadAttributes
  pub set_validator_registration : BlsPublicKey b → ValidatorRegistration b → State → State
  pub set_validator_registrations :
      HashMap (BlsPublicKey b) (ValidatorRegistration b) → State → State
  pub read_validator_registration : BlsPublicKey b → State → Option (ValidatorRegistration b)
  pub empty_validator_regs : State → Bool
  pub is_whitelisted_builder : BlsPublicKey b → State → Bool
  pub set_proposer_duties : List (ProposerDuty b) → State → State
  pub find_duty_by_slot : ℕ → State → Option (ProposerDuty b)
  pub read_proposer_duties : State → List (ProposerDuty b)
  pub set_blinded_block_response : BlsPublicKey b → BlindedBlockResponse → State → State
  pub read_blinded_block_response : BlsPublicKey b → State → Option BlindedBlockResponse
  pub set_delivered_blocks : B256 → State → State
