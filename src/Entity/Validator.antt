-- ===== src/Entity/Validator.antt =====
-- crates/entity/src/{validator,proposer_duty,payload_attributes,sync}.rs.
use mev_relay_rs.Prelude.{ℕ, Bool, Bytes}
use mev_relay_rs.Crypto.Blst.{Bls}
use mev_relay_rs.Crypto.Keys.{BlsPublicKey, BlsSignature, sig_verify}
use mev_relay_rs.Crypto.Fork.{Domain, ForkRoots, signing_root}
use mev_relay_rs.Entity.Types.{B256, Address}

pub record ValidatorRegistration (b : Bls) : Type 0 where
  pub fee_recipient : Address
  pub gas_limit : ℕ
  pub timestamp : ℕ
  pub pubkey : BlsPublicKey b

pub record SignedValidatorRegistration (b : Bls) : Type 0 where
  pub message : ValidatorRegistration b
  pub signature : BlsSignature b

-- `SignedValidatorRegistration::verify_signature`, over the derived root of a registration
unfoldable pub verify_registration :
    (b : Bls)
    → ForkRoots
    → (ValidatorRegistration b → Bytes)
    → SignedValidatorRegistration b
    → Domain
    → Bool
verify_registration b h root r domain =
    sig_verify b r.signature r.message.pubkey (signing_root h root r.message domain)

pub record ProposerDuty (b : Bls) : Type 0 where
  pub pubkey : BlsPublicKey b
  pub validator_index : ℕ
  pub slot : ℕ

pub record PayloadAttributes : Type 0 where
  pub timestamp : ℕ
  pub prev_randao : B256
  pub suggested_fee_recipient : Address

pub record SyncStatus : Type 0 where
  pub head_slot : ℕ
  pub is_syncing : Bool
