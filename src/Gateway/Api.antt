-- ===== src/Gateway/Api.antt =====
-- crates/gateway/src/beacon/api.rs: what a beacon node is asked for, as the trait `BeaconApi`.
use mev_relay_rs.Prelude.{ℕ, Bytes, List, Result}
use mev_relay_rs.Crypto.Blst.{Bls}
use mev_relay_rs.Crypto.Keys.{BlsPublicKey}
use mev_relay_rs.Crypto.Fork.{ForkDatas}
use mev_relay_rs.Entity.Types.{B256}
use mev_relay_rs.Entity.Payload.{ExecutionPayload}
use mev_relay_rs.Entity.Validator.{ProposerDuty, SyncStatus}
use mev_relay_rs.Gateway.Events.{BeaconError}
use mev_relay_rs.Gateway.Node.{KnownValidator}

-- A future of the program: what it gives when it is awaited, and the world it leaves behind.
abbrev pub BoxedFuture : Type 0 → Type 0 → Type 0
BoxedFuture W T = W → Result BeaconError T × W

pub record BeaconBlockBody : Type 0 where
  pub execution_payload : ExecutionPayload
  pub blobs : List Bytes

pub record SignedBeaconBlockContent : Type 0 where
  pub slot : ℕ
  pub proposer_index : ℕ
  pub parent_root : B256
  pub state_root : B256
  pub body : BeaconBlockBody

pub data SubmissionType : Type 0 where
  json : SubmissionType
  ssz : SubmissionType

-- The trait `BeaconApi`, over a world `W` that its calls act on.
pub record BeaconApi (b : Bls) (W : Type 0) : Type 0 where
  pub sync_status : BoxedFuture W SyncStatus
  pub proposer_duties : ℕ → BoxedFuture W (List (ProposerDuty b))
  pub get_fork_data : BoxedFuture W ForkDatas
  pub get_known_validator : BlsPublicKey b → BoxedFuture W KnownValidator
  pub publish_block : SignedBeaconBlockContent → SubmissionType → BoxedFuture W B256
