-- ===== src/Entity/BeaconEvent.antt =====
-- crates/entity/src/beacon_event.rs: the events that a beacon node sends.
use mev_relay_rs.Prelude.{ℕ, Bool, Bytes}

pub record HeadEvent : Type 0 where
  pub slot : ℕ
  pub block : Bytes
  pub epoch_transition : Bool
  pub execution_optimistic : Bool

pub record InnerPayloadAttributes : Type 0 where
  pub timestamp : ℕ
  pub prev_randao : Bytes
  pub suggested_fee_recipient : Bytes

pub record PayloadAttributesData : Type 0 where
  pub proposal_slot : ℕ
  pub parent_block_hash : Bytes
  pub payload_attributes : InnerPayloadAttributes

pub record PayloadAttributesEvent : Type 0 where
  pub version : Bytes
  pub contents : PayloadAttributesData

pub data BeaconEvent : Type 0 where
  head : HeadEvent → BeaconEvent
  payload_attributes : PayloadAttributesEvent → BeaconEvent
