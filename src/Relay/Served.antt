-- ===== src/Relay/Served.antt =====
-- The relay behind its services: what one message to crates/api/src/{bidder,retriever,validator}_service.rs
-- does to the shared state, each handled to its end before the next, beside the beacon node's events.
pub mod Effects
pub mod Bounds
pub mod Steps
pub mod Handover
use mev_relay_rs.Prelude.{ℕ, ◌+◌, ◌%◌, ◌≡◌, Option, none, some, Result, Bytes, List}
use mev_relay_rs.Crypto.Blst.{Bls}
use mev_relay_rs.Crypto.Fork.{ForkDatas, ForkRoots}
use mev_relay_rs.Crypto.Signer.{BlsSigner}
use mev_relay_rs.Entity.Types.{u64_mod}
use mev_relay_rs.Entity.Bid.{EntityRoots}
use mev_relay_rs.Entity.Validator.{ProposerDuty, PayloadAttributes}
use mev_relay_rs.Entity.HeadSlot.{HeadSlot}
use mev_relay_rs.Datastore.MemoryStorage.{
  memory_storage, set_head_slot, set_payload_attributes, set_proposer_duties,
}
use mev_relay_rs.Datastore.Cache.{Cache, Expires}
use mev_relay_rs.Datastore.MemoryAuctioneer.{memory_auctioneer}
use mev_relay_rs.Datastore.MemoryAuctioneer.Laws.{Bid}
use mev_relay_rs.Api.Proto
use mev_relay_rs.Api.Conversion.{Codecs}
use mev_relay_rs.Api.Stream.{Status}
use mev_relay_rs.Api.Bidder
use mev_relay_rs.Api.Retriever
use mev_relay_rs.Api.Retriever.{Json}
use mev_relay_rs.Api.Validator
use mev_relay_rs.Relay.State.{RelayWorld, next_slot}

module _ {b : Bls} (h : ForkRoots) (roots : EntityRoots b) (keccak256 : Bytes → Bytes)
    (codecs : Codecs) (json : Json b) (c : Cache (Bid b)) (signer : BlsSigner b)
    (fork_datas : ForkDatas) where
  -- A handler of the relay; `none` is a panic.
  abbrev pub Serves : Type 0 → Type 0 → Type 0
  Serves M R = M → RelayWorld b c → Option (R × RelayWorld b c)

  abbrev pub answer_bid : Serves Proto.BidRequest Proto.BidResponse
  answer_bid =
      Bidder.answer_bid h roots codecs (memory_storage b) (memory_auctioneer b c) fork_datas

  abbrev pub answer_retrieve : Serves Proto.RetrieveRequest (Result Status Proto.RetrieveResponse)
  answer_retrieve =
      Retriever.answer_retrieve h roots keccak256 json (memory_storage b) (memory_auctioneer b c)
        signer fork_datas

  abbrev pub register_validator :
      Serves Proto.RegisterValidatorRequest (Result Status Proto.RegisterValidatorResponse)
  register_validator =
      Validator.register_validator h roots codecs (memory_storage b) (memory_auctioneer b c)
        fork_datas

  abbrev pub submit_blinded_block :
      Serves Proto.SubmitBlindedBlockRequest (Result Status Proto.BlindedBlockResponse)
  submit_blinded_block =
      Retriever.submit_blinded_block h roots keccak256 json (memory_storage b)
        (memory_auctioneer b c) signer fork_datas

  -- The head, the payload attributes, the duties and the cache change at any time.
  pub data Event (w : RelayWorld b c) : RelayWorld b c → Type 0 where
    bids :
        {u : RelayWorld b c} (m : Proto.BidRequest) (r : Proto.BidResponse)
        → answer_bid m w ≡ some (r, u)
        → Event w u
    retrieves :
        {u : RelayWorld b c} (m : Proto.RetrieveRequest) (r : Result Status Proto.RetrieveResponse)
        → answer_retrieve m w ≡ some (r, u)
        → Event w u
    registers :
        {u : RelayWorld b c} (m : Proto.RegisterValidatorRequest)
        (r : Result Status Proto.RegisterValidatorResponse)
        → register_validator m w ≡ some (r, u)
        → Event w u
    unblinds :
        {u : RelayWorld b c} (m : Proto.SubmitBlindedBlockRequest)
        (r : Result Status Proto.BlindedBlockResponse)
        → submit_blinded_block m w ≡ some (r, u)
        → Event w u
    expires : (a : c.State) → Expires c w.auctioneer a → Event w (record w { auctioneer = a })
    moves_head : (s : HeadSlot) → Event w (record w { storage = set_head_slot b s w.storage })
    gets_attributes :
        (attrs : PayloadAttributes)
        → Event w (record w { storage = set_payload_attributes b attrs w.storage })
    gets_duties :
        (duties : List (ProposerDuty b))
        → Event w (record w { storage = set_proposer_duties b duties w.storage })

  pub data Served (w : RelayWorld b c) : RelayWorld b c → Type 0 where
    here : Served w w
    next : {u v : RelayWorld b c} → Served w u → Event u v → Served w v

  -- As in `Step`: the head moves, and duties change, while nobody has bid for the slot that is then
  -- next.
  abbrev pub IsCalmEvent : {w u : RelayWorld b c} → Event w u → Type 0
  IsCalmEvent {w} (Event.moves_head s) = c.peek w.auctioneer ((s.slot + 1) % u64_mod) ≡ none
  IsCalmEvent {w} (Event.gets_duties duties) = c.peek w.auctioneer (next_slot c w) ≡ none
  IsCalmEvent (Event.bids m r e) = Unit
  IsCalmEvent (Event.retrieves m r e) = Unit
  IsCalmEvent (Event.registers m r e) = Unit
  IsCalmEvent (Event.unblinds m r e) = Unit
  IsCalmEvent (Event.expires a gone) = Unit
  IsCalmEvent (Event.gets_attributes attrs) = Unit

  abbrev pub IsCalm : {w u : RelayWorld b c} → Served w u → Type 0
  IsCalm Served.here = Unit
  IsCalm (Served.next before e) = IsCalm before × IsCalmEvent e
