-- ===== src/UseCase/SubmitBid.antt =====
-- crates/usecase/src/submit_bid.rs.
pub mod Laws
use mev_relay_rs.Prelude.{ℕ, Bool, not, msg, ◌==◌, bytes_eq}
use mev_relay_rs.Crypto.Blst.{Bls}
use mev_relay_rs.Crypto.Fork.{ForkDatas, ForkRoots, compute_builder_domain}
use mev_relay_rs.Entity.Bid.{Arc, BidSubmission, EntityRoots, verify_bid, to_blinded_block_response}
use mev_relay_rs.Entity.Validator.{ProposerDuty}
use mev_relay_rs.Entity.HeadSlot.{is_next_slot}
use mev_relay_rs.Datastore.Storage.{Storage}
use mev_relay_rs.Datastore.Auctioneer.{Auctioneer}
use mev_relay_rs.UseCase.Error.{
  UseCaseError, zero_bid, unauthorized_builder, invalid_slot, invalid_payload_attributes,
  duty_not_found, invalid_builder_signature,
}
use mev_relay_rs.UseCase.Exec.{
  World, Exec, ◌>>=◌, ◌>>◌, pure, raise_if, or_raise, reads, writes, calls, arc_new,
}

module _ {b : Bls} (h : ForkRoots) (roots : EntityRoots b) (S : Storage b) (A : Auctioneer b) where
  -- `execute`, up to the last check: the duty of the slot
  unfoldable pub check_bid : ForkDatas → BidSubmission b → Exec (World S A) (ProposerDuty b)
  check_bid fork_datas bid = do
    let slot = bid.message.slot
    let builder_pubkey = bid.message.builder_pubkey
    raise_if (bid.message.value == 0) zero_bid
    whitelisted ← reads (S.is_whitelisted_builder builder_pubkey)
    raise_if (not whitelisted) unauthorized_builder
    head_slot ← reads S.read_head_slot
    raise_if (not (is_next_slot head_slot slot)) invalid_slot
    attrs ← reads S.read_payload_attributes
    raise_if (not (bytes_eq attrs.prev_randao bid.execution_payload.prev_randao))
        (invalid_payload_attributes (msg "prev_randao mismatch"))
    found ← reads (S.find_duty_by_slot slot)
    duty ← or_raise found duty_not_found
    let domain = compute_builder_domain h fork_datas
    raise_if (not (verify_bid b h roots bid.message bid.signature domain)) invalid_builder_signature
    pure duty

  -- `execute`, up to the answer of the auctioneer
  unfoldable pub place_bid : ForkDatas → BidSubmission b → Exec (World S A) (ProposerDuty b)
  place_bid fork_datas bid = do
    duty ← check_bid fork_datas bid
    bid_arc ← arc_new bid
    calls (A.compare_and_bid bid.message.slot bid_arc)
    pure duty

  -- the last statement of `execute`
  unfoldable pub save_blinded : BidSubmission b → ProposerDuty b → Exec (World S A) (Unit {0})
  save_blinded bid duty =
      writes (S.set_blinded_block_response duty.pubkey (to_blinded_block_response bid))

  -- `SubmitBidUseCase::execute`
  unfoldable pub execute : ForkDatas → BidSubmission b → Exec (World S A) (Unit {0})
  unfolding place_bid save_blinded
  execute fork_datas bid = do duty ← place_bid fork_datas bid; save_blinded bid duty
