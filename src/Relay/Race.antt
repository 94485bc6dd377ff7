-- ===== src/Relay/Race.antt =====
-- Two bids at once: crates/usecase/src/submit_bid.rs awaits the auctioneer and stores the payload
-- afterwards, so another submission may run between the two.
use mev_relay_rs.Prelude.{
  ℕ, suc, ◌≡◌, ◌≢◌, refl, sym, ap, ◌∙◌, subst, some, ok, ok_or, arith, Bytes, beq_refl, nat_eq,
}
use mev_relay_rs.Crypto.Blst.{Bls}
use mev_relay_rs.Crypto.Keys.{BlsSignature}
use mev_relay_rs.Crypto.Fork.{ForkDatas, ForkRoots}
use mev_relay_rs.Entity.Bid.{
  BidSubmission, BlindedBlockResponse, EntityRoots, to_blinded_block_response,
}
use mev_relay_rs.Entity.Validator.{ProposerDuty}
use mev_relay_rs.Datastore.Auctioneer.{bid_not_found}
use mev_relay_rs.Datastore.MemoryStorage.{
  memory_storage, find_duty_by_slot, read_blinded_block_response, set_blinded_block_response,
}
use mev_relay_rs.Datastore.MemoryStorage.Laws.{read-set_blinded}
use mev_relay_rs.Datastore.Cache.{Cache, CacheLaws}
use mev_relay_rs.Datastore.MemoryAuctioneer.{memory_auctioneer, get_best_bid}
use mev_relay_rs.Datastore.MemoryAuctioneer.Laws.{Bid, get_best_bid_lem}
use mev_relay_rs.Datastore.MemoryAuctioneer.Auction.{AddrBelow, compare_and_bid-AddrBelow}
use mev_relay_rs.UseCase.SubmitBid.{place_bid, save_blinded}
use mev_relay_rs.UseCase.SubmitBid.Laws.{place_bid-ok}
use mev_relay_rs.UseCase.UnblindBlock
use mev_relay_rs.UseCase.UnblindBlock.Laws.{unblind_block_iff}
use mev_relay_rs.Relay.State.{RelayWorld}
use mev_relay_rs.Relay.Bids.{arc, answer, peek-accepted}

module _ {b : Bls} (h : ForkRoots) (roots : EntityRoots b) (keccak256 : Bytes → Bytes)
    (c : Cache (Bid b)) (fork_datas : ForkDatas) (laws : CacheLaws c) (x y : BidSubmission b) where
  abbrev place : BidSubmission b → RelayWorld b c → RelayWorld b c
  place bid w = (place_bid h roots (memory_storage b) (memory_auctioneer b c) fork_datas bid w).1

  abbrev save : BidSubmission b → ProposerDuty b → RelayWorld b c → RelayWorld b c
  save bid duty w = (save_blinded h roots (memory_storage b) (memory_auctioneer b c) bid duty w).1

  -- `x` is placed, then `y`; `y` is saved, then `x`.
  abbrev pub race : ProposerDuty b → RelayWorld b c → RelayWorld b c
  race duty w = save x duty (save y duty (place y (place x w)))

  -- When two bids with different block hashes for one slot are both taken by the auctioneer, and the
  -- payload of the first is saved after that of the second: the slot's best bid is the second, and
  -- no request for that slot and the second's block hash that follows at once is answered with a
  -- payload, whatever its proposer index and signature.
  pub unblind-race :
      (w : RelayWorld b c) (duty : ProposerDuty b)
      → AddrBelow c w.heap w.auctioneer
      → place_bid h roots (memory_storage b) (memory_auctioneer b c) fork_datas x w
        ≡ (ok duty, place x w)
      → place_bid h roots (memory_storage b) (memory_auctioneer b c) fork_datas y (place x w)
        ≡ (ok duty, place y (place x w))
      → x.message.slot ≡ y.message.slot
      → x.execution_payload.block_hash ≢ y.execution_payload.block_hash
      → ((get_best_bid b c y.message.slot (race duty w).auctioneer).0
          ≡ ok (record { addr = suc w.heap; value = y }))
        × ((index : ℕ) (signature : BlsSignature b) (r : BlindedBlockResponse)
            → (UnblindBlock.execute h keccak256
                (memory_storage b)
                (memory_auctioneer b c)
                fork_datas
                y.message.slot
                index
                y.execution_payload.block_hash
                signature
                (race duty w)).0
              ≢ ok r)
  unfolding save_blinded find_duty_by_slot set_blinded_block_response to_blinded_block_response
  unblind-race w duty below ex ey same differ =
      let (px, ax, sx) =
        place_bid-ok h roots (memory_storage b) (memory_auctioneer b c) fork_datas x w _ duty ex in
      let (py, ay, sy) =
        place_bid-ok h roots (memory_storage b) (memory_auctioneer b c) fork_datas y (place x w) _
          duty ey in
      let below' : AddrBelow c (place x w).heap (place x w).auctioneer = rw sx (
        compare_and_bid-AddrBelow b c laws w.heap x.message.slot (arc c laws x w) w.auctioneer below
          (omega arith)) in
      let held : c.peek (answer c laws y (place x w)).1 y.message.slot
          ≡ some (arc c laws y (place x w)) =
        peek-accepted c laws y (place x w) below' ay y.message.slot
        ∙ rw (beq_refl nat_eq y.message.slot) refl in
      let auctioneer : (race duty w).auctioneer ≡ (answer c laws y (place x w)).1 =
        ap (λ v. v.auctioneer) sy in
      let heap : (place x w).heap ≡ suc w.heap = ap (λ v. v.heap) sx in
      let storage : (place y (place x w)).storage ≡ w.storage =
        ap (λ v. v.storage) sy ∙ ap (λ v. v.storage) sx in
      let found : find_duty_by_slot b y.message.slot (race duty w).storage ≡ some duty =
        rw storage (subst (λ (k : ℕ). find_duty_by_slot b k w.storage ≡ some duty) same px.found) in
      let stored : read_blinded_block_response b duty.pubkey (race duty w).storage
          ≡ some (to_blinded_block_response x) =
        read-set_blinded b duty.pubkey duty.pubkey (to_blinded_block_response x)
          (save y duty (place y (place x w))).storage
        ∙ rw (beq_refl b.pk_eq duty.pubkey) refl in
      (
        (get_best_bid_lem b c laws y.message.slot y.message.slot (race duty w).auctioneer).0
            ∙ ap (λ o. ok_or o (bid_not_found y.message.slot))
                (ap (λ z. c.peek z y.message.slot) auctioneer ∙ held)
            ∙ rw heap refl,
        λ index signature r p.
            let iff =
              unblind_block_iff h keccak256 (memory_storage b) (memory_auctioneer b c) fork_datas
                y.message.slot index y.execution_payload.block_hash signature in
            let (q, _) = (iff (race duty w) _ r).0 (
              ap
                (λ z. (
                  z,
                  (UnblindBlock.execute h keccak256 (memory_storage b) (memory_auctioneer b c)
                      fork_datas y.message.slot index y.execution_payload.block_hash signature
                      (race duty w)).1,
                ))
                p) in
            let own : q.duty ≡ duty = cc (q.found, found) in
            let response : r ≡ to_blinded_block_response x = cc (q.stored, stored, own) in
            differ (sym (ap (λ z. z.execution_payload.block_hash) response) ∙ q.same_hash),
      )
