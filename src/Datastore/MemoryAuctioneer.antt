-- ===== src/Datastore/MemoryAuctioneer.antt =====
-- crates/datastore/src/auctioneer/memory/auctioneer.rs: the best bid of each slot, in a cache whose
-- entries expire.
pub mod Laws
pub mod Auction
pub mod Order
use mev_relay_rs.Prelude.{ℕ, Result, ok, err, Bool, not, ok_or, ltb, if◌then◌else◌}
use mev_relay_rs.Crypto.Blst.{Bls}
use mev_relay_rs.Entity.Bid.{Arc, BidSubmission, ptr_eq}
use mev_relay_rs.Datastore.Auctioneer.{
  Auctioneer, AuctioneerError, bid_not_found, bid_value_not_high_enough,
}
use mev_relay_rs.Datastore.Cache.{Cache}

module _ (b : Bls) (c : Cache (Arc (BidSubmission b))) where
  -- `MemoryAuctioneer::new`
  unfoldable pub new_auctioneer : ℕ → c.State
  new_auctioneer ttl = c.build ttl

  -- `bid.message.value > existing.message.value`
  abbrev pub outbids : Arc (BidSubmission b) → Arc (BidSubmission b) → Bool
  outbids bid existing = ltb existing.value.message.value bid.value.message.value

  unfoldable pub compare_and_bid :
      ℕ → Arc (BidSubmission b) → c.State → Result AuctioneerError (Unit {0}) × c.State
  compare_and_bid slot bid s =
      let (entry, s') = c.or_insert_with_if slot bid (outbids bid) s in
      if not (ptr_eq entry bid)
      then (err (bid_value_not_high_enough bid.value.message.value entry.value.message.value), s')
      else (ok tt, s')

  unfoldable pub get_best_bid :
      ℕ → c.State → Result AuctioneerError (Arc (BidSubmission b)) × c.State
  get_best_bid slot s = let (found, s') = c.get slot s in (ok_or found (bid_not_found slot), s')

  -- `impl Auctioneer for MemoryAuctioneer`
  abbrev pub memory_auctioneer : Auctioneer b
  memory_auctioneer = record {
    State = c.State;
    compare_and_bid = compare_and_bid;
    get_best_bid = get_best_bid;
  }
