-- ===== src/Datastore/Auctioneer.antt =====
-- crates/datastore/src/auctioneer/{traits,error}.rs: the trait `Auctioneer`, on an explicit state.
use mev_relay_rs.Prelude.{ℕ, Result}
use mev_relay_rs.Crypto.Blst.{Bls}
use mev_relay_rs.Entity.Bid.{Arc, BidSubmission}

-- The two values of the second error are decimal numbers in the code.
pub data AuctioneerError : Type 0 where
  bid_not_found : ℕ → AuctioneerError
  bid_value_not_high_enough : ℕ → ℕ → AuctioneerError

pub record Auctioneer (b : Bls) : Type 1 where
  pub State : Type 0
  pub compare_and_bid :
      ℕ → Arc (BidSubmission b) → State → Result AuctioneerError (Unit {0}) × State
  pub get_best_bid : ℕ → State → Result AuctioneerError (Arc (BidSubmission b)) × State
