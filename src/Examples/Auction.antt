-- ===== src/Examples/Auction.antt =====
-- Examples of the results on the auctioneer.
use mathlib.Core.Quot
use mev_relay_rs.Prelude.{ℕ, [], ◌∷◌, arith, ◌≡◌, refl, ◌∙◌}
use mev_relay_rs.Datastore.MemoryAuctioneer.{get_best_bid, new_auctioneer}
use mev_relay_rs.Datastore.MemoryAuctioneer.Laws.{Bid}
use mev_relay_rs.Datastore.MemoryAuctioneer.Auction.{
  Bids, ReadsWinner, submit_all, get_best_bid-submit_all,
}
use mev_relay_rs.Datastore.MemoryAuctioneer.Order.{
  Offers, offers, highest_offer, value_read, get_best_bid-highest_offer,
}
use mev_relay_rs.Examples.Toy.{bls, cache, cache_laws}
use mev_relay_rs.Examples.World.{bid, hash_a}

abbrev at : ℕ → ℕ → Bid bls
at addr value = record { addr = addr; value = bid value hash_a }

abbrev history : Bids bls
history = (10, at 0 3) ∷ (11, at 1 9) ∷ (10, at 2 5) ∷ (10, at 3 5) ∷ []

get_best_bid-submit_all_example :
    ReadsWinner 10 history
      (get_best_bid bls cache 10 (submit_all bls cache history (new_auctioneer bls cache 60))).0
get_best_bid-submit_all_example =
    get_best_bid-submit_all bls cache cache_laws 60 0 10 history
      (omega arith, (omega arith, (omega arith, (omega arith, tt))))

-- The same offers in another order.
reordered :
    ◌≡◌ {A = Offers}
      (Quot.mk (offers history))
      (Quot.mk ((10, 5) ∷ (10, 3) ∷ (11, 9) ∷ (10, 5) ∷ []))
reordered =
    Quot.sound ((10, 3) ∷ [], (11, 9), (10, 5), (10, 5) ∷ [], refl, refl)
    ∙ Quot.sound ([], (10, 3), (10, 5), (11, 9) ∷ (10, 5) ∷ [], refl, refl)

get_best_bid-highest_offer_example :
    value_read
      (get_best_bid bls cache 10 (submit_all bls cache history (new_auctioneer bls cache 60))).0
    ≡ highest_offer 10 (Quot.mk (offers history))
get_best_bid-highest_offer_example =
    get_best_bid-highest_offer bls cache cache_laws 60 0 10 history
      (omega arith, (omega arith, (omega arith, (omega arith, tt))))
