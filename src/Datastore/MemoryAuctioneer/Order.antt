-- ===== src/Datastore/MemoryAuctioneer/Order.antt =====
-- The auction without its order: the value of a slot's best bid depends only on which bids were made.
use mathlib.Core.Quot
use mathlib.Core.Quot.{Quot}
use mev_relay_rs.Prelude.{
  ℕ, ◌≡◌, refl, ap, ◌∙◌, Result, ok, err, Option, none, some, ◌==◌, ltb, if◌then◌else◌, arith, List,
  [], ◌∷◌, ◌++◌, ok_or,
}
use mev_relay_rs.Crypto.Blst.{Bls}
use mev_relay_rs.Datastore.Auctioneer.{AuctioneerError, bid_not_found}
use mev_relay_rs.Datastore.Cache.{Cache, CacheLaws}
use mev_relay_rs.Datastore.MemoryAuctioneer.{get_best_bid, new_auctioneer}
use mev_relay_rs.Datastore.MemoryAuctioneer.Laws.{Bid, bid_value, get_best_bid_lem}
use mev_relay_rs.Datastore.MemoryAuctioneer.Auction.{
  Bids, Rising, winner, submit_all, peek-submit_all,
}

-- A bid as the auction sees it: its slot and its value.
abbrev pub Offer : Type 0
Offer = ℕ × ℕ

abbrev pub offers : {b : Bls} → Bids b → List Offer
offers [] = []
offers ((slot, bid) ∷ bids) = (slot, bid_value bid) ∷ offers bids

-- Two neighbours change places.
abbrev pub Swapped : List Offer → List Offer → Type 0
Swapped xs ys =
    (before : List Offer) × (x : Offer) × (y : Offer) × (after : List Offer) × (xs
      ≡ before ++ x ∷ y ∷ after)
    × (ys ≡ before ++ y ∷ x ∷ after)

-- Offers without their order.
abbrev pub Offers : Type 0
Offers = Quot Swapped

abbrev pub higher : ℕ → Option ℕ → ℕ
higher v none = v
higher v (some u) = if ltb v u then u else v

pub highest : ℕ → List Offer → Option ℕ
highest slot [] = none
highest slot ((k, v) ∷ xs) =
    let rest = highest slot xs in if k == slot then some (higher v rest) else rest

highest-swap :
    (slot : ℕ) (before : List Offer) (x y : Offer) (after : List Offer)
    → highest slot (before ++ x ∷ y ∷ after) ≡ highest slot (before ++ y ∷ x ∷ after)
unfolding highest
highest-swap slot [] (j, u) (k, v) after = ground arith
highest-swap slot (z ∷ before) x y after = ground (arith, highest-swap slot before x y after)

highest-Swapped :
    (slot : ℕ) (xs ys : List Offer) → Swapped xs ys → highest slot xs ≡ highest slot ys
highest-Swapped slot xs ys (before, x, y, after, p, q) =
    rw (p, q) (highest-swap slot before x y after)

-- The highest value that was offered for a slot.
pub highest_offer : ℕ → Offers → Option ℕ
highest_offer slot = Quot.lift (hlevel) (highest slot) (highest-Swapped slot)

abbrev pub value_held : {b : Bls} → Option (Bid b) → Option ℕ
value_held none = none
value_held (some bid) = some (bid_value bid)

abbrev above : Option ℕ → Option ℕ → Option ℕ
above none o = o
above (some v) o = some (higher v o)

winner-highest :
    {b : Bls} (slot : ℕ) (old : Option (Bid b)) (bids : Bids b)
    → value_held (winner slot old bids) ≡ above (value_held old) (highest slot (offers bids))
unfolding winner highest
winner-highest slot none [] = refl
winner-highest slot (some o) [] = refl
winner-highest slot none ((k, x) ∷ bids) =
    ground (arith, winner-highest slot none bids, winner-highest slot (some x) bids)
winner-highest slot (some o) ((k, x) ∷ bids) =
    ground (arith, winner-highest slot (some o) bids, winner-highest slot (some x) bids)

-- The value of what a read returns.
abbrev pub value_read : {b : Bls} → Result AuctioneerError (Bid b) → Option ℕ
value_read (ok bid) = some (bid_value bid)
value_read (err e) = none

value_read-ok_or :
    {b : Bls} (o : Option (Bid b)) (e : AuctioneerError) → value_read (ok_or o e) ≡ value_held o
value_read-ok_or none e = refl
value_read-ok_or (some bid) e = refl

module _ (b : Bls) (c : Cache (Bid b)) (laws : CacheLaws c) where
  -- After any bids for any slots, each a new allocation, on a fresh auctioneer whose entries have not
  -- expired: the value of a slot's best bid is the highest that was offered for the slot, which is a
  -- function of the offers without their order; a read that finds no bid counts as no value.
  pub get_best_bid-highest_offer :
      (ttl n slot : ℕ) (bids : Bids b)
      → Rising n bids
      → value_read (get_best_bid b c slot (submit_all b c bids (new_auctioneer b c ttl))).0
        ≡ highest_offer slot (Quot.mk (offers bids))
  unfolding highest_offer
  get_best_bid-highest_offer ttl n slot bids r =
      let s = submit_all b c bids (new_auctioneer b c ttl) in
      ap value_read (get_best_bid_lem b c laws slot slot s).0
      ∙ value_read-ok_or (c.peek s slot) (bid_not_found slot)
      ∙ ap value_held (peek-submit_all b c laws ttl n slot bids r)
      ∙ winner-highest slot none bids
