-- ===== src/Datastore/MemoryAuctioneer/Laws.antt =====
-- What one call of the in-memory auctioneer does, on every branch.
use mev_relay_rs.Prelude.{
  ℕ, ◌≡◌, ◌≢◌, Result, ok, err, Bool, true, false, Option, none, some, ◌==◌, ◌&&◌, ltb,
  if◌then◌else◌, arith, Option-cases, inl, inr, ok_or,
}
use mev_relay_rs.Crypto.Blst.{Bls}
use mev_relay_rs.Entity.Bid.{Arc, BidSubmission}
use mev_relay_rs.Datastore.Auctioneer.{AuctioneerError, bid_not_found, bid_value_not_high_enough}
use mev_relay_rs.Datastore.Cache.{Cache, CacheLaws}
use mev_relay_rs.Datastore.MemoryAuctioneer.{outbids, compare_and_bid, get_best_bid}

abbrev pub Bid : Bls → Type 0
Bid b = Arc (BidSubmission b)

abbrev pub bid_value : {b : Bls} → Bid b → ℕ
bid_value bid = bid.value.message.value

-- A bid improves on a slot that has none, and on a lower value.
abbrev pub improves : {b : Bls} → Option (Bid b) → Bid b → Bool
improves none bid = true
improves (some old) bid = ltb (bid_value old) (bid_value bid)

abbrev pub value_of : {b : Bls} → Option (Bid b) → ℕ
value_of none = 0
value_of (some old) = bid_value old

abbrev pub outcome : {b : Bls} → Option (Bid b) → Bid b → Result AuctioneerError (Unit {0})
outcome old bid =
    if improves old bid
    then ok tt
    else err (bid_value_not_high_enough (bid_value bid) (value_of old))

module _ {b : Bls} (old : Option (Bid b)) (bid : Bid b) where
  pub outcome-ok : outcome old bid ≡ ok tt → improves old bid ≡ true
  outcome-ok h = ground arith

  pub outcome-err : (x : AuctioneerError) → outcome old bid ≡ err x → improves old bid ≡ false
  outcome-err x h = ground arith

module _ (b : Bls) (c : Cache (Bid b)) (laws : CacheLaws c) where
  -- The auctioneer accepts a bid exactly when its value is higher than that of the slot's bid, or the
  -- slot has none; then the bid is stored there, and else the error names both values. No other
  -- slot changes, nor does the slot when the bid is refused. The bid must be a new allocation.
  pub compare_and_bid_lem :
      (slot j : ℕ) (bid : Bid b) (s : c.State)
      → ((old : Bid b) → c.peek s slot ≡ some old → old.addr ≢ bid.addr)
      → ((compare_and_bid b c slot bid s).0 ≡ outcome (c.peek s slot) bid)
        × (c.peek (compare_and_bid b c slot bid s).1 j
            ≡ (if slot == j && improves (c.peek s slot) bid then some bid else c.peek s j))
  unfolding compare_and_bid
  compare_and_bid_lem slot j bid s fresh = elim (Option-cases (c.peek s slot)) [
    | inl e ↦ ground (
      arith,
      e,
      laws.entry_lem slot bid (outbids b c bid) s,
      laws.peek-entry slot j bid (outbids b c bid) s,
    )
    | inr (old, e) ↦ ground (
      arith,
      e,
      fresh old e,
      laws.entry_lem slot bid (outbids b c bid) s,
      laws.peek-entry slot j bid (outbids b c bid) s,
    )
  ]

  -- Reading returns the stored bid, or `bid_not_found` with the slot, and stores nothing.
  pub get_best_bid_lem :
      (slot j : ℕ) (s : c.State)
      → ((get_best_bid b c slot s).0 ≡ ok_or (c.peek s slot) (bid_not_found slot))
        × (c.peek (get_best_bid b c slot s).1 j ≡ c.peek s j)
  unfolding get_best_bid
  get_best_bid_lem slot j s = (rw (laws.get_value slot s), laws.get_keeps slot j s)
