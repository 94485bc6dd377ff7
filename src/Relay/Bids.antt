-- ===== src/Relay/Bids.antt =====
-- What the auctioneer's answer to a bid does to the soundness of the relay.
use mev_relay_rs.Prelude.{
  ℕ, suc, ◌≡◌, sym, ◌∙◌, subst, true, false, some, Result, ok, err, arith, ◌==◌, ◌&&◌,
  if◌then◌else◌, beq_refl,
}
use mev_relay_rs.Crypto.Blst.{Bls}
use mev_relay_rs.Entity.Bid.{BidSubmission, to_blinded_block_response}
use mev_relay_rs.Entity.Validator.{ProposerDuty}
use mev_relay_rs.Datastore.Auctioneer.{AuctioneerError}
use mev_relay_rs.Datastore.MemoryStorage.{
  read_head_slot, find_duty_by_slot, set_blinded_block_response,
}
use mev_relay_rs.Datastore.MemoryStorage.Laws.{read-set_blinded}
use mev_relay_rs.Datastore.Cache.{Cache, CacheLaws}
use mev_relay_rs.Datastore.MemoryAuctioneer.{compare_and_bid}
use mev_relay_rs.Datastore.MemoryAuctioneer.Laws.{
  Bid, improves, outcome, outcome-ok, outcome-err, compare_and_bid_lem,
}
use mev_relay_rs.Datastore.MemoryAuctioneer.Auction.{AddrBelow}
use mev_relay_rs.Relay.State.{RelayWorld, next_slot, IsSound}

module _ {b : Bls} (c : Cache (Bid b)) (laws : CacheLaws c) (bid : BidSubmission b) where
  abbrev pub arc : RelayWorld b c → Bid b
  arc w = record { addr = w.heap; value = bid }

  abbrev pub answer : RelayWorld b c → Result AuctioneerError (Unit {0}) × c.State
  answer w = compare_and_bid b c bid.message.slot (arc w) w.auctioneer

  answer_lem :
      (w : RelayWorld b c)
      → AddrBelow c w.heap w.auctioneer
      → (j : ℕ)
      → let old = c.peek w.auctioneer bid.message.slot in
        ((answer w).0 ≡ outcome old (arc w))
        × (c.peek (answer w).1 j ≡ (
            if bid.message.slot == j && improves old (arc w)
            then some (arc w)
            else c.peek w.auctioneer j))
  answer_lem w below j =
      compare_and_bid_lem b c laws bid.message.slot j (arc w) w.auctioneer
        (λ o p. omega (arith, below bid.message.slot o p))

  -- A refusal by the auctioneer changes no slot.
  peek-refused :
      (w : RelayWorld b c) (x : AuctioneerError)
      → AddrBelow c w.heap w.auctioneer
      → (answer w).0 ≡ err x
      → (j : ℕ) → c.peek (answer w).1 j ≡ c.peek w.auctioneer j
  peek-refused w x below e j =
      let (result, stored) = answer_lem w below j in
      let worse : improves (c.peek w.auctioneer bid.message.slot) (arc w) ≡ false =
        outcome-err _ (arc w) x (sym result ∙ e) in
      ground (arith, stored, worse)

  -- An accepted bid is the one of its slot.
  pub peek-accepted :
      (w : RelayWorld b c)
      → AddrBelow c w.heap w.auctioneer
      → (answer w).0 ≡ ok tt
      → (j : ℕ)
      → c.peek (answer w).1 j
        ≡ (if bid.message.slot == j then some (arc w) else c.peek w.auctioneer j)
  peek-accepted w below e j =
      let (result, stored) = answer_lem w below j in
      let more : improves (c.peek w.auctioneer bid.message.slot) (arc w) ≡ true =
        outcome-ok _ (arc w) (sym result ∙ e) in
      ground (arith, stored, more)

  pub IsSound-refused :
      (w : RelayWorld b c) (x : AuctioneerError)
      → IsSound c w
      → (answer w).0 ≡ err x
      → IsSound c (record w { auctioneer = (answer w).1; heap = suc w.heap })
  IsSound-refused w x s e = record {
    fresh = λ k o p. omega (arith, s.fresh k o (sym (peek-refused w x s.fresh e k) ∙ p));
    in_sync = λ d o p q. s.in_sync d o p (sym (peek-refused w x s.fresh e _) ∙ q);
  }

  pub IsSound-accepted :
      (w : RelayWorld b c) (duty : ProposerDuty b)
      → IsSound c w
      → (answer w).0 ≡ ok tt
      → next_slot c w ≡ bid.message.slot
      → find_duty_by_slot b bid.message.slot w.storage ≡ some duty
      → IsSound c (record {
        storage =
            set_blinded_block_response b duty.pubkey (to_blinded_block_response bid) w.storage;
        auctioneer = (answer w).1;
        heap = suc w.heap;
      })
  unfolding read_head_slot find_duty_by_slot set_blinded_block_response
  IsSound-accepted w duty s e n f = record {
    fresh = λ k o p. ground (arith, peek-accepted w s.fresh e k, s.fresh k o);
    in_sync = λ d o p q.
        let p' = subst (λ (k : ℕ). find_duty_by_slot b k w.storage ≡ some d) n p in
        let q' = subst (λ (k : ℕ). c.peek (answer w).1 k ≡ some o) n q in
        let own : d ≡ duty = cc (p', f) in
        let held : o ≡ arc w = ground (arith, peek-accepted w s.fresh e bid.message.slot, q') in
        rw (own, held)
          (read-set_blinded b duty.pubkey duty.pubkey (to_blinded_block_response bid) w.storage
            ∙ rw (beq_refl b.pk_eq duty.pubkey));
  }
