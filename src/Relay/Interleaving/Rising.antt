-- ===== src/Relay/Interleaving/Rising.antt =====
-- The best bid of a slot, while requests interleave.
use mev_relay_rs.Prelude.{
  ℕ, ◌<◌, ◌≡◌, refl, ap, ◌∙◌, Bytes, List, All, All-split, All-join, some, inl, inr, ◌⊎◌, arith,
  tests, Bool-cases, ==_iff, ◌==◌,
}
use mev_relay_rs.Crypto.Blst.{Bls}
use mev_relay_rs.Crypto.Keys.{BlsPublicKey}
use mev_relay_rs.Crypto.Fork.{ForkDatas, ForkRoots}
use mev_relay_rs.Crypto.Signer.{BlsSigner}
use mev_relay_rs.Entity.Bid.{EntityRoots}
use mev_relay_rs.Datastore.Cache.{Cache, CacheLaws}
use mev_relay_rs.Datastore.MemoryAuctioneer.{compare_and_bid, get_best_bid, outbids}
use mev_relay_rs.Datastore.MemoryAuctioneer.Laws.{Bid, bid_value, get_best_bid_lem}
use mev_relay_rs.UseCase.Task.Moves.{
  Moves, Moves-bind, Moves-raise_if, Moves-or_raise, Moves-pure, Moves-reads, Moves-writes,
  Moves-calls, Moves-arc_new, advance-Moves,
}
use mev_relay_rs.UseCase.Task.Programs.{
  Request, submit_bid, get_header, register_validator, unblind_block, task_of, submit_task,
  header_task, register_task, unblind_task,
}
use mev_relay_rs.Relay.State.{RelayWorld}
use mev_relay_rs.Relay.Interleaving.{Running, System, Event, Reaches, started, task}

module _ {b : Bls} (c : Cache (Bid b)) where
  -- The slot's bid stays, or one of a higher value is there.
  abbrev pub Outlasts : c.State → ℕ → Bid b → Type 0
  Outlasts s' slot old =
      (new : Bid b) × (c.peek s' slot ≡ some new) × ((new ≡ old) ⊎ (bid_value old < bid_value new))

  abbrev RisesTo : c.State → c.State → Type 0
  RisesTo s s' = (slot : ℕ) (old : Bid b) → c.peek s slot ≡ some old → Outlasts s' slot old

  abbrev Rising : RelayWorld b c → RelayWorld b c → Type 0
  Rising w u = RisesTo w.auctioneer u.auctioneer

  same_auction : (s : c.State) → RisesTo s s
  same_auction s slot old p = (old, p, inl refl)

  bid_rises :
      (laws : CacheLaws c) (k slot : ℕ) (bid old : Bid b) (s : c.State)
      → c.peek s slot ≡ some old
      → Outlasts (compare_and_bid b c k bid s).1 slot old
  unfolding compare_and_bid
  bid_rises laws k slot bid old s p =
      let entry = laws.peek-entry k slot bid (outbids b c bid) s in
      elim (Bool-cases (k == slot)) [
        | inr miss ↦ (old, ground (arith, entry, p, miss), inl refl)
        | inl hit ↦
            let own : c.peek s k ≡ some old = ap (c.peek s) ((==_iff k slot).0 hit) ∙ p in
            elim (Bool-cases (outbids b c bid old)) [
              | inl up ↦ (bid, ground (arith, entry, hit, own, up), inr (grind tests))
              | inr down ↦ (old, ground (arith, entry, hit, own, down), inl refl)
            ]
      ]

module _ {b : Bls} (h : ForkRoots) (roots : EntityRoots b) (keccak256 : Bytes → Bytes)
    (c : Cache (Bid b)) (signer : BlsSigner b) (fork_datas : ForkDatas) (laws : CacheLaws c) where
  stays : (w : RelayWorld b c) → Rising c w w
  stays w = same_auction c w.auctioneer

  reads_best :
      (slot : ℕ) (w : RelayWorld b c)
      → Rising c w (record w { auctioneer = (get_best_bid b c slot w.auctioneer).1 })
  reads_best slot w k old p = (old, (get_best_bid_lem b c laws slot k w.auctioneer).1 ∙ p, inl refl)

  task-Moves : (r : Request b) → Moves (Rising c) (task h roots keccak256 c signer fork_datas r)
  unfolding task_of submit_task header_task register_task unblind_task
  task-Moves (submit_bid bid) = Moves-bind (Moves-raise_if _ _) λ _.
      Moves-bind (Moves-reads _ stays) λ _. Moves-bind (Moves-raise_if _ _) λ _.
        Moves-bind (Moves-reads _ stays) λ _. Moves-bind (Moves-raise_if _ _) λ _.
          Moves-bind (Moves-reads _ stays) λ _. Moves-bind (Moves-raise_if _ _) λ _.
            Moves-bind (Moves-reads _ stays) λ _. Moves-bind (Moves-or_raise _ _) λ duty.
              Moves-bind (Moves-raise_if _ _) λ _.
                Moves-bind (Moves-arc_new _ (λ w. same_auction c w.auctioneer)) λ arc.
                  Moves-bind
                    (Moves-calls _ (λ w slot old p.
                      bid_rises c laws bid.message.slot slot arc old w.auctioneer p))
                    λ _. Moves-writes _ (λ w. same_auction c w.auctioneer)
  task-Moves (get_header slot parent_hash key) = Moves-bind (Moves-reads _ stays) λ _.
      Moves-bind (Moves-raise_if _ _) λ _. Moves-bind (Moves-reads _ stays) λ _.
        Moves-bind (Moves-or_raise _ _) λ _. Moves-bind (Moves-raise_if _ _) λ _.
          Moves-bind (Moves-reads _ stays) λ _. Moves-bind (Moves-raise_if _ _) λ _.
            Moves-bind (Moves-calls _ (reads_best slot))
              λ _. Moves-bind (Moves-raise_if _ _) λ _. Moves-pure _
  task-Moves (register_validator s) =
      Moves-bind (Moves-raise_if _ _) λ _. Moves-writes _ (λ w. same_auction c w.auctioneer)
  task-Moves (unblind_block slot index hash signature) = Moves-bind (Moves-reads _ stays) λ _.
      Moves-bind (Moves-or_raise _ _) λ _. Moves-bind (Moves-raise_if _ _) λ _.
        Moves-bind (Moves-reads _ stays) λ _. Moves-bind (Moves-raise_if _ _) λ _.
          Moves-bind (Moves-raise_if _ _) λ _. Moves-bind (Moves-reads _ stays) λ _.
            Moves-bind (Moves-or_raise _ _) λ _.
              Moves-bind (Moves-raise_if _ _) λ _.
                Moves-bind (Moves-writes _ (λ w. same_auction c w.auctioneer)) λ _. Moves-pure _

  abbrev AllMove : System c → Type 0
  AllMove s = All (λ (t : Running c). Moves (Rising c) t.1) s.running

  Event-AllMove :
      {s t : System c} → Event h roots keccak256 c signer fork_datas s t → AllMove s → AllMove t
  Event-AllMove {s} (Event.starts r) k = All-join _ s.running _ k (task-Moves r, tt)
  Event-AllMove {s} (Event.moves before t after e) k =
      let (left, now, right) = All-split _ before t after (rw e at k) in
      All-join _ before _ left ((advance-Moves s.world stays now).0, right)
  Event-AllMove (Event.expires a gone) k = k
  Event-AllMove (Event.moves_head slot) k = k
  Event-AllMove (Event.gets_attributes attrs) k = k
  Event-AllMove (Event.gets_duties duties) k = k

  Reaches-AllMove :
      {s t : System c} → Reaches h roots keccak256 c signer fork_datas s t → AllMove s → AllMove t
  Reaches-AllMove Reaches.here k = k
  Reaches-AllMove (Reaches.next r e) k = Event-AllMove e (Reaches-AllMove r k)

  -- What the cache does to a slot when entries expire: this one survives.
  abbrev pub Spares :
      {s t : System c} → ℕ → Event h roots keccak256 c signer fork_datas s t → Type 0
  Spares {s} slot (Event.expires a gone) = c.peek a slot ≡ c.peek s.world.auctioneer slot
  Spares slot (Event.starts r) = Unit
  Spares slot (Event.moves before t after e) = Unit
  Spares slot (Event.moves_head head) = Unit
  Spares slot (Event.gets_attributes attrs) = Unit
  Spares slot (Event.gets_duties duties) = Unit

  abbrev pub Survives :
      {s t : System c} → ℕ → Reaches h roots keccak256 c signer fork_datas s t → Type 0
  Survives slot Reaches.here = Unit
  Survives slot (Reaches.next r e) = Survives slot r × Spares slot e

  Event-Outlasts :
      {s t : System c} (e : Event h roots keccak256 c signer fork_datas s t) (slot : ℕ)
      (old : Bid b)
      → AllMove s
      → Spares slot e
      → c.peek s.world.auctioneer slot ≡ some old
      → Outlasts c t.world.auctioneer slot old
  Event-Outlasts (Event.starts r) slot old k x p = (old, p, inl refl)
  Event-Outlasts {s} (Event.moves before t after e) slot old k x p =
      let (_, now, _) = All-split _ before t after (rw e at k) in
      (advance-Moves s.world stays now).1 slot old p
  Event-Outlasts (Event.expires a gone) slot old k x p = (old, x ∙ p, inl refl)
  Event-Outlasts (Event.moves_head head) slot old k x p = (old, p, inl refl)
  Event-Outlasts (Event.gets_attributes attrs) slot old k x p = (old, p, inl refl)
  Event-Outlasts (Event.gets_duties duties) slot old k x p = (old, p, inl refl)

  higher :
      (a n m : Bid b)
      → (n ≡ a) ⊎ (bid_value a < bid_value n)
      → (m ≡ n) ⊎ (bid_value n < bid_value m)
      → (m ≡ a) ⊎ (bid_value a < bid_value m)
  higher a n m (inl p) (inl q) = inl (q ∙ p)
  higher a n m (inl p) (inr q) = inr (rw (← p) q)
  higher a n m (inr p) (inl q) = inr (rw q p)
  higher a n m (inr p) (inr q) = inr (omega arith)

  rises-from :
      {s t : System c} (later : Reaches h roots keccak256 c signer fork_datas s t) (slot : ℕ)
      (old : Bid b)
      → AllMove s
      → Survives slot later
      → c.peek s.world.auctioneer slot ≡ some old
      → Outlasts c t.world.auctioneer slot old
  rises-from Reaches.here slot old k x p = (old, p, inl refl)
  rises-from (Reaches.next r e) slot old k (before, now) p =
      let (mid, found, more) = rises-from r slot old k before p in
      let (new, held, again) = Event-Outlasts e slot mid (Reaches-AllMove r k) now found in
      (new, held, higher old mid new more again)

  -- However the actions of any requests interleave: from the moment that a slot has a best bid, and as
  -- long as the cache does not drop it, the slot has that bid or one of a higher value.
  pub best_bid-rises :
      (whitelist : List (BlsPublicKey b)) (ttl : ℕ) {s t : System c}
      (before : Reaches h roots keccak256 c signer fork_datas (started c whitelist ttl) s)
      (later : Reaches h roots keccak256 c signer fork_datas s t) (slot : ℕ) (old : Bid b)
      → Survives slot later
      → c.peek s.world.auctioneer slot ≡ some old
      → (new : Bid b) × (c.peek t.world.auctioneer slot ≡ some new)
        × ((new ≡ old) ⊎ (bid_value old < bid_value new))
  best_bid-rises whitelist ttl before later slot old x p =
      rises-from later slot old (Reaches-AllMove before tt) x p
