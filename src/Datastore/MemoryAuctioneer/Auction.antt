-- ===== src/Datastore/MemoryAuctioneer/Auction.antt =====
-- The auction as builders see it: many bids, for many slots, against the plain rule that the first
-- highest bid of a slot wins it.
use mev_relay_rs.Prelude.{
  tests, ℕ, suc, ◌≤◌, ◌<◌, ◌≡◌, ◌≢◌, refl, ap, ◌∙◌, Result, ok, err, true, false, Option, none,
  some, ◌==◌, ◌&&◌, if◌then◌else◌, arith, Bool-cases, inl, inr, ◌⊎◌, ok_or, List, [], ◌∷◌, ◌++◌,
  ==_iff, All,
}
use mev_relay_rs.Crypto.Blst.{Bls}
use mev_relay_rs.Datastore.Auctioneer.{AuctioneerError, bid_not_found}
use mev_relay_rs.Datastore.Cache.{Cache, CacheLaws}
use mev_relay_rs.Datastore.MemoryAuctioneer.{compare_and_bid, get_best_bid, new_auctioneer}
use mev_relay_rs.Datastore.MemoryAuctioneer.Laws.{
  Bid, bid_value, improves, compare_and_bid_lem, get_best_bid_lem,
}

-- The bids of a history, oldest first, each with its slot.
abbrev pub Bids : Bls → Type 0
Bids b = List (ℕ × Bid b)

pub submit_all : (b : Bls) (c : Cache (Bid b)) → Bids b → c.State → c.State
submit_all b c [] s = s
submit_all b c ((slot, bid) ∷ bids) s = submit_all b c bids (compare_and_bid b c slot bid s).1

-- The specification: keep the bid that is held until a higher one comes.
abbrev pub better : {b : Bls} → Option (Bid b) → Bid b → Option (Bid b)
better old bid = if improves old bid then some bid else old

unfoldable pub winner : {b : Bls} → ℕ → Option (Bid b) → Bids b → Option (Bid b)
winner slot old [] = old
winner slot old ((k, bid) ∷ bids) = winner slot (if k == slot then better old bid else old) bids

-- Allocations: addresses grow, from `n` on.
abbrev pub Rising : {b : Bls} → ℕ → Bids b → Type 0
Rising n [] = Unit
Rising n ((k, bid) ∷ bids) = (n ≤ bid.addr) × Rising (suc bid.addr) bids

abbrev pub AddrBelow : {b : Bls} (c : Cache (Bid b)) → ℕ → c.State → Type 0
AddrBelow {b} c n s = (k : ℕ) (old : Bid b) → c.peek s k ≡ some old → old.addr < n

module _ (b : Bls) (c : Cache (Bid b)) (laws : CacheLaws c) where
  pub compare_and_bid-AddrBelow :
      (n slot : ℕ) (bid : Bid b) (s : c.State)
      → AddrBelow c n s
      → n ≤ bid.addr
      → AddrBelow c (suc bid.addr) (compare_and_bid b c slot bid s).1
  compare_and_bid-AddrBelow n slot bid s below h k old e =
      let (_, stored) =
        compare_and_bid_lem b c laws slot k bid s (λ o p. omega (arith, below slot o p)) in
      ground (arith, stored, below k old, e)

  pub submit_all-eq-winner :
      (n slot : ℕ) (bids : Bids b) (s : c.State)
      → AddrBelow c n s
      → Rising n bids
      → c.peek (submit_all b c bids s) slot ≡ winner slot (c.peek s slot) bids
  unfolding submit_all winner
  submit_all-eq-winner n slot [] s below r = refl
  submit_all-eq-winner n slot ((k, bid) ∷ bids) s below r =
      let (_, stored) =
        compare_and_bid_lem b c laws k slot bid s (λ o p. omega (arith, below k o p)) in
      let step : c.peek (compare_and_bid b c k bid s).1 slot
          ≡ (if k == slot then better (c.peek s slot) bid else c.peek s slot) =
        elim (Bool-cases (k == slot)) [
          | inl hit ↦ ground (arith, stored, hit, ap (c.peek s) ((==_iff k slot).0 hit))
          | inr miss ↦ ground (arith, stored, miss)
        ] in
      submit_all-eq-winner (suc bid.addr) slot bids _
        (compare_and_bid-AddrBelow n k bid s below r.0) r.1
      ∙ ap (λ o. winner slot o bids) step

-- `w` is the first of the highest bids for the slot.
pub record FirstHighest {b : Bls} (slot : ℕ) (bids : Bids b) (w : Bid b) : Type 0 where
  pub before : Bids b
  pub after : Bids b
  pub split : bids ≡ before ++ (slot, w) ∷ after
  pub lower : All (λ (x : ℕ × Bid b). x.0 ≡ slot → bid_value x.1 < bid_value w) before
  pub not_higher : All (λ (x : ℕ × Bid b). x.0 ≡ slot → bid_value x.1 ≤ bid_value w) after

abbrev NotHigher : {b : Bls} → ℕ → Bids b → Bid b → Type 0
NotHigher {b} slot bids w = All (λ (x : ℕ × Bid b). x.0 ≡ slot → bid_value x.1 ≤ bid_value w) bids

abbrev Lower : {b : Bls} → Option (Bid b) → Bid b → Type 0
Lower none w = Unit
Lower (some old) w = bid_value old < bid_value w

module _ {b : Bls} (slot : ℕ) where
  prepend :
      (k : ℕ) (x : Bid b) (bids : Bids b) (w : Bid b)
      → (k ≡ slot → bid_value x < bid_value w)
      → FirstHighest slot bids w
      → FirstHighest slot ((k, x) ∷ bids) w
  prepend k x bids w h f = record {
    before = (k, x) ∷ f.before;
    after = f.after;
    split = ap (◌∷◌ (k, x)) f.split;
    lower = (h, f.lower);
    not_higher = f.not_higher;
  }

  found :
      (k : ℕ) (x : Bid b) (bids : Bids b) (w : Bid b)
      → k ≡ slot
      → x ≡ w
      → NotHigher slot bids w
      → FirstHighest slot ((k, x) ∷ bids) w
  found k x bids w p q h = record {
    before = [];
    after = bids;
    split = cc;
    lower = tt;
    not_higher = h;
  }

  abbrev Claim : Option (Bid b) → Bids b → Bid b → Type 0
  Claim old bids w =
      ((old ≡ some w) × NotHigher slot bids w) ⊎ (FirstHighest slot bids w × Lower old w)

  pass_over :
      (old : Option (Bid b)) (k : ℕ) (x : Bid b) (bids : Bids b) (w : Bid b)
      → k ≢ slot
      → Claim old bids w
      → Claim old ((k, x) ∷ bids) w
  pass_over old k x bids w miss (inl (p, h)) = inl (p, ((λ q. absurd (miss q)), h))
  pass_over old k x bids w miss (inr (f, l)) = inr (prepend k x bids w (λ q. absurd (miss q)) f, l)

  take_over :
      (old : Option (Bid b)) (k : ℕ) (x : Bid b) (bids : Bids b) (w : Bid b)
      → k ≡ slot
      → improves old x ≡ true
      → Claim (some x) bids w
      → Claim old ((k, x) ∷ bids) w
  take_over none k x bids w hit up (inl (p, h)) = inr (found k x bids w hit (cc) h, tt)
  take_over none k x bids w hit up (inr (f, l)) = inr (prepend k x bids w (λ _. l) f, tt)
  take_over (some o) k x bids w hit up (inl (p, h)) = inr (found k x bids w hit (cc) h, grind tests)
  take_over (some o) k x bids w hit up (inr (f, l)) =
      inr (prepend k x bids w (λ _. l) f, grind tests)

  keep_old :
      (old : Option (Bid b)) (k : ℕ) (x : Bid b) (bids : Bids b) (w : Bid b)
      → improves old x ≡ false
      → Claim old bids w
      → Claim old ((k, x) ∷ bids) w
  keep_old none k x bids w down c = cc
  keep_old (some o) k x bids w down (inl (p, h)) = inl (p, ((λ q. grind tests), h))
  keep_old (some o) k x bids w down (inr (f, l)) = inr (prepend k x bids w (λ _. grind tests) f, l)

  pub winner_cases :
      (old : Option (Bid b)) (bids : Bids b) (w : Bid b)
      → winner slot old bids ≡ some w
      → Claim old bids w
  unfolding winner
  winner_cases old [] w h = inl (h, tt)
  winner_cases old ((k, x) ∷ bids) w h = elim (Bool-cases (k == slot)) [
    | inr miss ↦
        pass_over old k x bids w (λ q. ground arith) (winner_cases old bids w (rw miss at h))
    | inl hit ↦ elim (Bool-cases (improves old x)) [
      | inl up ↦
          take_over old k x bids w ((==_iff k slot).0 hit) up
            (winner_cases (some x) bids w (rw (hit, up) at h))
      | inr down ↦ keep_old old k x bids w down (winner_cases old bids w (rw (hit, down) at h))
    ]
  ]

  winner-some : (o : Bid b) (bids : Bids b) → (w : Bid b) × (winner slot (some o) bids ≡ some w)
  unfolding winner
  winner-some o [] = (o, refl)
  winner-some o ((k, x) ∷ bids) = elim (Bool-cases (k == slot && improves (some o) x)) [
    | inl up ↦ let (w, e) = winner-some x bids in (w, ground (arith, e, up))
    | inr stay ↦ let (w, e) = winner-some o bids in (w, ground (arith, e, stay))
  ]

  pub winner-none :
      (bids : Bids b) → winner slot none bids ≡ none → All (λ (x : ℕ × Bid b). x.0 ≢ slot) bids
  unfolding winner
  winner-none [] h = tt
  winner-none ((k, x) ∷ bids) h = elim (Bool-cases (k == slot)) [
    | inl hit ↦ let (w, e) = winner-some x bids in let h' = rw hit at h in cc (e, h')
    | inr miss ↦ ((λ q. ground arith), winner-none bids (rw miss at h))
  ]

  first_of_cases : {bids : Bids b} (v : Bid b) → Claim none bids v → FirstHighest slot bids v
  first_of_cases v (inl (p, h)) = cc
  first_of_cases v (inr (f, l)) = f

  abbrev pub ReadsWinner : Bids b → Result AuctioneerError (Bid b) → Type 0
  ReadsWinner bids best =
      ((w : Bid b) → best ≡ ok w → FirstHighest slot bids w)
      × ((e : AuctioneerError)
          → best ≡ err e
          → (e ≡ bid_not_found slot) × All (λ (x : ℕ × Bid b). x.0 ≢ slot) bids)

  pub read_winner :
      (bids : Bids b) (o : Option (Bid b))
      → winner slot none bids ≡ o
      → (best : Result AuctioneerError (Bid b)) → best ≡ ok_or o (bid_not_found slot)
      → ReadsWinner bids best
  read_winner bids none h best e = (λ w p. cc, λ x p. (cc, winner-none bids h))
  read_winner bids (some w) h best e =
      (λ v p. first_of_cases v (winner_cases none bids v (cc)), λ x p. cc)

module _ (b : Bls) (c : Cache (Bid b)) (laws : CacheLaws c) where
  pub peek-submit_all :
      (ttl n slot : ℕ) (bids : Bids b)
      → Rising n bids
      → c.peek (submit_all b c bids (new_auctioneer b c ttl)) slot ≡ winner slot none bids
  unfolding new_auctioneer
  peek-submit_all ttl n slot bids r =
      submit_all-eq-winner b c laws n slot bids (c.build ttl) (λ k o p. cc (laws.build_empty ttl k))
        r
      ∙ ap (λ o. winner slot o bids) (laws.build_empty ttl slot)

  -- After any bids for any slots, each a new allocation, on a fresh auctioneer whose entries have not
  -- expired: a slot's best bid is the first of its highest bids, and the read fails exactly when
  -- nobody bid for the slot, with that slot in the error.
  pub get_best_bid-submit_all :
      (ttl n slot : ℕ) (bids : Bids b)
      → Rising n bids
      → ReadsWinner slot bids
          (get_best_bid b c slot (submit_all b c bids (new_auctioneer b c ttl))).0
  get_best_bid-submit_all ttl n slot bids r =
      let s = submit_all b c bids (new_auctioneer b c ttl) in
      read_winner slot bids (winner slot none bids) refl _ (
        (get_best_bid_lem b c laws slot slot s).0
        ∙ ap (λ o. ok_or o (bid_not_found slot)) (peek-submit_all ttl n slot bids r))
