-- ===== src/Relay/Kept.antt =====
-- A predicate of bids and one of registrations, on everything that the relay keeps: every write to
-- the shared state keeps them, if what it writes has them.
pub mod Tasks
use mev_relay_rs.Prelude.{
  ℕ, ◌≡◌, refl, sym, ap, ◌∙◌, List, [], ◌∷◌, ◌++◌, All, arith, some, inl, inr, ◌⊎◌, Bool-cases,
  Option-cases, lookup, ==_iff, ◌==◌,
}
use mev_relay_rs.Crypto.Blst.{Bls}
use mev_relay_rs.Crypto.Keys.{BlsPublicKey}
use mev_relay_rs.Entity.Types.{B256}
use mev_relay_rs.Entity.Bid.{BidSubmission, BlindedBlockResponse, to_blinded_block_response}
use mev_relay_rs.Entity.Validator.{ProposerDuty, PayloadAttributes, ValidatorRegistration}
use mev_relay_rs.Entity.HeadSlot.{HeadSlot}
use mev_relay_rs.Datastore.MemoryStorage.{
  MemoryStorage, set_head_slot, set_payload_attributes, set_proposer_duties,
  set_validator_registration, read_validator_registration, set_blinded_block_response,
  read_blinded_block_response, set_delivered_blocks, new_storage,
}
use mev_relay_rs.Datastore.MemoryStorage.Laws.{read-set_registration, read-set_blinded}
use mev_relay_rs.Datastore.Cache.{Cache, CacheLaws, Expires}
use mev_relay_rs.Datastore.MemoryAuctioneer.{compare_and_bid, get_best_bid, outbids, new_auctioneer}
use mev_relay_rs.Datastore.MemoryAuctioneer.Laws.{Bid, get_best_bid_lem}
use mev_relay_rs.Relay.State.{RelayWorld, initial}

-- A payload is that of a bid with the predicate, and a hash that of such a payload.
abbrev pub ReplyOf : {b : Bls} → (BidSubmission b → Type 0) → BlindedBlockResponse → Type 0
ReplyOf {b} P r = (bid : BidSubmission b) × P bid × (r ≡ to_blinded_block_response bid)

abbrev pub HashOf : {b : Bls} → (BidSubmission b → Type 0) → B256 → Type 0
HashOf {b} P hash = (bid : BidSubmission b) × P bid × (bid.execution_payload.block_hash ≡ hash)

-- Everything that the relay keeps.
pub record IsKept {b : Bls} (whitelist : List (BlsPublicKey b)) (P : BidSubmission b → Type 0)
    (Q : BlsPublicKey b → ValidatorRegistration b → Type 0) (c : Cache (Bid b)) (w : RelayWorld b c)
    : Type 0 where
  pub same_whitelist : w.storage.whitelist ≡ whitelist
  pub bids : (slot : ℕ) (bid : Bid b) → c.peek w.auctioneer slot ≡ some bid → P bid.value
  pub payloads :
      (key : BlsPublicKey b) (r : BlindedBlockResponse)
      → read_blinded_block_response b key w.storage ≡ some r
      → ReplyOf P r
  pub registrations :
      (key : BlsPublicKey b) (m : ValidatorRegistration b)
      → read_validator_registration b key w.storage ≡ some m
      → Q key m
  pub delivered : All (HashOf P) w.storage.delivered_blocks

-- Whatever the addresses are, a slot holds afterwards the bid or what it held.
peek-compare_and_bid :
    (b : Bls) (c : Cache (Bid b)) (laws : CacheLaws c) (slot j : ℕ) (bid x : Bid b) (s : c.State)
    → c.peek (compare_and_bid b c slot bid s).1 j ≡ some x
    → (x ≡ bid) ⊎ (c.peek s j ≡ some x)
unfolding compare_and_bid
peek-compare_and_bid b c laws slot j bid x s e =
    let entry = laws.peek-entry slot j bid (outbids b c bid) s in
    elim (Bool-cases (slot == j)) [
      | inr miss ↦ inr (ground (arith, entry, e, miss))
      | inl hit ↦
          let own = ap (c.peek s) ((==_iff slot j).0 hit) in
          elim (Option-cases (c.peek s slot)) [
            | inl p ↦ inl (ground (arith, entry, e, hit, p))
            | inr (old, p) ↦ elim (Bool-cases (outbids b c bid old)) [
              | inl up ↦ inl (ground (arith, entry, e, hit, p, up))
              | inr down ↦ inr (ground (arith, entry, e, hit, p, down, own))
            ]
          ]
    ]

All-append :
    {A : Type 0} (P : A → Type 0) (xs : List A) (x : A) → All P xs → P x → All P (xs ++ x ∷ [])
All-append P [] x h p = (p, tt)
All-append P (y ∷ xs) x (q, h) p = (q, All-append P xs x h p)

module _ {b : Bls} (whitelist : List (BlsPublicKey b)) (P : BidSubmission b → Type 0)
    (Q : BlsPublicKey b → ValidatorRegistration b → Type 0) (c : Cache (Bid b))
    (laws : CacheLaws c) where
  abbrev I : RelayWorld b c → Type 0
  I = IsKept whitelist P Q c

  module _ (w : RelayWorld b c) (i : I w) where
    -- Nothing of it is written.
    same :
        (s : MemoryStorage b) (n : ℕ)
        → s.whitelist ≡ w.storage.whitelist
        → s.blinded_blocks ≡ w.storage.blinded_blocks
        → s.validator_registrations ≡ w.storage.validator_registrations
        → s.delivered_blocks ≡ w.storage.delivered_blocks
        → I (record { storage = s; auctioneer = w.auctioneer; heap = n })
    unfolding read_blinded_block_response read_validator_registration
    same s n p q r t = record {
      same_whitelist = p ∙ i.same_whitelist;
      bids = i.bids;
      payloads = λ k x e. i.payloads k x (rw q at e);
      registrations = λ k m e. i.registrations k m (rw r at e);
      delivered = rw t i.delivered;
    }

    pub allocate-IsKept : (n : ℕ) → I (record w { heap = n })
    allocate-IsKept n = same w.storage n refl refl refl refl

    pub head-IsKept : (s : HeadSlot) → I (record w { storage = set_head_slot b s w.storage })
    unfolding set_head_slot
    head-IsKept s = same _ w.heap refl refl refl refl

    pub attributes-IsKept :
        (a : PayloadAttributes) → I (record w { storage = set_payload_attributes b a w.storage })
    unfolding set_payload_attributes
    attributes-IsKept a = same _ w.heap refl refl refl refl

    pub duties-IsKept :
        (ds : List (ProposerDuty b)) → I (record w { storage = set_proposer_duties b ds w.storage })
    unfolding set_proposer_duties
    duties-IsKept ds = same _ w.heap refl refl refl refl

    -- The auctioneer's state changes to one in which every bid has the predicate.
    auction-IsKept :
        (a : c.State)
        → ((slot : ℕ) (x : Bid b) → c.peek a slot ≡ some x → P x.value)
        → I (record w { auctioneer = a })
    auction-IsKept a bids = record {
      same_whitelist = i.same_whitelist;
      bids = bids;
      payloads = i.payloads;
      registrations = i.registrations;
      delivered = i.delivered;
    }

    pub bid-IsKept :
        (slot : ℕ) (bid : Bid b)
        → P bid.value
        → I (record w { auctioneer = (compare_and_bid b c slot bid w.auctioneer).1 })
    bid-IsKept slot bid v = auction-IsKept _ λ j x e.
        elim (peek-compare_and_bid b c laws slot j bid x w.auctioneer e) [
          | inl new ↦ rw new v
          | inr old ↦ i.bids j x old
        ]

    pub read-IsKept :
        (slot : ℕ) → I (record w { auctioneer = (get_best_bid b c slot w.auctioneer).1 })
    read-IsKept slot =
        auction-IsKept _
          λ j x e. i.bids j x (sym (get_best_bid_lem b c laws slot j w.auctioneer).1 ∙ e)

    pub expire-IsKept : (a : c.State) → Expires c w.auctioneer a → I (record w { auctioneer = a })
    expire-IsKept a gone = auction-IsKept a λ j x e. elim (gone j) [
      | inl kept ↦ i.bids j x (sym kept ∙ e)
      | inr none_left ↦ absurd (cc (none_left, e))
    ]

    pub payload-IsKept :
        (key : BlsPublicKey b) (r : BlindedBlockResponse)
        → ReplyOf P r
        → I (record w { storage = set_blinded_block_response b key r w.storage })
    unfolding set_blinded_block_response read_validator_registration
    payload-IsKept key r from = record {
      same_whitelist = i.same_whitelist;
      bids = i.bids;
      payloads = λ k x e. elim (Bool-cases (b.pk_eq.beq key k)) [
        | inl hit ↦
            let new : r ≡ x = ground (arith, read-set_blinded b key k r w.storage, e, hit) in
            rw (← new) from
        | inr miss ↦ i.payloads k x (ground (arith, read-set_blinded b key k r w.storage, e, miss))
      ];
      registrations = i.registrations;
      delivered = i.delivered;
    }

    pub registration-IsKept :
        (key : BlsPublicKey b) (m : ValidatorRegistration b)
        → Q key m
        → I (record w { storage = set_validator_registration b key m w.storage })
    unfolding set_validator_registration read_blinded_block_response
    registration-IsKept key m signed = record {
      same_whitelist = i.same_whitelist;
      bids = i.bids;
      payloads = i.payloads;
      registrations = λ k x e. elim (Bool-cases (b.pk_eq.beq key k)) [
        | inl hit ↦
            let new : m ≡ x = ground (arith, read-set_registration b key k m w.storage, e, hit) in
            let own : key ≡ k = (b.pk_eq.beq_iff key k).0 hit in rw (← new, ← own) signed
        | inr miss ↦
            i.registrations k x (ground (arith, read-set_registration b key k m w.storage, e, miss))
      ];
      delivered = i.delivered;
    }

    pub delivery-IsKept :
        (hash : B256)
        → HashOf P hash
        → I (record w { storage = set_delivered_blocks b hash w.storage })
    unfolding set_delivered_blocks read_blinded_block_response read_validator_registration
    delivery-IsKept hash from = record {
      same_whitelist = i.same_whitelist;
      bids = i.bids;
      payloads = i.payloads;
      registrations = i.registrations;
      delivered = All-append _ w.storage.delivered_blocks hash i.delivered from;
    }

  pub initial-IsKept : (ttl : ℕ) → I (initial c whitelist ttl)
  unfolding new_auctioneer new_storage read_blinded_block_response read_validator_registration
      lookup
  initial-IsKept ttl = record {
    same_whitelist = refl;
    bids = λ k o p. absurd (ground (arith, laws.build_empty ttl k, p));
    payloads = λ k r p. absurd cc;
    registrations = λ k m p. absurd cc;
    delivered = tt;
  }
