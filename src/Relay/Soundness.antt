-- ===== src/Relay/Soundness.antt =====
-- Every event keeps the relay sound, whole use cases at a time.
use mev_relay_rs.Prelude.{
  ℕ, ◌≡◌, refl, sym, ◌∙◌, Result, ok, err, arith, inl, inr, Bool-cases, Bytes, List,
}
use mev_relay_rs.Crypto.Blst.{Bls}
use mev_relay_rs.Crypto.Fork.{ForkDatas, ForkRoots, compute_builder_domain}
use mev_relay_rs.Crypto.Signer.{BlsSigner}
use mev_relay_rs.Entity.Bid.{BidSubmission, EntityRoots, BlindedBlockResponse}
use mev_relay_rs.Entity.Validator.{SignedValidatorRegistration, verify_registration}
use mev_relay_rs.Datastore.MemoryStorage.{
  memory_storage, set_head_slot, set_payload_attributes, set_proposer_duties, read_head_slot,
  find_duty_by_slot, read_blinded_block_response, set_validator_registration, set_delivered_blocks,
}
use mev_relay_rs.Datastore.Cache.{Cache, CacheLaws}
use mev_relay_rs.Datastore.MemoryAuctioneer.{memory_auctioneer, new_auctioneer}
use mev_relay_rs.Datastore.MemoryAuctioneer.Laws.{Bid, get_best_bid_lem}
use mev_relay_rs.UseCase.Error.{UseCaseError}
use mev_relay_rs.UseCase.SubmitBid
use mev_relay_rs.UseCase.SubmitBid.Laws
use mev_relay_rs.UseCase.GetHeader
use mev_relay_rs.UseCase.RegisterValidator
use mev_relay_rs.UseCase.UnblindBlock
use mev_relay_rs.Crypto.Keys.{BlsPublicKey, BlsSignature}
use mev_relay_rs.Relay.State.{
  initial, RelayWorld, next_slot, IsSound, Step, Reach, submit, retrieve, register, unblind,
}
use mev_relay_rs.Relay.Bids.{IsSound-refused, IsSound-accepted}

module _ {b : Bls} (h : ForkRoots) (roots : EntityRoots b) (keccak256 : Bytes → Bytes)
    (c : Cache (Bid b)) (signer : BlsSigner b) (fork_datas : ForkDatas) (laws : CacheLaws c) where
  submit-IsSound :
      (bid : BidSubmission b) (w : RelayWorld b c)
      → IsSound c w
      → IsSound c (submit h roots keccak256 c signer fork_datas bid w)
  submit-IsSound bid w s =
      by_result
        (SubmitBid.execute h roots (memory_storage b) (memory_auctioneer b c) fork_datas bid w) refl
    where
      by_result :
          (r : Result UseCaseError (Unit {0}) × RelayWorld b c)
          → SubmitBid.execute h roots (memory_storage b) (memory_auctioneer b c) fork_datas bid w
            ≡ r
          → IsSound c r.1
      by_result (ok tt, w') e =
          let iff =
            Laws.submit_bid_iff h roots (memory_storage b) (memory_auctioneer b c) fork_datas bid in
          let (duty, p, a, q) = (iff w w').0 e in
          rw q (IsSound-accepted c laws bid w duty s a p.next p.found)
      by_result (err x, w') e =
          let (r, _) =
            Laws.submit_bid-Refused h roots (memory_storage b) (memory_auctioneer b c) fork_datas
              bid w w' x e in
          elim (Laws.Refused-cases h roots (memory_storage b) (memory_auctioneer b c) fork_datas bid
            w w' x r) [
              | inl q ↦ rw q s
              | inr (q, (y, a)) ↦ rw q (IsSound-refused c laws bid w y s a)
            ]

  -- A header request only reads.
  pub retrieve_keeps :
      (slot : ℕ) (parent_hash : Bytes) (key : BlsPublicKey b) (w : RelayWorld b c)
      → let v = retrieve h roots keccak256 c signer fork_datas slot parent_hash key w in
        (v.storage ≡ w.storage)
        × (v.heap ≡ w.heap)
        × ((j : ℕ) → c.peek v.auctioneer j ≡ c.peek w.auctioneer j)
  unfolding GetHeader.execute
  retrieve_keeps slot parent_hash key w = (
    ground arith,
    ground arith,
    λ j. ground (arith, (get_best_bid_lem b c laws slot j w.auctioneer).1),
  )

  retrieve-IsSound :
      (slot : ℕ) (parent_hash : Bytes) (key : BlsPublicKey b) (w : RelayWorld b c)
      → IsSound c w
      → IsSound c (retrieve h roots keccak256 c signer fork_datas slot parent_hash key w)
  unfolding read_head_slot find_duty_by_slot read_blinded_block_response
  retrieve-IsSound slot parent_hash key w s =
      let (same, heap, peeks) = retrieve_keeps slot parent_hash key w in
      record {
        fresh = λ k o p. rw heap (s.fresh k o (sym (peeks k) ∙ p));
        in_sync =
            λ d o p q. rw same (s.in_sync d o (rw same at p) (rw same at (sym (peeks _) ∙ q)));
      }

  register-IsSound :
      (r : SignedValidatorRegistration b) (w : RelayWorld b c)
      → IsSound c w
      → IsSound c (register h roots keccak256 c signer fork_datas r w)
  unfolding RegisterValidator.execute read_head_slot find_duty_by_slot read_blinded_block_response
      set_validator_registration
  register-IsSound r w s =
      elim (Bool-cases
        (verify_registration b h roots.registration_root r (compute_builder_domain h fork_datas))) [
          | inl good ↦ rw (register, good) (record { fresh = s.fresh; in_sync = s.in_sync })
          | inr bad ↦ rw (register, bad) s
        ]

  unblind-IsSound :
      (slot index : ℕ) (hash : Bytes) (signature : BlsSignature b) (w : RelayWorld b c)
      → IsSound c w
      → IsSound c (unblind h roots keccak256 c signer fork_datas slot index hash signature w)
  unfolding read_head_slot find_duty_by_slot read_blinded_block_response set_delivered_blocks
  unblind-IsSound slot index hash signature w s =
      by_result
        (UnblindBlock.execute h keccak256 (memory_storage b) (memory_auctioneer b c) fork_datas slot
          index hash signature w)
        refl
    where
      by_result :
          (r : Result UseCaseError BlindedBlockResponse × RelayWorld b c)
          → UnblindBlock.execute h keccak256
              (memory_storage b)
              (memory_auctioneer b c)
              fork_datas
              slot
              index
              hash
              signature
              w
            ≡ r
          → IsSound c r.1
      by_result (ok resp, w') e =
          let iff =
            UnblindBlock.Laws.unblind_block_iff h keccak256 (memory_storage b)
              (memory_auctioneer b c) fork_datas slot index hash signature in
          let (_, q) = (iff w w' resp).0 e in rw q (record { fresh = s.fresh; in_sync = s.in_sync })
      by_result (err x, w') e =
          let (_, q) =
            UnblindBlock.Laws.unblind_block-Refused h keccak256 (memory_storage b)
              (memory_auctioneer b c) fork_datas slot index hash signature w w' x e in
          rw q s

  pub Step-IsSound :
      {w u : RelayWorld b c}
      → Step h roots keccak256 c signer fork_datas w u
      → IsSound c w
      → IsSound c u
  unfolding find_duty_by_slot read_blinded_block_response read_head_slot set_head_slot
      set_payload_attributes set_proposer_duties
  Step-IsSound {w} (Step.submits bid) s = submit-IsSound bid w s
  Step-IsSound {w} (Step.retrieves slot p k) s = retrieve-IsSound slot p k w s
  Step-IsSound {w} (Step.registers r) s = register-IsSound r w s
  Step-IsSound {w} (Step.unblinds slot i x g) s = unblind-IsSound slot i x g w s
  Step-IsSound {w} (Step.expires a e) s = record {
    fresh = λ k o p. elim (e k) [ inl same ↦ s.fresh k o (sym same ∙ p) | inr gone ↦ cc (gone, p) ];
    in_sync = λ d o p q. elim (e (next_slot c w)) [
      | inl same ↦ s.in_sync d o p (sym same ∙ q)
      | inr gone ↦ cc (gone, q)
    ];
  }
  Step-IsSound {w} (Step.moves_head hs e) s = record {
    fresh = s.fresh;
    in_sync = λ d o p q. absurd (cc (e, q));
  }
  Step-IsSound {w} (Step.gets_attributes a) s = record { fresh = s.fresh; in_sync = s.in_sync }
  Step-IsSound {w} (Step.gets_duties ds e) s = record {
    fresh = s.fresh;
    in_sync = λ d o p q. absurd (cc (e, q));
  }

  pub initial-IsSound :
      (whitelist : List (BlsPublicKey b)) (ttl : ℕ) → IsSound c (initial c whitelist ttl)
  unfolding new_auctioneer
  initial-IsSound whitelist ttl = record {
    fresh = λ k o p. cc (laws.build_empty ttl k, p);
    in_sync = λ d o p q. cc (laws.build_empty ttl (next_slot c (initial c whitelist ttl)), q);
  }

  Reach-IsSound :
      {w u : RelayWorld b c}
      → Reach h roots keccak256 c signer fork_datas w u
      → IsSound c w
      → IsSound c u
  Reach-IsSound Reach.here s = s
  Reach-IsSound (Reach.next r st) s = Step-IsSound st (Reach-IsSound r s)

  -- In every state that a new relay reaches by events that each run to their end, where the head and
  -- the duties change only while there is no bid for the slot that is next before the duties change
  -- or after the head moves: the payload that is stored for the proposer of the next slot is that of
  -- the slot's best bid, if it has one.
  pub relay-IsSound :
      (whitelist : List (BlsPublicKey b)) (ttl : ℕ) {u : RelayWorld b c}
      → Reach h roots keccak256 c signer fork_datas (initial c whitelist ttl) u
      → IsSound c u
  relay-IsSound whitelist ttl r = Reach-IsSound r (initial-IsSound whitelist ttl)
