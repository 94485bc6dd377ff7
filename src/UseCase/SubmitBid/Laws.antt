-- ===== src/UseCase/SubmitBid/Laws.antt =====
-- When a bid is accepted, what a refusal says, and what either changes.
use mev_relay_rs.Prelude.{
  suc, ◌+◌, ◌%◌, ◌≡◌, ◌≢◌, ◌↔◌, refl, true, false, some, none, Result, ok, err, arith, ◌⊎◌, inl,
  inr, bytes_eq_iff, Result-cases,
}
use mev_relay_rs.Crypto.Blst.{Bls}
use mev_relay_rs.Crypto.Fork.{ForkDatas, ForkRoots, compute_builder_domain}
use mev_relay_rs.Entity.Types.{u64_mod}
use mev_relay_rs.Entity.Bid.{Arc, BidSubmission, EntityRoots, verify_bid, to_blinded_block_response}
use mev_relay_rs.Entity.Validator.{ProposerDuty}
use mev_relay_rs.Entity.HeadSlot.{is_next_slot}
use mev_relay_rs.Datastore.Storage.{Storage}
use mev_relay_rs.Datastore.Auctioneer.{Auctioneer, AuctioneerError}
use mev_relay_rs.UseCase.Error.{
  UseCaseError, auctioneer_error, zero_bid, unauthorized_builder, invalid_slot, duty_not_found,
  invalid_builder_signature, invalid_payload_attributes,
}
use mev_relay_rs.UseCase.Exec.{World}
use mev_relay_rs.UseCase.SubmitBid.{check_bid, place_bid, execute}

module _ {b : Bls} (h : ForkRoots) (roots : EntityRoots b) (S : Storage b) (A : Auctioneer b)
    (fork_datas : ForkDatas) (bid : BidSubmission b) where
  -- Everything that a bid is checked for.
  pub record Passes (w : World S A) (duty : ProposerDuty b) : Type 0 where
    pub positive : bid.message.value ≢ 0
    pub whitelisted : S.is_whitelisted_builder bid.message.builder_pubkey w.storage ≡ true
    pub next : ((S.read_head_slot w.storage).slot + 1) % u64_mod ≡ bid.message.slot
    pub randao :
        (S.read_payload_attributes w.storage).prev_randao ≡ bid.execution_payload.prev_randao
    pub found : S.find_duty_by_slot bid.message.slot w.storage ≡ some duty
    pub signed :
        verify_bid b h roots bid.message bid.signature (compute_builder_domain h fork_datas) ≡ true

  check_bid-Passes :
      (w w' : World S A) (duty : ProposerDuty b)
      → check_bid h roots S A fork_datas bid w ≡ (ok duty, w')
      → Passes w duty
  unfolding check_bid is_next_slot
  check_bid-Passes w w' duty e = ground (
    arith,
    bytes_eq_iff (S.read_payload_attributes w.storage).prev_randao
        bid.execution_payload.prev_randao,
  )

  Passes-check_bid :
      (w : World S A) (duty : ProposerDuty b)
      → Passes w duty
      → check_bid h roots S A fork_datas bid w ≡ (ok duty, w)
  unfolding check_bid is_next_slot
  Passes-check_bid w duty p = ground (
    arith,
    bytes_eq_iff (S.read_payload_attributes w.storage).prev_randao
        bid.execution_payload.prev_randao,
  )

  check_bid_keeps : (w : World S A) → (check_bid h roots S A fork_datas bid w).1 ≡ w
  unfolding check_bid
  check_bid_keeps w = ground arith

  abbrev pub allocated : World S A → Arc (BidSubmission b)
  allocated w = record { addr = w.heap; value = bid }

  abbrev pub asked : World S A → Result AuctioneerError (Unit {0}) × A.State
  asked w = A.compare_and_bid bid.message.slot (allocated w) w.auctioneer

  abbrev pub placed : World S A → World S A
  placed w = record w { auctioneer = (asked w).1; heap = suc w.heap }

  -- The state after an accepted bid.
  abbrev pub accepted : ProposerDuty b → World S A → World S A
  accepted duty w = record {
    storage = S.set_blinded_block_response duty.pubkey (to_blinded_block_response bid) w.storage;
    auctioneer = (asked w).1;
    heap = suc w.heap;
  }

  check_bid_cases :
      (w : World S A)
      → ((duty : ProposerDuty b) × Passes w duty
          × (check_bid h roots S A fork_datas bid w ≡ (ok duty, w)))
        ⊎ ((e : UseCaseError) × (check_bid h roots S A fork_datas bid w ≡ (err e, w)))
  check_bid_cases w = split_check (check_bid h roots S A fork_datas bid w) refl
    where
      split_check :
          (r : Result UseCaseError (ProposerDuty b) × World S A)
          → check_bid h roots S A fork_datas bid w ≡ r
          → ((duty : ProposerDuty b) × Passes w duty
              × (check_bid h roots S A fork_datas bid w ≡ (ok duty, w)))
            ⊎ ((e : UseCaseError) × (check_bid h roots S A fork_datas bid w ≡ (err e, w)))
      split_check (ok duty, w') e =
          let p = check_bid-Passes w w' duty e in inl (duty, p, Passes-check_bid w duty p)
      split_check (err x, w') e = inr (x, cc (e, check_bid_keeps w))

  -- What the auctioneer has taken passed every check, and only its answer is stored so far.
  pub place_bid-ok :
      (w w' : World S A) (duty : ProposerDuty b)
      → place_bid h roots S A fork_datas bid w ≡ (ok duty, w')
      → Passes w duty × ((asked w).0 ≡ ok tt) × (w' ≡ placed w)
  unfolding place_bid
  place_bid-ok w w' duty e = elim (check_bid_cases w) [
    | inl (d, p, c) ↦
        let same : d ≡ duty = ground (arith, c) in
        (rw (← same) p, ground (arith, c), ground (arith, c))
    | inr (x, c) ↦ absurd (ground (arith, c))
  ]

  -- A bid is accepted exactly when it passes every check for some duty of its slot and the auctioneer
  -- takes it. Then the auctioneer has answered, the bid's blinded response is stored for the proposer
  -- of the duty, and nothing else has changed.
  pub submit_bid_iff :
      (w w' : World S A)
      → (execute h roots S A fork_datas bid w ≡ (ok tt, w'))
        ↔ ((duty : ProposerDuty b) × Passes w duty × ((asked w).0 ≡ ok tt) × (w' ≡ accepted duty w))
  unfolding execute
  submit_bid_iff w w' = (forward, backward)
    where
      forward :
          execute h roots S A fork_datas bid w ≡ (ok tt, w')
          → (duty : ProposerDuty b) × Passes w duty × ((asked w).0 ≡ ok tt) × (w' ≡ accepted duty w)
      forward e = elim (check_bid_cases w) [
        | inl (duty, p, c) ↦ (duty, p, ground (arith, c), ground (arith, c))
        | inr (x, c) ↦ absurd (ground (arith, c))
      ]

      backward :
          ((duty : ProposerDuty b) × Passes w duty × ((asked w).0 ≡ ok tt) × (w' ≡ accepted duty w))
          → execute h roots S A fork_datas bid w ≡ (ok tt, w')
      backward (duty, p, a, q) = rw (Passes-check_bid w duty p) (ground arith)

  -- Why a bid was refused, and that a refusal by the checks has changed nothing.
  abbrev pub Refused : World S A → UseCaseError → World S A → Type 0
  Refused w zero_bid w' = (w' ≡ w) × (bid.message.value ≡ 0)
  Refused w unauthorized_builder w' =
      (w' ≡ w) × (S.is_whitelisted_builder bid.message.builder_pubkey w.storage ≡ false)
  Refused w invalid_slot w' =
      (w' ≡ w) × (((S.read_head_slot w.storage).slot + 1) % u64_mod ≢ bid.message.slot)
  Refused w (invalid_payload_attributes m) w' =
      (w' ≡ w)
      × ((S.read_payload_attributes w.storage).prev_randao ≢ bid.execution_payload.prev_randao)
  Refused w duty_not_found w' = (w' ≡ w) × (S.find_duty_by_slot bid.message.slot w.storage ≡ none)
  Refused w invalid_builder_signature w' =
      (w' ≡ w)
      × (verify_bid b h roots bid.message bid.signature (compute_builder_domain h fork_datas)
          ≡ false)
  Refused w (auctioneer_error x) w' =
      (w' ≡ placed w) × ((asked w).0 ≡ err x) × ((duty : ProposerDuty b) × Passes w duty)
  Refused w _ w' = ⊥

  check-Refused :
      (w w' : World S A) (e : UseCaseError)
      → check_bid h roots S A fork_datas bid w ≡ (err e, w')
      → Refused w e w
  unfolding check_bid is_next_slot
  check-Refused w w' (invalid_payload_attributes m) p = ground (
    arith,
    bytes_eq_iff (S.read_payload_attributes w.storage).prev_randao
        bid.execution_payload.prev_randao,
  )
  check-Refused w w' _ p = ground arith

  -- A refused bid never writes to the storage; its error tells the check that failed, or passes on
  -- the auctioneer's, and no other error is returned.
  pub submit_bid-Refused :
      (w w' : World S A) (e : UseCaseError)
      → execute h roots S A fork_datas bid w ≡ (err e, w')
      → Refused w e w' × (w'.storage ≡ w.storage)
  unfolding execute
  submit_bid-Refused w w' e p = elim (check_bid_cases w) [
    | inl (duty, q, c) ↦ elim (Result-cases (asked w).0) [
      | inl (tt, a) ↦ absurd (ground (arith, c, a))
      | inr (x, a) ↦
          let same : e ≡ auctioneer_error x = ground (arith, c, a) in
          let state : w' ≡ placed w = ground (arith, c, a) in
          rw (same, state) ((refl, a, (duty, q)), refl)
    ]
    | inr (x, c) ↦
        let same : e ≡ x = ground (arith, c) in
        let state : w' ≡ w = ground (arith, c) in rw (same, state) (check-Refused w w x c, refl)
  ]

  -- A refusal leaves the state as it was, or as the auctioneer's own refusal left it.
  pub Refused-cases :
      (w w' : World S A) (e : UseCaseError)
      → Refused w e w'
      → (w' ≡ w) ⊎ ((w' ≡ placed w) × ((x : AuctioneerError) × ((asked w).0 ≡ err x)))
  Refused-cases w w' (auctioneer_error x) r = inr (r.0, (x, r.1))
  Refused-cases w w' zero_bid r = inl r.0
  Refused-cases w w' unauthorized_builder r = inl r.0
  Refused-cases w w' invalid_slot r = inl r.0
  Refused-cases w w' (invalid_payload_attributes m) r = inl r.0
  Refused-cases w w' duty_not_found r = inl r.0
  Refused-cases w w' invalid_builder_signature r = inl r.0
  Refused-cases w w' _ r = absurd r
