-- ===== src/UseCase/UnblindBlock/Laws.antt =====
-- When a payload is released, and what the proposer's signature binds.
use mev_relay_rs.Prelude.{
  tests, ℕ, ◌≡◌, ◌↔◌, ◌≢◌, sym, ◌∙◌, ap, true, false, some, none, ok, err, arith, inl, inr,
  Option-cases, bytes_eq_iff, Bytes,
}
use mev_relay_rs.Crypto.Blst.{Bls}
use mev_relay_rs.Crypto.Keys.{BlsSignature, sig_verify}
use mev_relay_rs.Crypto.Fork.{ForkDatas, ForkRoots, compute_proposer_domain}
use mev_relay_rs.Entity.Types.{B256}
use mev_relay_rs.Entity.Bid.{BlindedBlockResponse}
use mev_relay_rs.Entity.Validator.{ProposerDuty, ValidatorRegistration}
use mev_relay_rs.Datastore.Storage.{Storage}
use mev_relay_rs.Datastore.Auctioneer.{Auctioneer}
use mev_relay_rs.UseCase.Error.{
  UseCaseError, zero_bid, duty_not_found, invalid_validator_signature, proposer_index_mismatch,
  no_blinded_block_response, unauthorized_submission, block_hash_mismatch,
}
use mev_relay_rs.UseCase.Exec.{World}
use mev_relay_rs.UseCase.UnblindBlock.{execute, blinded_block_signing_root}

module _ {b : Bls} (h : ForkRoots) (keccak256 : Bytes → Bytes) (S : Storage b) (A : Auctioneer b)
    (fork_datas : ForkDatas) (slot proposer_index : ℕ) (block_hash : B256)
    (signature : BlsSignature b) where
  abbrev pub root : Bytes
  root =
      blinded_block_signing_root keccak256 slot proposer_index block_hash
        (compute_proposer_domain h fork_datas)

  -- The request is for a stored payload of the slot's registered proposer, under their signature.
  pub record IsReleasable (w : World S A) (resp : BlindedBlockResponse) : Type 0 where
    pub duty : ProposerDuty b
    pub found : S.find_duty_by_slot slot w.storage ≡ some duty
    pub same_index : duty.validator_index ≡ proposer_index
    pub registration : ValidatorRegistration b
    pub registered : S.read_validator_registration duty.pubkey w.storage ≡ some registration
    pub signed : sig_verify b signature duty.pubkey root ≡ true
    pub stored : S.read_blinded_block_response duty.pubkey w.storage ≡ some resp
    pub same_hash : resp.execution_payload.block_hash ≡ block_hash

  execute-IsReleasable :
      (w w' : World S A) (resp : BlindedBlockResponse)
      → execute h keccak256 S A fork_datas slot proposer_index block_hash signature w
        ≡ (ok resp, w')
      → IsReleasable w resp
        × (w' ≡ record w { storage = S.set_delivered_blocks block_hash w.storage })
  unfolding execute
  execute-IsReleasable w w' resp e = elim (Option-cases (S.find_duty_by_slot slot w.storage)) [
    | inl p ↦ absurd (ground (arith, p))
    | inr (d, p) ↦ elim (Option-cases (S.read_validator_registration d.pubkey w.storage)) [
      | inl q ↦ absurd (ground (arith, p, q))
      | inr (r, q) ↦ (
        record {
          duty = d;
          found = p;
          same_index = ground (arith, p, q);
          registration = r;
          registered = q;
          signed = ground (arith, p, q);
          stored = ground (arith, p, q);
          same_hash = grind tests;
        },
        ground (arith, p, q),
      )
    ]
  ]

  IsReleasable-execute :
      (w : World S A) (resp : BlindedBlockResponse)
      → IsReleasable w resp
      → execute h keccak256 S A fork_datas slot proposer_index block_hash signature w
        ≡ (ok resp, record w { storage = S.set_delivered_blocks block_hash w.storage })
  unfolding execute
  IsReleasable-execute w resp t = ground (
    arith,
    t.found,
    t.registered,
    t.stored,
    t.signed,
    bytes_eq_iff resp.execution_payload.block_hash block_hash,
  )

  -- A payload is released exactly to a request that is releasable; then its block hash is recorded as
  -- delivered, and nothing else changes.
  pub unblind_block_iff :
      (w w' : World S A) (resp : BlindedBlockResponse)
      → (execute h keccak256 S A fork_datas slot proposer_index block_hash signature w
          ≡ (ok resp, w'))
        ↔ (IsReleasable w resp
            × (w' ≡ record w { storage = S.set_delivered_blocks block_hash w.storage }))
  unblind_block_iff w w' resp = (
    execute-IsReleasable w w' resp,
    λ (t, e). IsReleasable-execute w resp t ∙ ap (λ x. (ok resp, x)) (sym e),
  )

  -- Why a payload was held back.
  abbrev pub Refused : World S A → UseCaseError → Type 0
  Refused w duty_not_found = S.find_duty_by_slot slot w.storage ≡ none
  Refused w (proposer_index_mismatch expected actual) =
      (expected ≢ actual)
      × (actual ≡ proposer_index)
      × ((d : ProposerDuty b) × (S.find_duty_by_slot slot w.storage ≡ some d)
          × (d.validator_index ≡ expected))
  Refused w unauthorized_submission =
      (d : ProposerDuty b) × (S.find_duty_by_slot slot w.storage ≡ some d)
      × (S.read_validator_registration d.pubkey w.storage ≡ none)
  Refused w invalid_validator_signature =
      (d : ProposerDuty b) × (S.find_duty_by_slot slot w.storage ≡ some d)
      × (sig_verify b signature d.pubkey root ≡ false)
  Refused w no_blinded_block_response =
      (d : ProposerDuty b) × (S.find_duty_by_slot slot w.storage ≡ some d)
      × (S.read_blinded_block_response d.pubkey w.storage ≡ none)
  Refused w block_hash_mismatch =
      (d : ProposerDuty b) × (S.find_duty_by_slot slot w.storage ≡ some d)
      × ((resp : BlindedBlockResponse) × (S.read_blinded_block_response d.pubkey w.storage
            ≡ some resp)
          × (resp.execution_payload.block_hash ≢ block_hash))
  Refused w _ = ⊥

  has_duty :
      (w w' : World S A) (e : UseCaseError)
      → execute h keccak256 S A fork_datas slot proposer_index block_hash signature w ≡ (err e, w')
      → e ≢ duty_not_found
      → (d : ProposerDuty b) × (S.find_duty_by_slot slot w.storage ≡ some d)
  unfolding execute
  has_duty w w' e p other = elim (Option-cases (S.find_duty_by_slot slot w.storage)) [
    | inl d ↦ absurd (ground (arith, d))
    | inr (d, t) ↦ (d, t)
  ]

  has_response :
      (w w' : World S A) (d : ProposerDuty b)
      → execute h keccak256 S A fork_datas slot proposer_index block_hash signature w
        ≡ (err block_hash_mismatch, w')
      → S.find_duty_by_slot slot w.storage ≡ some d
      → (r : BlindedBlockResponse) × (S.read_blinded_block_response d.pubkey w.storage ≡ some r)
        × (r.execution_payload.block_hash ≢ block_hash)
  unfolding execute
  has_response w w' d p t = elim (Option-cases (S.read_blinded_block_response d.pubkey w.storage)) [
    | inl r ↦ absurd (ground (arith, t, r))
    | inr (r, u) ↦ (r, u, grind tests)
  ]

  -- A refusal names its reason, changes nothing, and no other error is returned.
  pub unblind_block-Refused :
      (w w' : World S A) (e : UseCaseError)
      → execute h keccak256 S A fork_datas slot proposer_index block_hash signature w ≡ (err e, w')
      → Refused w e × (w' ≡ w)
  unfolding execute
  unblind_block-Refused w w' zero_bid p = ground arith
  unblind_block-Refused w w' block_hash_mismatch p =
      let (d, t) = has_duty w w' block_hash_mismatch p (λ q. cc) in
      ((d, t, has_response w w' d p t), ground (arith, t))
  unblind_block-Refused w w' (proposer_index_mismatch x y) p =
      let (d, t) = has_duty w w' (proposer_index_mismatch x y) p (λ q. cc) in
      ((ground (arith, t), ground (arith, t), (d, t, ground (arith, t))), ground (arith, t))
  unblind_block-Refused w w' unauthorized_submission p =
      let (d, t) = has_duty w w' unauthorized_submission p (λ q. cc) in
      ((d, t, ground (arith, t)), ground (arith, t))
  unblind_block-Refused w w' invalid_validator_signature p =
      let (d, t) = has_duty w w' invalid_validator_signature p (λ q. cc) in
      ((d, t, ground (arith, t)), ground (arith, t))
  unblind_block-Refused w w' no_blinded_block_response p =
      let (d, t) = has_duty w w' no_blinded_block_response p (λ q. cc) in
      ((d, t, ground (arith, t)), ground (arith, t))
  unblind_block-Refused w w' _ p = ground arith
