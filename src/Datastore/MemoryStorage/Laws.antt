-- ===== src/Datastore/MemoryStorage/Laws.antt =====
-- The maps of the in-memory storage: what a read returns after a write.
use mev_relay_rs.Prelude.{
  ℕ, ◌≡◌, some, ◌==◌, if◌then◌else◌, arith, lookup-insert, List, [], ◌∷◌, find,
}
use mev_relay_rs.Crypto.Blst.{Bls}
use mev_relay_rs.Crypto.Keys.{BlsPublicKey}
use mev_relay_rs.Entity.Bid.{BlindedBlockResponse}
use mev_relay_rs.Entity.Validator.{ValidatorRegistration, ProposerDuty}
use mev_relay_rs.Datastore.MemoryStorage.{
  MemoryStorage, set_validator_registration, read_validator_registration,
  set_blinded_block_response, read_blinded_block_response, find_duty_by_slot,
}

module _ (b : Bls) where
  pub read-set_registration :
      (k j : BlsPublicKey b) (r : ValidatorRegistration b) (s : MemoryStorage b)
      → read_validator_registration b j (set_validator_registration b k r s)
        ≡ (if b.pk_eq.beq k j then some r else read_validator_registration b j s)
  unfolding read_validator_registration set_validator_registration
  read-set_registration k j r s = lookup-insert b.pk_eq k j r s.validator_registrations

  pub read-set_blinded :
      (k j : BlsPublicKey b) (r : BlindedBlockResponse) (s : MemoryStorage b)
      → read_blinded_block_response b j (set_blinded_block_response b k r s)
        ≡ (if b.pk_eq.beq k j then some r else read_blinded_block_response b j s)
  unfolding read_blinded_block_response set_blinded_block_response
  read-set_blinded k j r s = lookup-insert b.pk_eq k j r s.blinded_blocks

  find-slot :
      (slot : ℕ) (ds : List (ProposerDuty b)) (d : ProposerDuty b)
      → find (λ x. x.slot == slot) ds ≡ some d
      → d.slot ≡ slot
  find-slot slot [] d h = cc
  find-slot slot (x ∷ ds) d h = ground (arith, find-slot slot ds d)

  -- A duty that is found is one for the slot asked for.
  pub slot-find_duty :
      (slot : ℕ) (s : MemoryStorage b) (d : ProposerDuty b)
      → find_duty_by_slot b slot s ≡ some d
      → d.slot ≡ slot
  unfolding find_duty_by_slot
  slot-find_duty slot s d h = find-slot slot s.proposer_duties d h
