-- ===== src/UseCase/Task/Programs.antt =====
-- The four use cases of crates/usecase as tasks.
use mev_relay_rs.Prelude.{ℕ, not, is_some, msg, ◌==◌, bytes_eq, Bytes}
use mev_relay_rs.Crypto.Blst.{Bls}
use mev_relay_rs.Crypto.Keys.{BlsPublicKey, BlsSignature, sig_verify}
use mev_relay_rs.Crypto.Fork.{ForkDatas, ForkRoots, compute_builder_domain, compute_proposer_domain}
use mev_relay_rs.Crypto.Signer.{BlsSigner, sign}
use mev_relay_rs.Entity.Types.{B256}
use mev_relay_rs.Entity.Bid.{
  BidSubmission, BlindedBlockResponse, EntityRoots, SignedHeader, Versioned, build_header,
  verify_bid, to_blinded_block_response,
}
use mev_relay_rs.Entity.Validator.{SignedValidatorRegistration, verify_registration}
use mev_relay_rs.Entity.HeadSlot.{is_next_slot}
use mev_relay_rs.Datastore.Storage.{Storage}
use mev_relay_rs.Datastore.Auctioneer.{Auctioneer}
use mev_relay_rs.UseCase.Error.{
  zero_bid, unauthorized_builder, invalid_slot, invalid_payload_attributes, duty_not_found,
  invalid_builder_signature, unauthorized_get_header, no_bid_found, invalid_validator_signature,
  proposer_index_mismatch, unauthorized_submission, no_blinded_block_response, block_hash_mismatch,
}
use mev_relay_rs.UseCase.Exec.{World}
use mev_relay_rs.UseCase.UnblindBlock.{blinded_block_signing_root}
use mev_relay_rs.UseCase.Task.{
  Task, ◌>>=◌, ◌>>◌, pure, raise_if, or_raise, reads, writes, calls, arc_new,
}

-- A request to one of the use cases, and what it answers when it succeeds.
pub data Request (b : Bls) : Type 0 where
  submit_bid : BidSubmission b → Request b
  get_header : ℕ → B256 → BlsPublicKey b → Request b
  register_validator : SignedValidatorRegistration b → Request b
  unblind_block : ℕ → ℕ → B256 → BlsSignature b → Request b

abbrev pub Answer : {b : Bls} → Request b → Type 0
Answer (submit_bid bid) = Unit
Answer {b} (get_header slot parent_hash key) = Versioned (SignedHeader b)
Answer (register_validator registration) = Unit
Answer (unblind_block slot index hash signature) = BlindedBlockResponse

module _ {b : Bls} (h : ForkRoots) (roots : EntityRoots b) (keccak256 : Bytes → Bytes)
    (S : Storage b) (A : Auctioneer b) (signer : BlsSigner b) (fork_datas : ForkDatas) where
  -- `SubmitBidUseCase::execute`
  unfoldable pub submit_task : BidSubmission b → Task (World S A) (Unit {0})
  submit_task bid = do
    let slot = bid.message.slot
    raise_if (bid.message.value == 0) zero_bid
    whitelisted ← reads (S.is_whitelisted_builder bid.message.builder_pubkey)
    raise_if (not whitelisted) unauthorized_builder
    head_slot ← reads S.read_head_slot
    raise_if (not (is_next_slot head_slot slot)) invalid_slot
    attrs ← reads S.read_payload_attributes
    raise_if (not (bytes_eq attrs.prev_randao bid.execution_payload.prev_randao))
        (invalid_payload_attributes (msg "prev_randao mismatch"))
    found ← reads (S.find_duty_by_slot slot)
    duty ← or_raise found duty_not_found
    let domain = compute_builder_domain h fork_datas
    raise_if (not (verify_bid b h roots bid.message bid.signature domain)) invalid_builder_signature
    bid_arc ← arc_new bid
    calls (A.compare_and_bid slot bid_arc)
    writes (S.set_blinded_block_response duty.pubkey (to_blinded_block_response bid))

  -- `GetHeaderUseCase::execute`
  unfoldable pub header_task :
      ℕ → B256 → BlsPublicKey b → Task (World S A) (Versioned (SignedHeader b))
  header_task slot parent_hash proposer_pubkey = do
    registration ← reads (S.read_validator_registration proposer_pubkey)
    raise_if (not (is_some registration)) unauthorized_get_header
    found ← reads (S.find_duty_by_slot slot)
    duty ← or_raise found duty_not_found
    raise_if (not (b.pk_eq.beq duty.pubkey proposer_pubkey)) unauthorized_get_header
    head_slot ← reads S.read_head_slot
    raise_if (not (is_next_slot head_slot slot)) invalid_slot
    best_bid ← calls (A.get_best_bid slot)
    raise_if (not (bytes_eq best_bid.value.message.parent_hash parent_hash)) no_bid_found
    let header = build_header roots best_bid.value
    pure (record {
      version = signer.fork_name;
      contents = record { message = header; signature = sign b h roots.header_root signer header };
    })

  -- `RegisterValidatorUseCase::execute`
  unfoldable pub register_task : SignedValidatorRegistration b → Task (World S A) (Unit {0})
  register_task registration = do
    let domain = compute_builder_domain h fork_datas
    raise_if (not (verify_registration b h roots.registration_root registration domain))
        invalid_validator_signature
    writes (S.set_validator_registration registration.message.pubkey registration.message)

  -- `UnblindBlockUseCase::execute`
  unfoldable pub unblind_task :
      ℕ → ℕ → B256 → BlsSignature b → Task (World S A) BlindedBlockResponse
  unblind_task slot proposer_index block_hash signature = do
    found ← reads (S.find_duty_by_slot slot)
    duty ← or_raise found duty_not_found
    raise_if (not (duty.validator_index == proposer_index))
        (proposer_index_mismatch duty.validator_index proposer_index)
    registration ← reads (S.read_validator_registration duty.pubkey)
    raise_if (not (is_some registration)) unauthorized_submission
    let domain = compute_proposer_domain h fork_datas
    let root = blinded_block_signing_root keccak256 slot proposer_index block_hash domain
    raise_if (not (sig_verify b signature duty.pubkey root)) invalid_validator_signature
    stored ← reads (S.read_blinded_block_response duty.pubkey)
    resp ← or_raise stored no_blinded_block_response
    raise_if (not (bytes_eq resp.execution_payload.block_hash block_hash)) block_hash_mismatch
    writes (S.set_delivered_blocks block_hash)
    pure resp

  unfoldable pub task_of : (r : Request b) → Task (World S A) (Answer r)
  unfolding submit_task header_task register_task unblind_task
  task_of (submit_bid bid) = submit_task bid
  task_of (get_header slot parent_hash key) = header_task slot parent_hash key
  task_of (register_validator registration) = register_task registration
  task_of (unblind_block slot index hash signature) = unblind_task slot index hash signature
