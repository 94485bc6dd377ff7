-- ===== src/UseCase/UnblindBlock.antt =====
-- crates/usecase/src/unblind_block.rs.
pub mod Laws
pub mod SigningRoot
use mev_relay_rs.Prelude.{ℕ, Bool, not, is_some, Bytes, ◌++◌, ◌==◌, bytes_eq}
use mev_relay_rs.Crypto.Blst.{Bls}
use mev_relay_rs.Crypto.Keys.{BlsSignature, sig_verify}
use mev_relay_rs.Crypto.Fork.{Domain, ForkDatas, ForkRoots, compute_proposer_domain}
use mev_relay_rs.Entity.Types.{B256, to_le_bytes}
use mev_relay_rs.Entity.Bid.{BlindedBlockResponse}
use mev_relay_rs.Datastore.Storage.{Storage}
use mev_relay_rs.Datastore.Auctioneer.{Auctioneer}
use mev_relay_rs.UseCase.Error.{
  UseCaseError, duty_not_found, proposer_index_mismatch, unauthorized_submission,
  invalid_validator_signature, no_blinded_block_response, block_hash_mismatch,
}
use mev_relay_rs.UseCase.Exec.{World, Exec, ◌>>=◌, ◌>>◌, pure, raise_if, or_raise, reads, writes}

-- `blinded_block_signing_root`, over `keccak256` of `alloy_primitives`
unfoldable pub blinded_block_signing_root : (Bytes → Bytes) → ℕ → ℕ → B256 → Domain → Bytes
blinded_block_signing_root keccak256 slot proposer_index block_hash domain =
    let hash = keccak256 (to_le_bytes 8 slot ++ (to_le_bytes 8 proposer_index ++ block_hash)) in
    keccak256 (hash ++ domain)

module _ {b : Bls} (h : ForkRoots) (keccak256 : Bytes → Bytes) (S : Storage b)
    (A : Auctioneer b) where
  -- `UnblindBlockUseCase::execute`
  unfoldable pub execute :
      ForkDatas → ℕ → ℕ → B256 → BlsSignature b → Exec (World S A) BlindedBlockResponse
  execute fork_datas slot proposer_index block_hash signature = do
    found ← reads (S.find_duty_by_slot slot)
    duty ← or_raise found duty_not_found
    raise_if (not (duty.validator_index == proposer_index))
        (proposer_index_mismatch duty.validator_index proposer_index)
    registration ← reads (S.read_validator_registration duty.pubkey)
    raise_if (not (is_some registration)) unauthorized_submission
    let domain = compute_proposer_domain h fork_datas
    let root = blinded_block_signing_root keccak256 slot proposer_index block_hash domain
    raise_if (not (sig_verify b signature duty.pubkey root)) invalid_validator_signature
    stored ← reads (S.read_blinded_block_response duty.pubkey)
    resp ← or_raise stored no_blinded_block_response
    raise_if (not (bytes_eq resp.execution_payload.block_hash block_hash)) block_hash_mismatch
    writes (S.set_delivered_blocks block_hash)
    pure resp
