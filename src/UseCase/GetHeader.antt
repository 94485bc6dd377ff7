-- ===== src/UseCase/GetHeader.antt =====
-- crates/usecase/src/get_header.rs.
pub mod Laws
use mev_relay_rs.Prelude.{ℕ, Bool, not, is_some, bytes_eq}
use mev_relay_rs.Crypto.Blst.{Bls}
use mev_relay_rs.Crypto.Keys.{BlsPublicKey}
use mev_relay_rs.Crypto.Fork.{ForkRoots}
use mev_relay_rs.Crypto.Signer.{BlsSigner, sign}
use mev_relay_rs.Entity.Types.{B256}
use mev_relay_rs.Entity.Bid.{EntityRoots, SignedHeader, Versioned, build_header}
use mev_relay_rs.Entity.HeadSlot.{is_next_slot}
use mev_relay_rs.Datastore.Storage.{Storage}
use mev_relay_rs.Datastore.Auctioneer.{Auctioneer}
use mev_relay_rs.UseCase.Error.{
  UseCaseError, unauthorized_get_header, duty_not_found, invalid_slot, no_bid_found,
}
use mev_relay_rs.UseCase.Exec.{World, Exec, ◌>>=◌, ◌>>◌, pure, raise_if, or_raise, reads, calls}

module _ {b : Bls} (h : ForkRoots) (roots : EntityRoots b) (S : Storage b) (A : Auctioneer b) where
  -- `GetHeaderUseCase::execute`
  unfoldable pub execute :
      BlsSigner b → ℕ → B256 → BlsPublicKey b → Exec (World S A) (Versioned (SignedHeader b))
  execute signer slot parent_hash proposer_pubkey = do
    registration ← reads (S.read_validator_registration proposer_pubkey)
    raise_if (not (is_some registration)) unauthorized_get_header
    found ← reads (S.find_duty_by_slot slot)
    duty ← or_raise found duty_not_found
    raise_if (not (b.pk_eq.beq duty.pubkey proposer_pubkey)) unauthorized_get_header
    head_slot ← reads S.read_head_slot
    raise_if (not (is_next_slot head_slot slot)) invalid_slot
    best_bid ← calls (A.get_best_bid slot)
    raise_if (not (bytes_eq best_bid.value.message.parent_hash parent_hash)) no_bid_found
    let header = build_header roots best_bid.value
    let signature = sign b h roots.header_root signer header
    pure (record {
      version = signer.fork_name;
      contents = record { message = header; signature = signature };
    })
