-- ===== src/UseCase/RegisterValidator.antt =====
-- crates/usecase/src/register_validator.rs.
pub mod Laws
use mev_relay_rs.Prelude.{Bool, not}
use mev_relay_rs.Crypto.Blst.{Bls}
use mev_relay_rs.Crypto.Fork.{ForkDatas, ForkRoots, compute_builder_domain}
use mev_relay_rs.Entity.Bid.{EntityRoots}
use mev_relay_rs.Entity.Validator.{SignedValidatorRegistration, verify_registration}
use mev_relay_rs.Datastore.Storage.{Storage}
use mev_relay_rs.Datastore.Auctioneer.{Auctioneer}
use mev_relay_rs.UseCase.Error.{UseCaseError, invalid_validator_signature}
use mev_relay_rs.UseCase.Exec.{World, Exec, ◌>>=◌, ◌>>◌, raise_if, writes}

module _ {b : Bls} (h : ForkRoots) (roots : EntityRoots b) (S : Storage b) (A : Auctioneer b) where
  -- `RegisterValidatorUseCase::execute`
  unfoldable pub execute : ForkDatas → SignedValidatorRegistration b → Exec (World S A) (Unit {0})
  execute fork_datas registration = do
    let domain = compute_builder_domain h fork_datas
    raise_if (not (verify_registration b h roots.registration_root registration domain))
        invalid_validator_signature
    writes (S.set_validator_registration registration.message.pubkey registration.message)
