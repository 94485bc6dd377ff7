-- ===== src/UseCase/RegisterValidator/Laws.antt =====
-- When a registration is stored.
use mev_relay_rs.Prelude.{◌≡◌, ok, err, arith, if◌then◌else◌}
use mev_relay_rs.Crypto.Blst.{Bls}
use mev_relay_rs.Crypto.Fork.{ForkDatas, ForkRoots, compute_builder_domain}
use mev_relay_rs.Entity.Bid.{EntityRoots}
use mev_relay_rs.Entity.Validator.{SignedValidatorRegistration, verify_registration}
use mev_relay_rs.Datastore.Storage.{Storage}
use mev_relay_rs.Datastore.Auctioneer.{Auctioneer}
use mev_relay_rs.UseCase.Error.{invalid_validator_signature}
use mev_relay_rs.UseCase.Exec.{World}
use mev_relay_rs.UseCase.RegisterValidator.{execute}

module _ {b : Bls} (h : ForkRoots) (roots : EntityRoots b) (S : Storage b) (A : Auctioneer b)
    (fork_datas : ForkDatas) (r : SignedValidatorRegistration b) where
  -- A registration with a valid signature by its own key is stored under that key and nothing else
  -- changes; any other is refused as an invalid signature, and nothing changes.
  pub register_validator_lem :
      (w : World S A)
      → execute h roots S A fork_datas r w ≡ (
          if verify_registration b h roots.registration_root r (compute_builder_domain h fork_datas)
          then (
            ok tt,
            record w {
              storage = S.set_validator_registration r.message.pubkey r.message w.storage;
            },
          )
          else (err invalid_validator_signature, w))
  unfolding execute
  register_validator_lem w = ground arith
