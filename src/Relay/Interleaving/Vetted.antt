-- ===== src/Relay/Interleaving/Vetted.antt =====
-- What every bid that the relay holds or gives away has passed, in any order of events.
use mev_relay_rs.Prelude.{◌≡◌, ◌≢◌, true, List}
use mev_relay_rs.Crypto.Blst.{Bls}
use mev_relay_rs.Crypto.Keys.{BlsPublicKey}
use mev_relay_rs.Crypto.Fork.{ForkDatas, ForkRoots, compute_builder_domain}
use mev_relay_rs.Entity.Bid.{BidSubmission, EntityRoots, verify_bid}
use mev_relay_rs.Entity.Validator.{
  ValidatorRegistration, SignedValidatorRegistration, verify_registration,
}
use mev_relay_rs.Datastore.MemoryStorage.{contains}
use mev_relay_rs.Datastore.Cache.{Cache}
use mev_relay_rs.Datastore.MemoryAuctioneer.Laws.{Bid}
use mev_relay_rs.Relay.State.{RelayWorld}
use mev_relay_rs.Relay.Kept.{IsKept}

module _ {b : Bls} (h : ForkRoots) (roots : EntityRoots b) (fork_datas : ForkDatas)
    (whitelist : List (BlsPublicKey b)) where
  -- A bid of some value, of a builder in the whitelist, with its signature.
  pub record IsVetted (bid : BidSubmission b) : Type 0 where
    pub positive : bid.message.value ≢ 0
    pub whitelisted : contains b bid.message.builder_pubkey whitelist ≡ true
    pub signed :
        verify_bid b h roots bid.message bid.signature (compute_builder_domain h fork_datas) ≡ true

  -- A registration was signed by the key that it is for.
  abbrev pub IsSigned : BlsPublicKey b → ValidatorRegistration b → Type 0
  IsSigned key m =
      (s : SignedValidatorRegistration b) × (s.message ≡ m)
      × (m.pubkey ≡ key)
      × (verify_registration b h roots.registration_root s (compute_builder_domain h fork_datas)
          ≡ true)

  -- Everything that the relay keeps is vetted.
  abbrev pub IsVettedWorld : (c : Cache (Bid b)) → RelayWorld b c → Type 0
  IsVettedWorld c w = IsKept whitelist IsVetted IsSigned c w
