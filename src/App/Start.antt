-- ===== src/App/Start.antt =====
-- crates/app/src/lib.rs: what `run_inner` builds before it serves: the shared storage and auctioneer,
-- the signer, and the fork data that the use cases check signatures with. `Url::parse` is a parameter.
pub mod Builders
use mev_relay_rs.Prelude.{ℕ, Bytes, Option, none, some, Result}
use mev_relay_rs.Crypto.Blst.{Bls}
use mev_relay_rs.Crypto.Fork.{ForkDatas}
use mev_relay_rs.Crypto.Signer.{BlsSigner, new_signer}
use mev_relay_rs.Datastore.Cache.{Cache}
use mev_relay_rs.Datastore.MemoryStorage.{new_storage}
use mev_relay_rs.Datastore.MemoryAuctioneer.{new_auctioneer}
use mev_relay_rs.Datastore.MemoryAuctioneer.Laws.{Bid}
use mev_relay_rs.Gateway.Events.{BeaconError}
use mev_relay_rs.Relay.State.{RelayWorld, initial}
use mev_relay_rs.App.Config.{RelayConfig, initial_fork_datas}

-- The relay as it starts to serve: the state that its use cases share, what they are built with, and
-- the addresses and intervals of its servers and tasks.
pub record Started (b : Bls) (c : Cache (Bid b)) (Url : Type 0) : Type 0 where
  pub world : RelayWorld b c
  pub signer : BlsSigner b
  pub fork_datas : ForkDatas
  pub beacon_url : Url
  pub grpc_port : ℕ
  pub http_port : ℕ
  pub slots_per_epoch : ℕ
  pub polling_interval_secs : ℕ

-- `Duration::from_secs(60)`
abbrev pub bid_ttl_secs : ℕ
bid_ttl_secs = 60

-- `run_inner`, with what `get_fork_data` of the beacon handle gives; `none` is its panic on an address
-- that is no URL.
unfoldable pub run_inner :
    {b : Bls} (c : Cache (Bid b)) {Url : Type 0}
    → (Bytes → Option Url)
    → Result BeaconError ForkDatas
    → RelayConfig b
    → Option (Started b c Url)
unfolding initial_fork_datas new_signer
run_inner c parse_url fetched config = elim (parse_url config.beacon_url) [
  | none ↦ none
  | some beacon_url ↦
      let fork_datas = initial_fork_datas fetched config in
      some (record {
        world = initial c config.enabled_builders bid_ttl_secs;
        signer = new_signer config.bls_secret_key fork_datas config.chain;
        fork_datas = fork_datas;
        beacon_url = beacon_url;
        grpc_port = config.grpc_port;
        http_port = config.http_port;
        slots_per_epoch = config.slots_per_epoch;
        polling_interval_secs = config.polling_interval_secs;
      })
]
