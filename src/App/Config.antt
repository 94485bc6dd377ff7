-- ===== src/App/Config.antt =====
-- crates/app/src/{cli,lib}.rs: the command line, the configuration read from it, and the fork data
-- that the relay starts with. `hex::decode` is a parameter, and so is how a text is shown.
pub mod Exact
use mev_relay_rs.Prelude.{
  ℕ, ◌≡◌, refl, String, not, ◌||◌, ◌>>◌, List, ◌∷◌, Bytes, codes, trim_0x, length, replicate,
  Message, text, msg, Result, ok, err, map_err, collect, ◌>>=◌, >>=-eq-ok, ok-injective,
  length-collect, ◌==◌, bytes_eq, if◌then◌else◌, arith,
}
use mev_relay_rs.Crypto.Blst.{Bls}
use mev_relay_rs.Crypto.Keys.{BlsPublicKey, BlsSecretKey, sk_deserialize, pk_deserialize}
use mev_relay_rs.Crypto.Fork.{ForkName, ForkDatas, from_genesis_and_current_version}
use mev_relay_rs.Gateway.Events.{BeaconError}

pub record CliArgs : Type 0 where
  pub grpc_port : ℕ
  pub http_port : ℕ
  pub beacon_url : Bytes
  pub bls_secret_key : Bytes
  pub chain : Bytes
  pub slots_per_epoch : ℕ
  pub enabled_builders : List Bytes
  pub genesis_fork_version : Bytes
  pub current_fork_version : Bytes
  pub genesis_validators_root : Bytes

pub record RelayConfig (b : Bls) : Type 0 where
  pub grpc_port : ℕ
  pub http_port : ℕ
  pub beacon_url : Bytes
  pub bls_secret_key : BlsSecretKey b
  pub chain : ForkName
  pub slots_per_epoch : ℕ
  pub enabled_builders : List (BlsPublicKey b)
  pub fork_datas : ForkDatas
  pub polling_interval_secs : ℕ

-- `run_inner`: the fork data of the beacon node, or else those of the configuration
unfoldable pub initial_fork_datas :
    {b : Bls} → Result BeaconError ForkDatas → RelayConfig b → ForkDatas
initial_fork_datas (ok fds) config = fds
initial_fork_datas (err e) config = config.fork_datas

module _ (b : Bls) (decode : Bytes → Result Message Bytes) (show : Bytes → Message) where
  abbrev pub decode_hex : Bytes → String → Result Message Bytes
  decode_hex s what = map_err (decode (trim_0x s)) (λ e. text what ∷ e)

  -- the `match` on the name of the chain
  unfoldable pub chain_fork : Bytes → Result Message ForkName
  chain_fork name =
      if bytes_eq name (codes "mainnet")
        || (bytes_eq name (codes "sepolia") || bytes_eq name (codes "holesky"))
      then ok ForkName.deneb
      else err (text "unknown chain: " ∷ show name)

  -- the closure that reads one builder
  unfoldable pub read_builder : Bytes → Result Message (BlsPublicKey b)
  read_builder hex_str = do
    bytes ← decode_hex hex_str "invalid builder pubkey: "
    map_err (pk_deserialize b bytes) (λ e. text "invalid builder pubkey: " ∷ e)

  -- `RelayConfig::try_from`
  unfoldable pub try_from_args : CliArgs → Result Message (RelayConfig b)
  unfolding chain_fork read_builder
  try_from_args args = do
    sk_bytes ← decode_hex args.bls_secret_key "invalid bls secret key hex: "
    bls_secret_key ← map_err (sk_deserialize b sk_bytes) (λ e. text "invalid bls key: " ∷ e)
    chain ← chain_fork args.chain
    gv_bytes ← decode_hex args.genesis_validators_root "invalid genesis validators root: "
    if not (length gv_bytes == 32)
        then err (msg "genesis validators root must be 32 bytes")
        else ok tt
    genesis ← decode_hex args.genesis_fork_version "invalid genesis fork version: "
    current ← decode_hex args.current_fork_version "invalid current fork version: "
    if not (length genesis == 4) || not (length current == 4)
        then err (msg "fork versions must be 4 bytes")
        else ok tt
    enabled_builders ← collect read_builder args.enabled_builders
    ok (record {
      grpc_port = args.grpc_port;
      http_port = args.http_port;
      beacon_url = args.beacon_url;
      bls_secret_key = bls_secret_key;
      chain = chain;
      slots_per_epoch = args.slots_per_epoch;
      enabled_builders = enabled_builders;
      fork_datas = from_genesis_and_current_version genesis current gv_bytes;
      polling_interval_secs = 6;
    })
