-- ===== src/Crypto/Fork.antt =====
-- crates/crypto/src/fork.rs and fork_name.rs: chains, fork versions, signing domains.
pub mod Laws
use mev_relay_rs.Prelude.{
  ℕ, Bytes, Result, ok, err, Message, Piece, text, msg, Option, none, some, Bool, true, false, not,
  ◌≡◌, ◌≢◌, refl, ap, ◌↔◌, length, take, replicate, copy_at, trim_0x, arith, List, [], ◌∷◌, ◌++◌,
  ◌==◌, bytes_eq, bytes_eq_sound, map_err, ◌>>=◌, if◌then◌else◌,
}

pub data ForkName : Type 0 where
  bellatrix capella deneb electra : ForkName

pub data Chain : Type 0 where
  mainnet goerli holesky sepolia dev : Chain

-- `Chain::fork_version`
pub fork_version : Chain → Bytes
fork_version Chain.mainnet = 0x00 ∷ 0x00 ∷ 0x00 ∷ 0x00 ∷ []
fork_version Chain.goerli = 0x00 ∷ 0x00 ∷ 0x10 ∷ 0x20 ∷ []
fork_version Chain.holesky = 0x01 ∷ 0x01 ∷ 0x70 ∷ 0x00 ∷ []
fork_version Chain.sepolia = 0x90 ∷ 0x00 ∷ 0x00 ∷ 0x69 ∷ []
fork_version Chain.dev = 0x20 ∷ 0x00 ∷ 0x00 ∷ 0x89 ∷ []

-- `Chain::from_fork_version`
pub from_fork_version : Bytes → Option Chain
from_fork_version bytes =
    if bytes_eq bytes (0x00 ∷ 0x00 ∷ 0x00 ∷ 0x00 ∷ [])
    then some Chain.mainnet
    else if bytes_eq bytes (0x00 ∷ 0x00 ∷ 0x10 ∷ 0x20 ∷ [])
    then some Chain.goerli
    else if bytes_eq bytes (0x01 ∷ 0x01 ∷ 0x70 ∷ 0x00 ∷ [])
    then some Chain.holesky
    else if bytes_eq bytes (0x90 ∷ 0x00 ∷ 0x00 ∷ 0x69 ∷ [])
    then some Chain.sepolia
    else if bytes_eq bytes (0x20 ∷ 0x00 ∷ 0x00 ∷ 0x89 ∷ [])
    then some Chain.dev
    else none

-- `ForkVersion`, with `new` its constructor
pub record ForkVersion : Type 0 where
  pub bytes : Bytes

-- `ForkVersion::try_from_chain`
pub try_from_chain : Chain → Result Message ForkVersion
unfolding fork_version
try_from_chain chain = ok (record { bytes = fork_version chain })

-- `ForkVersion::from_str`, over the `hex::decode` of `alloy_primitives`
pub fork_version_from_str : (Bytes → Result Message Bytes) → Bytes → Result Message ForkVersion
fork_version_from_str hex_decode s =
    map_err (hex_decode (trim_0x s)) (λ e. text "Invalid fork version: " ∷ e) >>= λ bytes.
    if not (length bytes == 4)
    then err (msg "Invalid fork version length")
    else ok (record { bytes = bytes })

pub record ForkData : Type 0 where
  pub current_version : Bytes
  pub genesis_validators_root : Bytes

pub record SigningData : Type 0 where
  pub object_root : Bytes
  pub domain : Bytes

-- The Merkle roots that `tree_hash_derive` generates for the two structs above.
pub record ForkRoots : Type 0 where
  pub fork_data_root : ForkData → Bytes
  pub signing_data_root : SigningData → Bytes

abbrev pub Domain : Type 0
Domain = Bytes

-- `BuilderDomain::default`
pub builder_domain : Bytes
builder_domain = 0 ∷ 0 ∷ 0 ∷ 1 ∷ []

-- `ProposerDomain::default`
pub proposer_domain : Bytes
proposer_domain = 0 ∷ 0 ∷ 0 ∷ 0 ∷ []

module _ (h : ForkRoots) where
  -- `ForkData::compute_builder_domain`
  unfoldable pub fork_builder_domain : ForkData → Domain
  unfolding builder_domain
  fork_builder_domain fd =
      let fork_data_root = h.fork_data_root fd in
      copy_at 4 (take 28 fork_data_root) (copy_at 0 builder_domain (replicate 32 0))

  -- `ForkData::compute_proposer_domain`
  unfoldable pub fork_proposer_domain : ForkData → Domain
  unfolding proposer_domain
  fork_proposer_domain fd =
      let fork_data_root = h.fork_data_root fd in
      copy_at 4 (take 28 fork_data_root) (copy_at 0 proposer_domain (replicate 32 0))

pub record ForkDatas : Type 0 where
  pub builder : ForkData
  pub proposer : ForkData

-- `ForkDatas::default`, with the version 0x20000093 and the root 0x..01
abbrev pub fork_datas_default : ForkDatas
fork_datas_default = record {
  builder = record { current_version = replicate 4 0; genesis_validators_root = replicate 32 0 };
  proposer = record {
    current_version = 32 ∷ 0 ∷ 0 ∷ 147 ∷ [];
    genesis_validators_root = replicate 31 0 ++ 1 ∷ [];
  };
}

-- `ForkDatas::from_genesis_and_current_version`; `Hash256::default()` is the zero hash.
unfoldable pub from_genesis_and_current_version : Bytes → Bytes → Bytes → ForkDatas
from_genesis_and_current_version genesis_fork_version current_version genesis_validators_root =
    record {
      builder = record {
        current_version = genesis_fork_version;
        genesis_validators_root = replicate 32 0;
      };
      proposer = record {
        current_version = current_version;
        genesis_validators_root = genesis_validators_root;
      };
    }

module _ (h : ForkRoots) where
  -- `ForkDatas::compute_builder_domain`
  unfoldable pub compute_builder_domain : ForkDatas → Domain
  unfolding fork_builder_domain
  compute_builder_domain fds = fork_builder_domain h fds.builder

  -- `ForkDatas::compute_proposer_domain`
  unfoldable pub compute_proposer_domain : ForkDatas → Domain
  unfolding fork_proposer_domain
  compute_proposer_domain fds = fork_proposer_domain h fds.proposer

  -- `SignedRoot::signing_root`, for the message type whose derived root is `tree_hash_root`
  unfoldable pub signing_root : {T : Type 0} → (T → Bytes) → T → Domain → Bytes
  signing_root tree_hash_root message domain =
      h.signing_data_root (record { object_root = tree_hash_root message; domain = domain })
