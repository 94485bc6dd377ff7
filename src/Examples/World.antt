-- ===== src/Examples/World.antt =====
-- A small relay: two builders, one proposer, and the states that it goes through.
use mev_relay_rs.Prelude.{ℕ, Bytes, [], ◌∷◌, replicate}
use mev_relay_rs.Crypto.Fork.{ForkName, ForkDatas}
use mev_relay_rs.Crypto.Signer.{BlsSigner}
use mev_relay_rs.Entity.Types.{b256_default, address_default}
use mev_relay_rs.Entity.Payload.{ExecutionPayload}
use mev_relay_rs.Entity.Bid.{BidSubmission, SignedHeader, Versioned, build_header}
use mev_relay_rs.Entity.Validator.{ProposerDuty, SignedValidatorRegistration}
use mev_relay_rs.Datastore.MemoryStorage.{set_head_slot, set_proposer_duties}
use mev_relay_rs.Datastore.MemoryAuctioneer.Laws.{Bid}
use mev_relay_rs.Relay.State.{RelayWorld, initial, submit, register}
use mev_relay_rs.Examples.Toy.{bls, fork_roots, roots, keccak, cache}

abbrev pub fork_datas : ForkDatas
fork_datas = record {
  builder = record { current_version = replicate 4 0; genesis_validators_root = replicate 32 0 };
  proposer = record { current_version = replicate 4 1; genesis_validators_root = replicate 32 9 };
}

abbrev pub signer : BlsSigner bls
signer = record { secret_key = 8; fork_data = fork_datas; fork_name = ForkName.deneb }

abbrev pub payload : Bytes → ExecutionPayload
payload hash = record {
  parent_hash = b256_default;
  fee_recipient = address_default;
  state_root = b256_default;
  receipts_root = b256_default;
  logs_bloom = [];
  prev_randao = b256_default;
  block_number = 1;
  gas_limit = 30000000;
  gas_used = 15000000;
  timestamp = 100;
  extra_data = [];
  base_fee_per_gas = 0;
  block_hash = hash;
  transactions = [];
  withdrawals = [];
  blob_gas_used = 0;
  excess_blob_gas = 0;
}

abbrev pub hash_a : Bytes
hash_a = 10 ∷ replicate 31 0

abbrev pub hash_b : Bytes
hash_b = 11 ∷ replicate 31 0

-- A bid of builder 7 for slot 10 and proposer 5, signed by the builder.
abbrev pub bid : ℕ → Bytes → BidSubmission bls
bid value hash = record {
  message = record {
    slot = 10;
    parent_hash = b256_default;
    block_hash = hash;
    builder_pubkey = 7;
    proposer_pubkey = 5;
    proposer_fee_recipient = address_default;
    gas_limit = 30000000;
    gas_used = 15000000;
    value = value;
  };
  execution_payload = payload hash;
  blobs_bundle = record { commitments = []; proofs = []; blobs = [] };
  signature = 7;
}

abbrev pub duty : ProposerDuty bls
duty = record { pubkey = 5; validator_index = 42; slot = 10 }

abbrev pub registration : SignedValidatorRegistration bls
registration = record {
  message = record {
    fee_recipient = address_default;
    gas_limit = 30000000;
    timestamp = 1;
    pubkey = 5;
  };
  signature = 5;
}

abbrev pub Relay : Type 0
Relay = RelayWorld bls (cache {V = Bid bls})

abbrev pub started : Relay
started = initial cache (7 ∷ []) 60

abbrev pub headed : Relay
headed = record started { storage = set_head_slot bls (record { slot = 9 }) started.storage }

abbrev pub dutied : Relay
dutied = record headed { storage = set_proposer_duties bls (duty ∷ []) headed.storage }

abbrev pub registered : Relay
registered = register fork_roots roots keccak cache signer fork_datas registration dutied

abbrev pub with_a : Relay
with_a = submit fork_roots roots keccak cache signer fork_datas (bid 3 hash_a) registered

abbrev pub with_b : Relay
with_b = submit fork_roots roots keccak cache signer fork_datas (bid 5 hash_b) with_a

-- The header of a bid, as the relay signs it.
abbrev pub header_of : BidSubmission bls → Versioned (SignedHeader bls)
header_of x = record {
  version = ForkName.deneb;
  contents = record { message = build_header roots x; signature = 8 };
}
