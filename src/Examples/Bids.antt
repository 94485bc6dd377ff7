-- ===== src/Examples/Bids.antt =====
-- Examples of the results on the conversions, the bids and the registrations of validators.
use mev_relay_rs.Prelude.{
  ℕ, ◌≡◌, ◌↔◌, refl, Bytes, List, [], ◌∷◌, replicate, length, Option, none, some, ok, err, Message,
  text, msg, true, ltb, ◌==◌, if◌then◌else◌, arith,
}
use mev_relay_rs.Crypto.Keys.{pk_deserialize, sig_deserialize}
use mev_relay_rs.Crypto.Fork.{compute_builder_domain}
use mev_relay_rs.Entity.Types.{b256_default, address_default}
use mev_relay_rs.Entity.Bid.{BidSubmission}
use mev_relay_rs.Entity.Validator.{SignedValidatorRegistration, verify_registration}
use mev_relay_rs.Datastore.MemoryStorage.{memory_storage, set_validator_registration}
use mev_relay_rs.Datastore.MemoryAuctioneer.{memory_auctioneer}
use mev_relay_rs.UseCase.Error.{error_message}
use mev_relay_rs.UseCase.SubmitBid
use mev_relay_rs.UseCase.SubmitBid.{check_bid}
use mev_relay_rs.Api.Proto
use mev_relay_rs.Api.Conversion.{
  Codecs, CodecLaws, bytes_to_b256, bytes_to_address, bytes_to_bytes48, bytes_to_blob,
  try_from_blobs, try_from_payload, try_from_trace, try_from_bid, try_from_registration,
  conversion_message,
}
use mev_relay_rs.Api.Conversion.Laws.{BidOf}
use mev_relay_rs.Api.Conversion.Exact.{try_from_bid_iff}
use mev_relay_rs.Api.Bidder.{bid_response, answer_bid, Answers, answer_bid_iff}
use mev_relay_rs.Api.Validator.{register_validator, register_validator_iff}
use mev_relay_rs.Examples.Toy.{bls, fork_roots, roots, cache}
use mev_relay_rs.Examples.World.{fork_datas, bid, hash_a, Relay, dutied, registered}
use mev_relay_rs.Examples.Running.{Reply, run_registers, run_submits}

abbrev pub codecs : Codecs
codecs = record {
  fixed_vector_new = λ n xs. if length xs == n then ok xs else err (msg "length");
  variable_list_new = λ n xs. if ltb n (length xs) then err (msg "length") else ok xs;
  u256_from_str = λ s. ok (length s);
  from_be_slice = λ s. if ltb 32 (length s) then none else some 0;
}

pub codec_laws : CodecLaws codecs
codec_laws = record {
  fixed_vector_iff = λ n xs ys. (λ e. (ground arith, ground arith), λ e. ground arith);
  variable_list_iff = λ n xs ys. (λ e. (ground arith, ground arith), λ e. ground arith);
  from_be_slice_iff = λ bytes. (λ (v, e). ground arith, λ e. (0, ground arith));
}

abbrev proto_payload : Bytes → Proto.ExecutionPayload
proto_payload hash = record {
  parent_hash = b256_default;
  state_root = b256_default;
  receipts_root = b256_default;
  logs_bloom = replicate 256 0;
  prev_randao = b256_default;
  extra_data = [];
  base_fee_per_gas = [];
  fee_recipient = address_default;
  block_hash = hash;
  transactions = [];
  withdrawals = [];
  block_number = 1;
  gas_limit = 30000000;
  timestamp = 100;
  gas_used = 15000000;
  blob_gas_used = 0;
  excess_blob_gas = 0;
}

-- The value is the length of its text.
abbrev pub request : Bytes → Bytes → Proto.BidRequest
request value hash = record {
  bid_trace = some (record {
    slot = 10;
    parent_hash = b256_default;
    block_hash = hash;
    builder_pubkey = 7 ∷ replicate 47 0;
    proposer_pubkey = 5 ∷ replicate 47 0;
    proposer_fee_recipient = address_default;
    gas_limit = 30000000;
    gas_used = 15000000;
    value = value;
  });
  execution_payload = some (proto_payload hash);
  signature = 7 ∷ replicate 95 0;
  blobs_bundle = none;
}

abbrev pub converted : ℕ → Bytes → BidSubmission bls
converted value hash = record (bid value hash) {
  execution_payload = record (bid value hash).execution_payload { logs_bloom = replicate 256 0 };
}

-- An answer to a bid request; its line names all that the conversions and the use case compute with.
unfoldable pub run_bids : Proto.BidRequest → Relay → Option (Proto.BidResponse × Relay)
unfolding run_submits answer_bid bid_response try_from_bid try_from_trace try_from_payload
    try_from_blobs bytes_to_b256 bytes_to_address bytes_to_bytes48 bytes_to_blob pk_deserialize
    sig_deserialize conversion_message error_message
run_bids =
    answer_bid fork_roots roots codecs (memory_storage bls) (memory_auctioneer bls cache) fork_datas

try_from_bid_iff_example :
    BidOf codecs codec_laws bls (request (49 ∷ []) hash_a) (converted 1 hash_a)
unfolding run_bids
try_from_bid_iff_example =
    (try_from_bid_iff codecs codec_laws bls (request (49 ∷ []) hash_a) (converted 1 hash_a)).0 refl

abbrev pub after_a : Relay
after_a =
    (SubmitBid.execute fork_roots roots (memory_storage bls) (memory_auctioneer bls cache)
      fork_datas (converted 1 hash_a) registered).1

-- A bid of value 1 is taken, one without a trace is refused, and one of value 0 too.
abbrev pub requests : List Proto.BidRequest
requests =
    request (49 ∷ []) hash_a
    ∷ record (request [] hash_a) { bid_trace = none }
    ∷ request [] hash_a
    ∷ []

abbrev pub response : ℕ → Message → Proto.BidResponse
response code message = record { code = code; message = message }

pub answered :
    Answers fork_roots roots codecs
      (memory_storage bls)
      (memory_auctioneer bls cache)
      fork_datas
      requests
      registered
      (response 0 (msg "ok")
        ∷ response 1
            (text "conversion error: " ∷ text "missing required field: " ∷ text "bid_trace" ∷ [])
        ∷ response 1 (msg "bid value is zero")
        ∷ [])
      after_a
unfolding run_bids
answered = Answers.one refl (Answers.one refl (Answers.one refl Answers.nothing))

answer_bid_iff_example :
    let code : ℕ = 0 in
    (code ≡ 0) ↔ (
      (x : BidSubmission bls) × (try_from_bid bls codecs (request (49 ∷ []) hash_a) ≡ ok x)
      × (SubmitBid.execute fork_roots roots
            (memory_storage bls)
            (memory_auctioneer bls cache)
            fork_datas
            x
            registered
          ≡ (ok tt, after_a)))
unfolding run_bids
answer_bid_iff_example =
    answer_bid_iff fork_roots roots codecs (memory_storage bls) (memory_auctioneer bls cache)
      fork_datas (request (49 ∷ []) hash_a) (response 0 (msg "ok")) registered after_a refl

abbrev pub proto_registration : Proto.SignedValidatorRegistration
proto_registration = record {
  message = some (record {
    fee_recipient = address_default;
    gas_limit = 30000000;
    timestamp = 1;
    pubkey = 5 ∷ replicate 47 0;
  });
  signature = 5 ∷ replicate 95 0;
}

unfoldable pub run_registrations :
    Reply Proto.RegisterValidatorRequest Proto.RegisterValidatorResponse
unfolding run_registers register_validator try_from_registration bytes_to_address pk_deserialize
    sig_deserialize
run_registrations =
    register_validator fork_roots roots codecs (memory_storage bls) (memory_auctioneer bls cache)
      fork_datas

register_validator_iff_example :
    (m : Proto.SignedValidatorRegistration) × (some proto_registration ≡ some m)
    × ((s : SignedValidatorRegistration bls) × (try_from_registration bls codecs m ≡ ok s)
        × (verify_registration bls fork_roots roots.registration_root s
              (compute_builder_domain fork_roots fork_datas)
            ≡ true)
        × (registered ≡ record dutied {
          storage = set_validator_registration bls s.message.pubkey s.message dutied.storage;
        }))
unfolding run_registrations
register_validator_iff_example =
    (register_validator_iff fork_roots roots codecs (memory_storage bls)
        (memory_auctioneer bls cache) fork_datas (record { registration = some proto_registration })
        dutied registered).0
      (response_ok, refl)
  where
    response_ok : Proto.RegisterValidatorResponse
    response_ok = record { code = 0; message = msg "ok" }
