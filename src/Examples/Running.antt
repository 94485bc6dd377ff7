-- ===== src/Examples/Running.antt =====
-- The relay as the examples run it. Each operation's line names all that a run computes with.
use mev_relay_rs.Prelude.{lookup, insert, ℕ, Bytes, Option, Result}
use mev_relay_rs.Crypto.Keys.{sig_verify, is_success, sk_sign}
use mev_relay_rs.Crypto.Signer.{sign}
use mev_relay_rs.Entity.Bid.{
  BlindedBlockResponse, SignedHeader, Versioned, build_header, verify_bid,
  to_blinded_block_response,
}
use mev_relay_rs.Entity.Validator.{verify_registration}
use mev_relay_rs.Entity.HeadSlot.{is_next_slot}
use mev_relay_rs.Datastore.MemoryStorage.{
  memory_storage, new_storage, contains, set_head_slot, read_head_slot, read_payload_attributes,
  set_validator_registration, read_validator_registration, is_whitelisted_builder,
  set_proposer_duties, find_duty_by_slot, set_blinded_block_response, read_blinded_block_response,
  set_delivered_blocks,
}
use mev_relay_rs.Datastore.MemoryAuctioneer.{
  memory_auctioneer, new_auctioneer, compare_and_bid, get_best_bid,
}
use mev_relay_rs.UseCase.Exec.{Exec}
use mev_relay_rs.UseCase.SubmitBid
use mev_relay_rs.UseCase.SubmitBid.{check_bid, place_bid}
use mev_relay_rs.UseCase.GetHeader
use mev_relay_rs.UseCase.RegisterValidator
use mev_relay_rs.UseCase.UnblindBlock
use mev_relay_rs.Api.Stream.{Status}
use mev_relay_rs.Examples.Toy.{bls, fork_roots, roots, keccak, cache}
use mev_relay_rs.Examples.World.{fork_datas, signer, bid, Relay, registration}

unfoldable pub run_registers : Exec Relay (Unit {0})
unfolding RegisterValidator.execute sig_verify is_success verify_registration contains
    set_validator_registration read_validator_registration set_proposer_duties set_head_slot
    new_storage new_auctioneer insert
run_registers =
    RegisterValidator.execute fork_roots roots (memory_storage bls) (memory_auctioneer bls cache)
      fork_datas registration

unfoldable pub run_submits : ℕ → Bytes → Exec Relay (Unit {0})
unfolding run_registers SubmitBid.execute check_bid place_bid is_next_slot verify_bid read_head_slot
    read_payload_attributes is_whitelisted_builder find_duty_by_slot set_blinded_block_response
    compare_and_bid to_blinded_block_response
run_submits value hash =
    SubmitBid.execute fork_roots roots (memory_storage bls) (memory_auctioneer bls cache) fork_datas
      (bid value hash)

unfoldable pub run_asks : Bytes → Exec Relay (Versioned (SignedHeader bls))
unfolding run_submits GetHeader.execute get_best_bid sign sk_sign lookup build_header
run_asks parent =
    GetHeader.execute fork_roots roots (memory_storage bls) (memory_auctioneer bls cache) signer 10
      parent 5

unfoldable pub run_unblinds : Bytes → Exec Relay BlindedBlockResponse
unfolding run_submits UnblindBlock.execute read_blinded_block_response set_delivered_blocks lookup
run_unblinds hash =
    UnblindBlock.execute fork_roots keccak (memory_storage bls) (memory_auctioneer bls cache)
      fork_datas 10 42 hash 5

-- A handler of a request, which may panic.
abbrev pub Reply : Type 0 → Type 0 → Type 0
Reply A B = A → Relay → Option (Result Status B × Relay)
