-- ===== src/UseCase/Error.antt =====
-- crates/usecase/src/error.rs, and the texts of crates/datastore/src/auctioneer/error.rs.
use mev_relay_rs.Prelude.{ℕ, Message, text, num, msg, [], ◌∷◌}
use mev_relay_rs.Datastore.Auctioneer.{AuctioneerError, bid_not_found, bid_value_not_high_enough}

pub data UseCaseError : Type 0 where
  auctioneer_error : AuctioneerError → UseCaseError
  zero_bid : UseCaseError
  unauthorized_builder : UseCaseError
  unauthorized_get_header : UseCaseError
  invalid_slot : UseCaseError
  no_bid_found : UseCaseError
  duty_not_found : UseCaseError
  invalid_builder_signature : UseCaseError
  invalid_validator_signature : UseCaseError
  invalid_payload_attributes : Message → UseCaseError
  proposer_index_mismatch : ℕ → ℕ → UseCaseError
  no_blinded_block_response : UseCaseError
  unauthorized_submission : UseCaseError
  block_hash_mismatch : UseCaseError

-- `AuctioneerError::to_string`
unfoldable pub auctioneer_message : AuctioneerError → Message
auctioneer_message (bid_not_found slot) = text "bid not found for slot " ∷ num slot ∷ []
auctioneer_message (bid_value_not_high_enough provided current) =
    text "bid value not high enough: provided "
    ∷ num provided
    ∷ text ", current "
    ∷ num current
    ∷ []

-- `UseCaseError::to_string`
unfoldable pub error_message : UseCaseError → Message
unfolding auctioneer_message
error_message (auctioneer_error e) = text "Auctioneer error: " ∷ auctioneer_message e
error_message zero_bid = msg "bid value is zero"
error_message unauthorized_builder = msg "builder is not whitelisted"
error_message unauthorized_get_header = msg "unauthorized validator"
error_message invalid_slot = msg "bid slot is in the past"
error_message no_bid_found = msg "no bid found for slot"
error_message duty_not_found = msg "no proposer duty found for slot"
error_message invalid_builder_signature = msg "invalid builder signature"
error_message invalid_validator_signature = msg "invalid validator signature"
error_message (invalid_payload_attributes m) = text "invalid payload attributes: " ∷ m
error_message (proposer_index_mismatch expected actual) =
    text "proposer index mismatch: expected " ∷ num expected ∷ text ", got " ∷ num actual ∷ []
error_message no_blinded_block_response = msg "no blinded block response found"
error_message unauthorized_submission = msg "validator not registered"
error_message block_hash_mismatch = msg "block hash mismatch"
