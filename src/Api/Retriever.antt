-- ===== src/Api/Retriever.antt =====
-- crates/api/src/retriever_service.rs: headers for proposers, and payloads for signed blinded blocks.

pub mod Laws
pub mod Answers
use mev_relay_rs.Prelude.{
  ℕ, suc, zero, Bool, true, false, List, [], ◌∷◌, ◌++◌, length, Bytes, Message, msg, text, ◌==◌,
  if◌then◌else◌, Option, none, some, Result, ok, err,
}
use mev_relay_rs.Crypto.Blst.{Bls}
use mev_relay_rs.Crypto.Keys.{pk_deserialize, sig_deserialize}
use mev_relay_rs.Crypto.Fork.{ForkDatas, ForkRoots}
use mev_relay_rs.Crypto.Signer.{BlsSigner}
use mev_relay_rs.Entity.Types.{B256}
use mev_relay_rs.Entity.Payload.{ExecutionPayload, BlobsBundle}
use mev_relay_rs.Entity.Bid.{
  Arc, BidSubmission, BlindedBlockResponse, EntityRoots, SignedHeader, Versioned,
}
use mev_relay_rs.Datastore.Storage.{Storage}
use mev_relay_rs.Datastore.Auctioneer.{Auctioneer, AuctioneerError}
use mev_relay_rs.UseCase.Error.{UseCaseError, error_message}
use mev_relay_rs.UseCase.Exec.{World}
use mev_relay_rs.UseCase.GetHeader
use mev_relay_rs.UseCase.UnblindBlock
use mev_relay_rs.Api.Proto
use mev_relay_rs.Api.Stream.{Status, invalid_argument, internal, Sender, send, Run}

-- `serde_json::to_vec` at the types that the service serialises.
pub record Json (b : Bls) : Type 0 where
  pub header_to_vec : Versioned (SignedHeader b) → Result Message Bytes
  pub payload_to_vec : ExecutionPayload → Result Message Bytes
  pub blobs_to_vec : BlobsBundle → Result Message Bytes

-- `unwrap_or_default`
abbrev pub or_default : Result Message Bytes → Bytes
or_default (ok v) = v
or_default (err e) = []

-- `alloy_primitives::B256::from_slice`, which panics on any length but 32.
abbrev pub b256_from_slice : Bytes → Option B256
b256_from_slice bytes = if length bytes == 32 then some bytes else none

-- `result.ok().map(f).unwrap_or_default()`
abbrev pub best_json :
    {b : Bls}
    → (BidSubmission b → Result Message Bytes)
    → Result AuctioneerError (Arc (BidSubmission b))
    → Bytes
best_json f (ok bid) = or_default (f bid.value)
best_json f (err e) = []

abbrev pub blobs_json : {b : Bls} → Json b → Option BlobsBundle → Bytes
blobs_json json none = []
blobs_json json (some blobs) = or_default (json.blobs_to_vec blobs)

module _ {b : Bls} (h : ForkRoots) (roots : EntityRoots b) (keccak256 : Bytes → Bytes)
    (json : Json b) (S : Storage b) (A : Auctioneer b) (signer : BlsSigner b)
    (fork_datas : ForkDatas) where
  -- The body of the loop of `handle_request`, up to the send, where `between` is what other requests
  -- do while it awaits the auctioneer for the second time; `none` is a panic.
  unfoldable pub answer_retrieve_while :
      (World S A → World S A)
      → Proto.RetrieveRequest
      → World S A
      → Option (Result Status Proto.RetrieveResponse × World S A)
  answer_retrieve_while between m w = elim (b256_from_slice m.parent_hash) [
    | none ↦ none
    | some parent_hash ↦ elim (pk_deserialize b m.proposer_pubkey) [
      | err e ↦ some (err (invalid_argument e), w)
      | ok proposer_pubkey ↦
          let (result, w') =
            GetHeader.execute h roots S A signer m.slot parent_hash proposer_pubkey w in
          elim result [
            | err e ↦ some (err (internal (error_message e)), w')
            | ok versioned ↦
                let later = between w' in
                let (bid, a) = A.get_best_bid m.slot later.auctioneer in
                some (
                  ok (record {
                    signed_header = or_default (json.header_to_vec versioned);
                    execution_payload =
                        best_json (λ x. json.payload_to_vec x.execution_payload) bid;
                    blobs_bundle = best_json (λ x. json.blobs_to_vec x.blobs_bundle) bid;
                  }),
                  record later { auctioneer = a },
                )
          ]
    ]
  ]

  -- The same, when nothing else runs meanwhile.
  unfoldable pub answer_retrieve :
      Proto.RetrieveRequest → World S A → Option (Result Status Proto.RetrieveResponse × World S A)
  unfolding answer_retrieve_while
  answer_retrieve = answer_retrieve_while (λ w. w)

  -- `RetrieverServiceImpl::handle_request`: only a response that cannot be sent ends the loop, and not
  -- an error.
  unfoldable pub handle_request :
      List (Result Status Proto.RetrieveRequest)
      → World S A
      → Sender (Result Status Proto.RetrieveResponse)
      → Run (World S A) (Result Status Proto.RetrieveResponse)
  unfolding answer_retrieve
  handle_request [] w tx = record { panicked = false; world = w; sender = tx }
  handle_request (err status ∷ stream) w tx = record {
    panicked = false;
    world = w;
    sender = (send (err status) tx).1;
  }
  handle_request (ok m ∷ stream) w tx = elim (answer_retrieve m w) [
    | none ↦ record { panicked = true; world = w; sender = tx }
    | some (answer, w') ↦
        let (sent, tx') = send answer tx in
        elim answer [
          | err status ↦ handle_request stream w' tx'
          | ok response ↦ elim sent [
            | true ↦ handle_request stream w' tx'
            | false ↦ record { panicked = false; world = w'; sender = tx' }
          ]
        ]
  ]

  -- `RetrieverServiceImpl::retrieve`, as `bid` of the bidder
  unfoldable pub retrieve :
      ℕ
      → List (Result Status Proto.RetrieveRequest)
      → World S A
      → Result Status (List (Result Status Proto.RetrieveResponse)) × World S A
  unfolding handle_request
  retrieve left stream w =
      let run = handle_request stream w (record { sent = []; left = left }) in
      (ok run.sender.sent, run.world)

  -- `RetrieverServiceImpl::submit_blinded_block`; `none` is a panic.
  unfoldable pub submit_blinded_block :
      Proto.SubmitBlindedBlockRequest
      → World S A
      → Option (Result Status Proto.BlindedBlockResponse × World S A)
  submit_blinded_block req w = elim (b256_from_slice req.block_hash) [
    | none ↦ none
    | some block_hash ↦ elim (sig_deserialize b req.signature) [
      | err e ↦ some (err (invalid_argument (text "invalid signature: " ∷ e)), w)
      | ok signature ↦
          let (result, w') =
            UnblindBlock.execute h keccak256 S A fork_datas req.slot req.proposer_index block_hash
              signature w in
          elim result [
            | err e ↦ some (err (internal (error_message e)), w')
            | ok resp ↦ elim (json.payload_to_vec resp.execution_payload) [
              | err e ↦ some (err (internal (text "serialization error: " ∷ e)), w')
              | ok payload ↦ some (
                ok (record {
                  execution_payload = payload;
                  blobs_bundle = blobs_json json resp.blobs_bundle;
                  block_hash = resp.execution_payload.block_hash;
                }),
                w',
              )
            ]
          ]
    ]
  ]
