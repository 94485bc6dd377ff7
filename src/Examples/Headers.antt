-- ===== src/Examples/Headers.antt =====
-- Examples of the results on the requests of a proposer.
use mev_relay_rs.Prelude.{ℕ, ◌≡◌, ◌≢◌, ◌↔◌, refl, [], ◌∷◌, replicate, length, none, some, ok}
use mev_relay_rs.Crypto.Keys.{pk_deserialize, sig_deserialize}
use mev_relay_rs.Entity.Types.{b256_default}
use mev_relay_rs.Entity.Bid.{BlindedBlockResponse}
use mev_relay_rs.Datastore.MemoryStorage.{memory_storage, set_delivered_blocks}
use mev_relay_rs.Datastore.MemoryAuctioneer.{memory_auctioneer}
use mev_relay_rs.Datastore.MemoryAuctioneer.Laws.{Bid}
use mev_relay_rs.UseCase.GetHeader
use mev_relay_rs.UseCase.GetHeader.Laws.{IsEntitled, answer}
use mev_relay_rs.UseCase.UnblindBlock.Laws.{IsReleasable}
use mev_relay_rs.Api.Proto
use mev_relay_rs.Api.Conversion.{bytes_to_b256}
use mev_relay_rs.Api.Retriever.{Json, or_default, blobs_json, answer_retrieve, submit_blinded_block}
use mev_relay_rs.Api.Retriever.Laws.{answer_retrieve-ok, submit_blinded_block-ok, retriever_panics}
use mev_relay_rs.Examples.Toy.{bls, fork_roots, roots, keccak, cache, cache_laws}
use mev_relay_rs.Examples.World.{fork_datas, signer, hash_b, Relay, with_b}
use mev_relay_rs.Examples.Running.{Reply, run_asks, run_unblinds}

abbrev pub json : Json bls
json = record {
  header_to_vec = λ v. ok (v.contents.message.block_hash);
  payload_to_vec = λ p. ok p.block_hash;
  blobs_to_vec = λ x. ok [];
}

abbrev pub retrieve_request : Proto.RetrieveRequest
retrieve_request = record {
  slot = 10;
  parent_hash = b256_default;
  proposer_pubkey = 5 ∷ replicate 47 0;
}

abbrev retrieved : Proto.RetrieveResponse
retrieved = record { signed_header = hash_b; execution_payload = hash_b; blobs_bundle = [] }

-- Answers to requests of a proposer.
unfoldable pub run_retrieves : Reply Proto.RetrieveRequest Proto.RetrieveResponse
unfolding run_asks answer_retrieve pk_deserialize bytes_to_b256
run_retrieves =
    answer_retrieve fork_roots roots keccak json (memory_storage bls) (memory_auctioneer bls cache)
      signer fork_datas

unfoldable pub run_blocks : Reply Proto.SubmitBlindedBlockRequest Proto.BlindedBlockResponse
unfolding run_unblinds submit_blinded_block sig_deserialize bytes_to_b256
run_blocks =
    submit_blinded_block fork_roots roots keccak json (memory_storage bls)
      (memory_auctioneer bls cache) signer fork_datas

answer_retrieve-ok_example :
    (key : ℕ) × (pk_deserialize bls (5 ∷ replicate 47 0) ≡ ok key)
    × IsEntitled fork_roots roots
        (memory_storage bls)
        (memory_auctioneer bls cache)
        signer
        10
        b256_default
        key
        with_b
    × ((best : Bid bls) × ((cache {V = Bid bls}).peek with_b.auctioneer 10 ≡ some best)
        × (best.value.message.parent_hash ≡ b256_default)
        × (retrieved ≡ record {
          signed_header = or_default (
              json.header_to_vec (
                answer fork_roots roots
                  (memory_storage bls)
                  (memory_auctioneer bls cache)
                  signer
                  10
                  b256_default
                  key
                  best.value));
          execution_payload = or_default (json.payload_to_vec best.value.execution_payload);
          blobs_bundle = or_default (json.blobs_to_vec best.value.blobs_bundle);
        }))
unfolding run_retrieves
answer_retrieve-ok_example =
    answer_retrieve-ok fork_roots roots keccak json (memory_storage bls) cache signer fork_datas
      cache_laws retrieve_request with_b
      (GetHeader.execute fork_roots roots (memory_storage bls) (memory_auctioneer bls cache) signer
        10 b256_default 5 with_b).1
      retrieved refl

abbrev blinded_request : Proto.SubmitBlindedBlockRequest
blinded_request = record {
  slot = 10;
  proposer_index = 42;
  block_hash = hash_b;
  signature = 5 ∷ replicate 95 0;
}

abbrev released : Relay
released = record with_b { storage = set_delivered_blocks bls hash_b with_b.storage }

submit_blinded_block-ok_example :
    (length hash_b ≡ 32)
    × (hash_b ≡ hash_b)
    × ((g : ℕ) × (sig_deserialize bls (5 ∷ replicate 95 0) ≡ ok g)
        × ((resp : BlindedBlockResponse) × IsReleasable fork_roots keccak
              (memory_storage bls)
              (memory_auctioneer bls cache)
              fork_datas
              10
              42
              hash_b
              g
              with_b
              resp
            × (json.payload_to_vec resp.execution_payload ≡ ok hash_b)
            × ([] ≡ blobs_json json resp.blobs_bundle)))
    × (released ≡ released)
unfolding run_blocks
submit_blinded_block-ok_example =
    submit_blinded_block-ok fork_roots roots keccak json (memory_storage bls)
      (memory_auctioneer bls cache) signer fork_datas blinded_request with_b released
      (record { execution_payload = hash_b; blobs_bundle = []; block_hash = hash_b }) refl

retriever_panics_example :
    ((answer_retrieve fork_roots roots keccak json
          (memory_storage bls)
          (memory_auctioneer bls cache)
          signer
          fork_datas
          (record retrieve_request { parent_hash = [] })
          with_b
        ≡ none)
      ↔ (length {A = ℕ} [] ≢ 32))
    × ((submit_blinded_block fork_roots roots keccak json
            (memory_storage bls)
            (memory_auctioneer bls cache)
            signer
            fork_datas
            blinded_request
            with_b
          ≡ none)
        ↔ (length hash_b ≢ 32))
retriever_panics_example =
    retriever_panics fork_roots roots keccak json (memory_storage bls) (memory_auctioneer bls cache)
      signer fork_datas (record retrieve_request { parent_hash = [] }) blinded_request with_b
