-- ===== src/Examples/Calls.antt =====
-- An example of the streams of the services, called through the generated clients.
use mev_relay_rs.Prelude.{List, [], ◌∷◌, err, msg}
use mev_relay_rs.Datastore.MemoryStorage.{memory_storage}
use mev_relay_rs.Datastore.MemoryAuctioneer.{memory_auctioneer}
use mev_relay_rs.Api.Proto
use mev_relay_rs.Examples.Toy.{bls, fork_roots, roots, keccak, cache}
use mev_relay_rs.Examples.World.{fork_datas, signer, hash_a, Relay}
use mev_relay_rs.Api.Stream.{invalid_argument}
use mev_relay_rs.Api.Grpc
use mev_relay_rs.Api.Calls.{bidder, retriever}
use mev_relay_rs.Api.Retriever.Answers as RetrieverAnswers
use mev_relay_rs.Examples.Clients.{tonic, service_codecs}
use mev_relay_rs.Examples.Bids.{codecs}
use mev_relay_rs.Examples.Headers.{json}

abbrev no_blocks : Grpc.Handler Relay Proto.SubmitBlindedBlockRequest Proto.BlindedBlockResponse
no_blocks a w = (err (invalid_argument (msg "none")), w)

abbrev headers : List Proto.RetrieveResponse
headers = record { signed_header = hash_a; execution_payload = hash_a; blobs_bundle = [] } ∷ []

abbrev a_bidder : Grpc.BidderService tonic Relay
a_bidder =
    bidder fork_roots roots keccak codecs json (memory_storage bls) (memory_auctioneer bls cache)
      signer fork_datas tonic (service_codecs Relay) 3

abbrev a_retriever : Grpc.RetrieverService tonic Relay
a_retriever =
    retriever fork_roots roots keccak codecs json (memory_storage bls) (memory_auctioneer bls cache)
      signer fork_datas tonic (service_codecs Relay) 3 no_blocks
