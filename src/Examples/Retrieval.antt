-- ===== src/Examples/Retrieval.antt =====
-- Examples of the results on header requests, and on the events of the beacon node.
use mev_relay_rs.Prelude.{◌≡◌, refl, codes, [], ◌∷◌, some, ok, err, msg, false, arith}
use mev_relay_rs.Entity.Types.{b256_default}
use mev_relay_rs.Entity.BeaconEvent.{HeadEvent, head}
use mev_relay_rs.Datastore.MemoryStorage.{memory_storage}
use mev_relay_rs.Datastore.MemoryAuctioneer.{memory_auctioneer}
use mev_relay_rs.Datastore.MemoryAuctioneer.Laws.{Bid}
use mev_relay_rs.UseCase.GetHeader.Laws.{answer}
use mev_relay_rs.Api.Proto
use mev_relay_rs.Api.Retriever.{answer_retrieve_while, handle_request}
use mev_relay_rs.Api.Retriever.Answers.{Answers, handle_retrievals-Answers}
use mev_relay_rs.Api.Stream.{invalid_argument}
use mev_relay_rs.Relay.State.{submit}
use mev_relay_rs.Relay.Retrieval.{retrieve-submit_bid}
use mev_relay_rs.Gateway.Events.{EventCodec, parse_event}
use mev_relay_rs.Gateway.Events.Text.{without_cr}
use mev_relay_rs.Gateway.Events.Parsing.{event_text, parse_event-event_text}
use mev_relay_rs.Examples.Toy.{bls, fork_roots, roots, keccak, cache, cache_laws}
use mev_relay_rs.Examples.World.{
  fork_datas, signer, bid, hash_a, hash_b, Relay, with_a, with_b, header_of,
}
use mev_relay_rs.Examples.Headers.{json, retrieve_request, run_retrieves}

retrieve-submit_bid_example :
    ((best : Bid bls) × ((cache {V = Bid bls}).peek with_a.auctioneer 10 ≡ some best)
      × (header_of (bid 3 hash_a)
          ≡ answer fork_roots roots
              (memory_storage bls)
              (memory_auctioneer bls cache)
              signer
              10
              b256_default
              5
              best.value))
    × ((w₂ : Relay) × (answer_retrieve_while fork_roots roots keccak json
            (memory_storage bls)
            (memory_auctioneer bls cache)
            signer
            fork_datas
            (submit fork_roots roots keccak cache signer fork_datas (bid 5 hash_b))
            retrieve_request
            with_a
          ≡ some (
            ok (record { signed_header = hash_a; execution_payload = hash_b; blobs_bundle = [] }),
            w₂,
          )))
unfolding run_retrieves
retrieve-submit_bid_example =
    retrieve-submit_bid fork_roots roots keccak json cache signer fork_datas cache_laws
      retrieve_request 5 (bid 5 hash_b) with_a with_a (header_of (bid 3 hash_a)) refl refl refl
      (λ k o p. ground arith) refl refl

abbrev pub unknown_key : Proto.RetrieveRequest
unknown_key = record { slot = 10; parent_hash = b256_default; proposer_pubkey = [] }

handle_retrievals-Answers_example :
    handle_request fork_roots roots keccak json
      (memory_storage bls)
      (memory_auctioneer bls cache)
      signer
      fork_datas
      (ok unknown_key ∷ ok retrieve_request ∷ [])
      with_b
      (record { sent = []; left = 3 })
    ≡ record {
      panicked = false;
      world = with_b;
      sender = record {
        sent =
            err (invalid_argument (msg "invalid length"))
            ∷ ok (record { signed_header = hash_b; execution_payload = hash_b; blobs_bundle = [] })
            ∷ [];
        left = 1;
      };
    }
unfolding run_retrieves
handle_retrievals-Answers_example =
    handle_retrievals-Answers fork_roots roots keccak json (memory_storage bls)
      (memory_auctioneer bls cache) signer fork_datas (unknown_key ∷ retrieve_request ∷ []) _ with_b
      with_b [] 3 1 (Answers.one refl (Answers.one refl Answers.nothing)) refl

abbrev head_event : HeadEvent
head_event = record {
  slot = 33;
  block = [];
  epoch_transition = false;
  execution_optimistic = false;
}

abbrev reader : EventCodec
reader = record {
  from_utf8 = λ s. some s;
  trim = λ s. s;
  head_event = λ s. ok head_event;
  payload_attributes_event = λ s. err (msg "json");
}

parse_event-event_text_example :
    parse_event reader (event_text reader (codes "head") (codes "{}") (codes "x" ∷ []))
    ≡ some (ok (head head_event))
unfolding without_cr
parse_event-event_text_example =
    parse_event-event_text reader (codes "head") (codes "{}") (codes "x" ∷ []) refl (ground arith)
      (refl, (refl, (refl, tt))) refl
