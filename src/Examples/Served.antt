-- ===== src/Examples/Served.antt =====
-- Examples of the results on the relay behind its services: a validator registers, a builder bids, and
-- the proposer asks for a header and hands in its signed blinded block.
use mev_relay_rs.Prelude.{
  ◌≡◌, refl, sym, ap, ok-injective, Option, Bytes, [], ◌∷◌, replicate, none, some, ok, msg,
}
use mev_relay_rs.Api.Retriever.{Json}
use mev_relay_rs.Relay.Served.{Served, Event, submit_blinded_block}
use mev_relay_rs.Relay.Served.Bounds.{IsSizedWorld, Served-IsSizedWorld}
use mev_relay_rs.Relay.Served.Handover.{Reader, handover}
use mev_relay_rs.Examples.Toy.{bls, fork_roots, roots, keccak, cache, cache_laws}
use mev_relay_rs.Examples.World.{fork_datas, signer, duty, hash_a, Relay, started}
use mev_relay_rs.Examples.Bids.{
  codecs, codec_laws, request, after_a, proto_registration, run_bids, run_registrations,
}
use mev_relay_rs.Examples.Headers.{retrieve_request, run_retrieves}

-- A header is written as a tag and its block hash, and a payload as its hash.
abbrev tagged : Json bls
tagged = record {
  header_to_vec = λ v. ok (123 ∷ v.contents.message.block_hash);
  payload_to_vec = λ p. ok p.block_hash;
  blobs_to_vec = λ x. ok (1 ∷ []);
}

abbrev after_tag : Bytes → Option Bytes
after_tag [] = none
after_tag (x ∷ rest) = some rest

abbrev reader : Reader tagged
reader = record {
  read_block_hash = after_tag;
  read-written = λ v bytes e. ap after_tag (
      sym
        (ok-injective (tagged.header_to_vec v) (123 ∷ v.contents.message.block_hash) bytes refl e));
  read-nothing = refl;
  written = λ p. (p.block_hash, refl);
}

unfoldable served :
    Served {b = bls} fork_roots roots keccak codecs tagged cache signer fork_datas started after_a
unfolding run_bids run_registrations
served =
    Served.next
      (Served.next
        (Served.next (Served.next Served.here (Event.moves_head (record { slot = 9 })))
          (Event.gets_duties (duty ∷ [])))
        (Event.registers (record { registration = some proto_registration })
          (ok (record { code = 0; message = msg "ok" })) refl))
      (Event.bids (request (49 ∷ []) hash_a) (record { code = 0; message = msg "ok" }) refl)

Served-IsSizedWorld_example :
    IsSizedWorld fork_roots roots keccak codecs tagged cache signer fork_datas cache_laws codec_laws
      (7 ∷ [])
      after_a
Served-IsSizedWorld_example =
    Served-IsSizedWorld fork_roots roots keccak codecs tagged cache signer fork_datas cache_laws
      codec_laws (7 ∷ []) 60 served

handover_example :
    (u : Relay) × (submit_blinded_block fork_roots roots keccak codecs tagged cache signer
        fork_datas
        (record {
          slot = 10;
          proposer_index = 42;
          block_hash = hash_a;
          signature = 5 ∷ replicate 95 0;
        })
        after_a
      ≡ some (
        ok (record { execution_payload = hash_a; blobs_bundle = 1 ∷ []; block_hash = hash_a }),
        u,
      ))
unfolding run_retrieves run_bids served
handover_example =
    handover fork_roots roots keccak codecs tagged cache signer fork_datas cache_laws codec_laws
      reader (7 ∷ []) 60 retrieve_request 5 after_a after_a
      (record { signed_header = 123 ∷ hash_a; execution_payload = hash_a; blobs_bundle = 1 ∷ [] })
      duty hash_a (5 ∷ replicate 95 0) 5 served ((((tt, refl), refl), tt), tt) refl refl refl refl
      refl refl
