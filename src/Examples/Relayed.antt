-- ===== src/Examples/Relayed.antt =====
-- Examples of the results on the use cases and on the relay as a whole.
use mev_relay_rs.Prelude.{ℕ, ◌≡◌, ◌≢◌, ◌⊎◌, refl, [], ◌∷◌, Bytes, length, some, ok, true, arith}
use mev_relay_rs.Crypto.Signer.{verify, signer_public_key}
use mev_relay_rs.Entity.Types.{b256_default}
use mev_relay_rs.Entity.Bid.{BlindedBlockResponse, build_header, to_blinded_block_response}
use mev_relay_rs.Datastore.MemoryStorage.{memory_storage, set_delivered_blocks}
use mev_relay_rs.Datastore.MemoryAuctioneer.{memory_auctioneer, new_auctioneer, get_best_bid}
use mev_relay_rs.Datastore.MemoryAuctioneer.Laws.{Bid}
use mev_relay_rs.UseCase.Error.{zero_bid, no_bid_found, block_hash_mismatch}
use mev_relay_rs.UseCase.SubmitBid.Laws.{
  Passes, asked, accepted, submit_bid_iff, submit_bid-Refused,
}
use mev_relay_rs.UseCase.SubmitBid.Laws
use mev_relay_rs.UseCase.GetHeader
use mev_relay_rs.UseCase.GetHeader.Laws.{
  Granted, get_header_iff, get_header-Refused, get_header_signed,
}
use mev_relay_rs.UseCase.UnblindBlock
use mev_relay_rs.UseCase.UnblindBlock.{blinded_block_signing_root}
use mev_relay_rs.UseCase.UnblindBlock.Laws.{IsReleasable, unblind_block_iff, unblind_block-Refused}
use mev_relay_rs.UseCase.UnblindBlock.SigningRoot.{Collision, signing_root_binds}
use mev_relay_rs.Relay.State.{IsSound, Reach, Step}
use mev_relay_rs.Relay.Soundness.{relay-IsSound}
use mev_relay_rs.Relay.Delivery.{unblind-get_header, unblind-submit_bid}
use mev_relay_rs.Relay.Race.{unblind-race, race}
use mev_relay_rs.Examples.Toy.{bls, bls_laws, fork_roots, roots, keccak, cache, cache_laws}
use mev_relay_rs.Examples.Running.{run_submits, run_asks, run_unblinds}
use mev_relay_rs.Examples.World.{
  fork_datas, signer, bid, hash_a, hash_b, duty, Relay, started, registered, with_a, with_b,
  header_of, registration,
}

reached : Reach fork_roots roots keccak cache signer fork_datas started with_b
unfolding new_auctioneer
reached =
    Reach.next
      (Reach.next
        (Reach.next
          (Reach.next (Reach.next Reach.here (Step.moves_head (record { slot = 9 }) refl))
            (Step.gets_duties (duty ∷ []) refl))
          (Step.registers registration))
        (Step.submits (bid 3 hash_a)))
      (Step.submits (bid 5 hash_b))

relay-IsSound_example : IsSound cache with_b
relay-IsSound_example =
    relay-IsSound fork_roots roots keccak cache signer fork_datas cache_laws (7 ∷ []) 60 reached

submit_bid_iff_example :
    (d : _) × Passes fork_roots roots
      (memory_storage bls)
      (memory_auctioneer bls cache)
      fork_datas
      (bid 5 hash_b)
      with_a
      d
    × ((asked fork_roots roots
          (memory_storage bls)
          (memory_auctioneer bls cache)
          fork_datas
          (bid 5 hash_b)
          with_a).0
        ≡ ok tt)
    × (with_b
        ≡ accepted fork_roots roots
            (memory_storage bls)
            (memory_auctioneer bls cache)
            fork_datas
            (bid 5 hash_b)
            d
            with_a)
unfolding run_submits
submit_bid_iff_example =
    (submit_bid_iff fork_roots roots (memory_storage bls) (memory_auctioneer bls cache) fork_datas
        (bid 5 hash_b) with_a with_b).0
      refl

submit_bid-Refused_example :
    Laws.Refused fork_roots roots
      (memory_storage bls)
      (memory_auctioneer bls cache)
      fork_datas
      (bid 0 hash_b)
      with_a
      zero_bid
      with_a
    × (with_a.storage ≡ with_a.storage)
unfolding run_submits
submit_bid-Refused_example =
    submit_bid-Refused fork_roots roots (memory_storage bls) (memory_auctioneer bls cache)
      fork_datas (bid 0 hash_b) with_a with_a zero_bid refl

get_header_iff_example :
    Granted fork_roots roots
      (memory_storage bls)
      (memory_auctioneer bls cache)
      signer
      10
      b256_default
      5
      with_b
      (header_of (bid 5 hash_b))
      (run_asks b256_default with_b).1
unfolding run_asks
get_header_iff_example =
    (get_header_iff fork_roots roots (memory_storage bls) (memory_auctioneer bls cache) signer 10
        b256_default 5 with_b (run_asks b256_default with_b).1 (header_of (bid 5 hash_b))).0
      refl

get_header_signed_example :
    verify bls fork_roots roots.header_root signer 8
      (signer_public_key bls signer)
      (build_header roots (bid 5 hash_b))
    ≡ true
unfolding run_asks
get_header_signed_example =
    get_header_signed fork_roots roots (memory_storage bls) (memory_auctioneer bls cache) signer 10
      b256_default 5 bls_laws with_b (run_asks b256_default with_b).1 (header_of (bid 5 hash_b))
      refl

get_header-Refused_example :
    GetHeader.Laws.Refused fork_roots roots
      (memory_storage bls)
      (memory_auctioneer bls cache)
      signer
      10
      hash_a
      5
      with_b
      no_bid_found
unfolding run_asks
get_header-Refused_example =
    get_header-Refused fork_roots roots (memory_storage bls) (memory_auctioneer bls cache) signer 10
      hash_a 5 with_b (run_asks hash_a with_b).1 no_bid_found refl

unblind_block_iff_example :
    IsReleasable fork_roots keccak
      (memory_storage bls)
      (memory_auctioneer bls cache)
      fork_datas
      10
      42
      hash_b
      5
      with_b
      (to_blinded_block_response (bid 5 hash_b))
    × ((run_unblinds hash_b with_b).1
        ≡ record with_b { storage = set_delivered_blocks bls hash_b with_b.storage })
unfolding run_unblinds
unblind_block_iff_example =
    (unblind_block_iff fork_roots keccak (memory_storage bls) (memory_auctioneer bls cache)
        fork_datas 10 42 hash_b 5 with_b (run_unblinds hash_b with_b).1
        (to_blinded_block_response (bid 5 hash_b))).0
      refl

unblind_block-Refused_example :
    UnblindBlock.Laws.Refused fork_roots keccak
      (memory_storage bls)
      (memory_auctioneer bls cache)
      fork_datas
      10
      42
      hash_a
      5
      with_b
      block_hash_mismatch
    × (with_b ≡ with_b)
unfolding run_unblinds
unblind_block-Refused_example =
    unblind_block-Refused fork_roots keccak (memory_storage bls) (memory_auctioneer bls cache)
      fork_datas 10 42 hash_a 5 with_b with_b block_hash_mismatch refl

keccak-length : (x : Bytes) → length (keccak x) ≡ 32
keccak-length [] = refl
keccak-length (a ∷ x) = refl

signing_root_binds_example :
    let slot : ℕ = 10 in
    let index : ℕ = 42 in
    ((slot ≡ slot) × (index ≡ index) × (hash_a ≡ hash_a) × (hash_b ≡ hash_b)) ⊎ Collision keccak
signing_root_binds_example =
    signing_root_binds keccak 10 10 42 42 hash_a hash_a hash_b hash_b keccak-length (omega arith)
      (omega arith) (omega arith) (omega arith) refl

unblind-get_header_example :
    (best : Bid bls) × ((cache {V = Bid bls}).peek with_b.auctioneer 10 ≡ some best)
    × (build_header roots (bid 5 hash_b) ≡ build_header roots best.value)
    × ((run_unblinds hash_b (run_asks b256_default with_b).1).0
        ≡ ok (to_blinded_block_response best.value))
unfolding run_asks run_unblinds
unblind-get_header_example =
    unblind-get_header fork_roots roots keccak cache signer fork_datas cache_laws (7 ∷ []) 60 10
      b256_default 5 with_b (run_asks b256_default with_b).1 (header_of (bid 5 hash_b)) duty 5
      reached refl refl refl

unblind-submit_bid_example :
    (run_unblinds hash_a with_b).0 ≢ ok (to_blinded_block_response (bid 3 hash_a))
unfolding run_unblinds
unblind-submit_bid_example =
    unblind-submit_bid fork_roots roots keccak cache signer fork_datas cache_laws (bid 5 hash_b)
      with_a with_b duty duty 10 42 hash_a 5 refl refl refl refl (λ e. cc)
      (to_blinded_block_response (bid 3 hash_a))

abbrev raced : Relay
raced =
    race fork_roots roots keccak cache fork_datas cache_laws (bid 3 hash_a) (bid 5 hash_b) duty
      registered

unblind-race_example :
    ((get_best_bid bls cache 10 raced.auctioneer).0
      ≡ ok (record { addr = 1; value = bid 5 hash_b }))
    × ((index : ℕ) (signature : ℕ) (r : BlindedBlockResponse)
        → (UnblindBlock.execute fork_roots keccak
            (memory_storage bls)
            (memory_auctioneer bls cache)
            fork_datas
            10
            index
            hash_b
            signature
            raced).0
          ≢ ok r)
unfolding run_unblinds
unblind-race_example =
    unblind-race fork_roots roots keccak cache fork_datas cache_laws (bid 3 hash_a) (bid 5 hash_b)
      registered duty (λ k o p. cc) refl refl refl (λ e. cc)
