-- ===== src/Examples/Interleaved.antt =====
-- An example of requests that interleave: a bid that is on its way while its proposer registers and
-- the head moves.
use mev_relay_rs.Prelude.{◌≡◌, refl, [], ◌∷◌, All, ok, some, ◌<◌, ◌⊎◌, ◌++◌}
use mev_relay_rs.UseCase.Task.{
  done, advance, ◌>>=◌, pure, raise_if, or_raise, reads, writes, calls, arc_new,
}
use mev_relay_rs.UseCase.Task.Keeps.{Shown}
use mev_relay_rs.UseCase.Task.Programs.{submit_bid, register_validator, task_of}
use mev_relay_rs.Relay.Interleaving.{Running, System, Event, Reaches, started}
use mev_relay_rs.Relay.Interleaving.Vetted.{IsVettedWorld}
use mev_relay_rs.Datastore.MemoryAuctioneer.Laws.{Bid, bid_value}
use mev_relay_rs.Relay.Interleaving.Rising.{best_bid-rises}
use mev_relay_rs.Relay.Interleaving.Safety.{Means, interleaved-IsVetted}
use mev_relay_rs.Examples.Toy.{bls, fork_roots, roots, keccak, cache, cache_laws}
use mev_relay_rs.Examples.World.{
  fork_datas, signer, bid, hash_a, hash_b, duty, registration, with_a, with_b,
}
use mev_relay_rs.Examples.Running.{run_submits}

-- Both requests have been answered, and the state is the one that they leave in the other order.
abbrev pub both_done : System {b = bls} cache
both_done = record {
  world = with_a;
  running =
      (submit_bid (bid 3 hash_a), done (ok tt))
      ∷ (register_validator registration, done (ok tt))
      ∷ [];
}

pub reached_both :
    Reaches fork_roots roots keccak cache signer fork_datas
      (started {b = bls} cache (7 ∷ []) 60)
      both_done
unfolding run_submits task_of advance ◌>>=◌ pure raise_if or_raise reads writes calls arc_new
reached_both =
    Reaches.next
      (Reaches.next
        (Reaches.next
          (Reaches.next
            (Reaches.next
              (Reaches.next
                (Reaches.next
                  (Reaches.next
                    (Reaches.next
                      (Reaches.next
                        (Reaches.next
                          (Reaches.next Reaches.here (Event.starts (submit_bid (bid 3 hash_a))))
                          (Event.moves [] _ [] refl))
                        (Event.moves_head (record { slot = 9 })))
                      (Event.moves [] _ [] refl))
                    (Event.moves [] _ [] refl))
                  (Event.gets_duties (duty ∷ [])))
                (Event.starts (register_validator registration)))
              (Event.moves [] _ (_ ∷ []) refl))
            (Event.moves [] _ (_ ∷ []) refl))
          (Event.moves (_ ∷ []) _ [] refl))
        (Event.moves [] _ (_ ∷ []) refl))
      (Event.moves [] _ (_ ∷ []) refl)

interleaved-IsVetted_example :
    IsVettedWorld fork_roots roots fork_datas (7 ∷ []) cache with_a
    × All
        (λ (t : Running {b = bls} cache).
          Shown (Means fork_roots roots keccak cache signer fork_datas cache_laws (7 ∷ []) t.0) t.1)
        both_done.running
interleaved-IsVetted_example =
    interleaved-IsVetted fork_roots roots keccak cache signer fork_datas cache_laws (7 ∷ []) 60
      reached_both

abbrev old_bid : Bid bls
old_bid = record { addr = 0; value = bid 3 hash_a }

-- A higher bid comes in afterwards.
abbrev outbid : System {b = bls} cache
outbid = record {
  world = with_b;
  running = both_done.running ++ (submit_bid (bid 5 hash_b), done (ok tt)) ∷ [];
}

unfoldable reached_higher : Reaches fork_roots roots keccak cache signer fork_datas both_done outbid
unfolding run_submits task_of advance ◌>>=◌ pure raise_if or_raise reads writes calls arc_new
reached_higher =
    Reaches.next
      (Reaches.next
        (Reaches.next
          (Reaches.next
            (Reaches.next
              (Reaches.next
                (Reaches.next (Reaches.next Reaches.here (Event.starts (submit_bid (bid 5 hash_b))))
                  (Event.moves (_ ∷ _ ∷ []) _ [] refl))
                (Event.moves (_ ∷ _ ∷ []) _ [] refl))
              (Event.moves (_ ∷ _ ∷ []) _ [] refl))
            (Event.moves (_ ∷ _ ∷ []) _ [] refl))
          (Event.moves (_ ∷ _ ∷ []) _ [] refl))
        (Event.moves (_ ∷ _ ∷ []) _ [] refl))
      (Event.moves (_ ∷ _ ∷ []) _ [] refl)

best_bid-rises_example :
    (new : Bid bls) × ((cache {V = Bid bls}).peek with_b.auctioneer 10 ≡ some new)
    × ((new ≡ old_bid) ⊎ (bid_value old_bid < bid_value new))
unfolding run_submits reached_higher
best_bid-rises_example =
    best_bid-rises fork_roots roots keccak cache signer fork_datas cache_laws (7 ∷ []) 60
      reached_both reached_higher 10 old_bid ((((((((tt, tt), tt), tt), tt), tt), tt), tt), tt) refl
