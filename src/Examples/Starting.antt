-- ===== src/Examples/Starting.antt =====
-- An example of the result on a relay that is started from a command line.
use mev_relay_rs.Prelude.{ℕ, ◌≡◌, refl, List, [], ◌∷◌, replicate, some, ok, trim_0x, Any}
use mev_relay_rs.Crypto.Keys.{pk_deserialize, sk_deserialize}
use mev_relay_rs.UseCase.Task.{done}
use mev_relay_rs.UseCase.Task.Programs.{register_validator}
use mev_relay_rs.App.Config.{read_builder, chain_fork, try_from_args}
use mev_relay_rs.App.Start.{Started, run_inner}
use mev_relay_rs.App.Start.Builders.{accepted-IsEnabled}
use mev_relay_rs.Examples.Toy.{bls, fork_roots, roots, keccak, cache, cache_laws}
use mev_relay_rs.Examples.Interleaved.{reached_both}
use mev_relay_rs.Examples.Running.{run_submits}
use mev_relay_rs.Examples.World.{fork_datas, signer, bid, registration, hash_a, started}
use mev_relay_rs.Examples.Chain.{decode, args, config}

abbrev running : Started bls cache (List ℕ)
running = record {
  world = started;
  signer = signer;
  fork_datas = fork_datas;
  beacon_url = [];
  grpc_port = 50051;
  http_port = 9063;
  slots_per_epoch = 32;
  polling_interval_secs = 6;
}

accepted-IsEnabled_example :
    Any (λ t. read_builder bls decode (λ s. []) t ≡ ok 7) ((7 ∷ replicate 47 0) ∷ [])
unfolding run_submits run_inner try_from_args chain_fork read_builder trim_0x sk_deserialize
    pk_deserialize
accepted-IsEnabled_example =
    accepted-IsEnabled bls decode (λ s. []) fork_roots roots keccak cache cache_laws (λ s. some s)
      (ok fork_datas) args config running (bid 3 hash_a) []
      ((register_validator registration, done (ok tt)) ∷ []) refl refl reached_both refl
