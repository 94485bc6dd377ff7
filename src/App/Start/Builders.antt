-- ===== src/App/Start/Builders.antt =====
-- Which builders a running relay takes bids from: crates/app/src/{cli,lib}.rs, down to the storage.
use mev_relay_rs.Prelude.{
  ◌≡◌, sym, ap, subst, ◌∙◌, true, List, [], ◌∷◌, ◌++◌, All-split, inl, inr, Bytes, Option, some,
  Message, Result, ok, collect, >>=-eq-ok, Bool-cases, arith, Any,
}
use mev_relay_rs.Crypto.Blst.{Bls}
use mev_relay_rs.Crypto.Keys.{BlsPublicKey}
use mev_relay_rs.Crypto.Fork.{ForkDatas, ForkRoots}
use mev_relay_rs.Entity.Bid.{BidSubmission, EntityRoots}
use mev_relay_rs.Datastore.Cache.{Cache, CacheLaws}
use mev_relay_rs.Datastore.MemoryStorage.{contains}
use mev_relay_rs.Datastore.MemoryAuctioneer.Laws.{Bid}
use mev_relay_rs.Gateway.Events.{BeaconError}
use mev_relay_rs.Relay.State.{RelayWorld, initial}
use mev_relay_rs.App.Config.{CliArgs, RelayConfig, read_builder, try_from_args}
use mev_relay_rs.App.Config.Exact.{try_from_args_iff}
use mev_relay_rs.App.Start.{Started, run_inner, bid_ttl_secs}
use mev_relay_rs.UseCase.Task.{done}
use mev_relay_rs.UseCase.Task.Programs.{submit_bid}
use mev_relay_rs.Relay.Interleaving.{Running, System, Reaches}
use mev_relay_rs.Relay.Interleaving.Safety.{interleaved-IsVetted}

module _ (b : Bls) (decode : Bytes → Result Message Bytes) (show : Bytes → Message) where
  -- A key that is among those read is read from one of the texts.
  contains-collect :
      (key : BlsPublicKey b) (texts : List Bytes) (keys : List (BlsPublicKey b))
      → collect (read_builder b decode show) texts ≡ ok keys
      → contains b key keys ≡ true
      → Any (λ t. read_builder b decode show t ≡ ok key) texts
  unfolding contains
  contains-collect key [] keys e h =
      let none_read : [] ≡ keys = cc in
      absurd (ground (arith, subst (λ z. contains b key z ≡ true) (sym none_read) h))
  contains-collect key (t ∷ texts) keys e h =
      let (k, p, e1) = >>=-eq-ok (read_builder b decode show t) _ e in
      let (ks, q, e2) = >>=-eq-ok (collect (read_builder b decode show) texts) _ e1 in
      let all : k ∷ ks ≡ keys = cc in
      elim (Bool-cases (b.pk_eq.beq k key)) [
        | inl same ↦ inl (p ∙ ap ok ((b.pk_eq.beq_iff k key).0 same))
        | inr other ↦ inr (
            contains-collect key texts ks q
              (ground (arith, other, subst (λ z. contains b key z ≡ true) (sym all) h)))
      ]

  module _ (h : ForkRoots) (roots : EntityRoots b) (keccak256 : Bytes → Bytes) (c : Cache (Bid b))
      (laws : CacheLaws c) {Url : Type 0} (parse_url : Bytes → Option Url)
      (fetched : Result BeaconError ForkDatas) where
    -- The relay as it starts, with no request in flight.
    abbrev pub serving : Started b c Url → System c
    serving r = record { world = r.world; running = [] }

    -- A relay that is started from a command line accepts, however the actions of its requests
    -- interleave with each other and with the head, the duties, the payload attributes and the cache,
    -- only bids whose builder's key is read from one of the texts given as enabled builders.
    pub accepted-IsEnabled :
        (args : CliArgs) (config : RelayConfig b) (r : Started b c Url) (bid : BidSubmission b)
        (before after : List (Running c)) {s : System c}
        → try_from_args b decode show args ≡ ok config
        → run_inner c parse_url fetched config ≡ some r
        → Reaches h roots keccak256 c r.signer r.fork_datas (serving r) s
        → s.running ≡ before ++ (submit_bid bid, done (ok tt)) ∷ after
        → Any
            (λ t. read_builder b decode show t ≡ ok bid.message.builder_pubkey)
            args.enabled_builders
    unfolding run_inner
    accepted-IsEnabled args config r bid before after {s} read started reached accepted =
        let same : r.world ≡ initial c config.enabled_builders bid_ttl_secs =
          ground (arith, started) in
        let from_initial =
          subst
            (λ (w : RelayWorld b c).
              Reaches h roots keccak256 c r.signer r.fork_datas (record { world = w; running = [] })
                s)
            same reached in
        let (_, shown) =
          interleaved-IsVetted h roots keccak256 c r.signer r.fork_datas laws
            config.enabled_builders bid_ttl_secs from_initial in
        let (_, vetted, _) =
          All-split _ before (submit_bid bid, done (ok tt)) after (rw accepted at shown) in
        contains-collect bid.message.builder_pubkey args.enabled_builders config.enabled_builders
          ((try_from_args_iff b decode show args config).0 read).builders vetted.whitelisted
