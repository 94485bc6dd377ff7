-- ===== src/App/Config/Exact.antt =====
-- Which command lines give a configuration, and which: `RelayConfig::try_from` of crates/app/src/lib.rs.
use mev_relay_rs.Prelude.{
  ◌≡◌, ◌↔◌, ◌⊎◌, inl, inr, refl, sym, ap, List, Bytes, codes, trim_0x, length, replicate, Message,
  Result, ok, err, map_err, collect, >>=-eq-ok, ok-injective, not, ◌||◌, ◌==◌, if◌then◌else◌, arith,
  tests,
}
use mev_relay_rs.Crypto.Blst.{Bls}
use mev_relay_rs.Crypto.Keys.{BlsPublicKey, BlsSecretKey, sk_deserialize, deserialize_length}
use mev_relay_rs.Crypto.Fork.{ForkName, from_genesis_and_current_version}
use mev_relay_rs.App.Config.{
  CliArgs, RelayConfig, decode_hex, chain_fork, read_builder, try_from_args,
}

abbrev pub IsKnownChain : Bytes → Type 0
IsKnownChain name = (name ≡ codes "mainnet") ⊎ ((name ≡ codes "sepolia") ⊎ (name ≡ codes "holesky"))

map_err-ok :
    {A : Type 0} (r : Result Message A) (f : Message → Message) (a : A)
    → map_err r f ≡ ok a
    → r ≡ ok a
map_err-ok (ok x) f a e = cc
map_err-ok (err m) f a e = cc

module _ (b : Bls) (decode : Bytes → Result Message Bytes) (show : Bytes → Message) where
  chain_fork-ok :
      (name : Bytes) (chain : ForkName)
      → chain_fork b decode show name ≡ ok chain
      → IsKnownChain name × (chain ≡ ForkName.deneb)
  unfolding chain_fork
  chain_fork-ok name chain e = (grind tests, ground arith)

  chain_fork-known :
      (name : Bytes) → IsKnownChain name → chain_fork b decode show name ≡ ok ForkName.deneb
  unfolding chain_fork
  chain_fork-known name (inl e) = rw e refl
  chain_fork-known name (inr (inl e)) = rw e refl
  chain_fork-known name (inr (inr e)) = rw e refl

  abbrev pub described :
      CliArgs
      → BlsSecretKey b
      → List (BlsPublicKey b)
      → ForkName
      → Bytes
      → Bytes
      → Bytes
      → RelayConfig b
  described args key builders chain genesis current root = record {
    grpc_port = args.grpc_port;
    http_port = args.http_port;
    beacon_url = args.beacon_url;
    bls_secret_key = key;
    chain = chain;
    slots_per_epoch = args.slots_per_epoch;
    enabled_builders = builders;
    fork_datas = record {
      builder = record { current_version = genesis; genesis_validators_root = replicate 32 0 };
      proposer = record { current_version = current; genesis_validators_root = root };
    };
    polling_interval_secs = 6;
  }

  -- The configuration is what the texts of the command line say.
  pub record IsReadFrom (args : CliArgs) (config : RelayConfig b) : Type 0 where
    pub key : Bytes
    pub genesis : Bytes
    pub current : Bytes
    pub root : Bytes
    pub key_text : decode (trim_0x args.bls_secret_key) ≡ ok key
    pub genesis_text : decode (trim_0x args.genesis_fork_version) ≡ ok genesis
    pub current_text : decode (trim_0x args.current_fork_version) ≡ ok current
    pub root_text : decode (trim_0x args.genesis_validators_root) ≡ ok root
    pub sizes : (length key ≡ 32) × (length genesis ≡ 4) × (length current ≡ 4) × (length root ≡ 32)
    pub secret_key : sk_deserialize b key ≡ ok config.bls_secret_key
    pub known_chain : IsKnownChain args.chain
    pub builders :
        collect (read_builder b decode show) args.enabled_builders ≡ ok config.enabled_builders
    pub fields :
        config
        ≡ described args config.bls_secret_key config.enabled_builders ForkName.deneb genesis
            current root

  try_from_args-ok :
      (args : CliArgs) (config : RelayConfig b)
      → try_from_args b decode show args ≡ ok config
      → IsReadFrom args config
  unfolding try_from_args from_genesis_and_current_version
  try_from_args-ok args config e =
      let (sk, p1, e1) = >>=-eq-ok (decode_hex b decode show args.bls_secret_key _) _ e in
      let (key, p2, e2) = >>=-eq-ok (map_err (sk_deserialize b sk) _) _ e1 in
      let (chain, p3, e3) = >>=-eq-ok (chain_fork b decode show args.chain) _ e2 in
      let (gv, p4, e4) = >>=-eq-ok (decode_hex b decode show args.genesis_validators_root _) _ e3 in
      let (u, p5, e5) = >>=-eq-ok (if not (length gv == 32) then _ else _) _ e4 in
      let (genesis, p6, e6) =
        >>=-eq-ok (decode_hex b decode show args.genesis_fork_version _) _ e5 in
      let (current, p7, e7) =
        >>=-eq-ok (decode_hex b decode show args.current_fork_version _) _ e6 in
      let (v, p8, e8) =
        >>=-eq-ok (if not (length genesis == 4) || not (length current == 4) then _ else _) _ e7 in
      let (builders, p9, e9) =
        >>=-eq-ok (collect (read_builder b decode show) args.enabled_builders) _ e8 in
      let same = ok-injective _ _ config refl e9 in
      let (known, deneb) = chain_fork-ok args.chain chain p3 in
      let secret = map_err-ok (sk_deserialize b sk) _ key p2 in
      rw (← same) (record {
        key = sk;
        genesis = genesis;
        current = current;
        root = gv;
        key_text = map_err-ok _ _ sk p1;
        genesis_text = map_err-ok _ _ genesis p6;
        current_text = map_err-ok _ _ current p7;
        root_text = map_err-ok _ _ gv p4;
        sizes = (
          (deserialize_length b sk).1 key secret,
          ground (arith, p8),
          ground (arith, p8),
          ground (arith, p5),
        );
        secret_key = secret;
        known_chain = known;
        builders = p9;
        fields = ap (λ (x : ForkName). described args key builders x genesis current gv) deneb;
      })

  IsReadFrom-try_from_args :
      (args : CliArgs) (config : RelayConfig b)
      → IsReadFrom args config
      → try_from_args b decode show args ≡ ok config
  unfolding try_from_args from_genesis_and_current_version
  IsReadFrom-try_from_args args config d =
      let (_, genesis_4, current_4, root_32) = d.sizes in
      rw
        (
          d.key_text,
          d.secret_key,
          chain_fork-known args.chain d.known_chain,
          d.root_text,
          root_32,
          d.genesis_text,
          d.current_text,
          genesis_4,
          current_4,
          d.builders,
        )
        (ap ok (sym d.fields))

  pub try_from_args_iff :
      (args : CliArgs) (config : RelayConfig b)
      → (try_from_args b decode show args ≡ ok config) ↔ IsReadFrom args config
  try_from_args_iff args config =
      (try_from_args-ok args config, IsReadFrom-try_from_args args config)
