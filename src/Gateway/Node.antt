-- ===== src/Gateway/Node.antt =====
-- crates/gateway/src/beacon/api.rs: what is asked of a beacon node, and how the answers are read. The
-- HTTP exchange itself, and `serde_json`, are parameters.
use mev_relay_rs.Prelude.{
  ◌++◌, ℕ, ◌≡◌, Bool, not, ◌&&◌, ltb, List, map, Bytes, codes, trim_0x, length, Message, text, num,
  ◌∷◌, [], Result, ok, err, map_err, ◌>>=◌, >>=-eq-ok, Result-cases, ◌==◌, if◌then◌else◌, arith,
  inl, inr,
}
use mev_relay_rs.Crypto.Blst.{Bls}
use mev_relay_rs.Crypto.Keys.{BlsPublicKey, pk_serialize}
use mev_relay_rs.Crypto.Fork.{ForkDatas}
use mev_relay_rs.Entity.Validator.{ProposerDuty}
use mev_relay_rs.Gateway.Events.{BeaconError, http, api, deserialize, sse}

-- A `reqwest::Response`: the status, and what reading the body as text gives.
pub record Response : Type 0 where
  pub status : ℕ
  pub text : Result Message Message
  pub body : Bytes

-- `StatusCode::is_success`
abbrev pub is_success : Response → Bool
is_success r = not (ltb r.status 200) && ltb r.status 300

abbrev pub or_empty : Result Message Message → Message
or_empty (ok m) = m
or_empty (err e) = []

-- `get_json`, over what a GET of an address gives and the `json` of the answer's type
unfoldable pub get_json :
    {T : Type 0}
    → (Response → Result Message T)
    → (Bytes → Result Message Response)
    → Bytes
    → Result BeaconError T
get_json json get url = do
  resp ← map_err (get url) http
  if not (is_success resp)
      then err (api resp.status (or_empty resp.text))
      else map_err (json resp) deserialize

-- `ProposerDutyData` and its `From`
pub record ProposerDutyData (b : Bls) : Type 0 where
  pub slot : ℕ
  pub pubkey : BlsPublicKey b
  pub validator_index : ℕ

unfoldable pub from_duty_data : {b : Bls} → ProposerDutyData b → ProposerDuty b
from_duty_data d = record { slot = d.slot; pubkey = d.pubkey; validator_index = d.validator_index }

-- `BeaconNodeApi::proposer_duties`, over how the epoch is written
unfoldable pub proposer_duties :
    {b : Bls}
    → (ℕ → Bytes)
    → (Response → Result Message (List (ProposerDutyData b)))
    → (Bytes → Result Message Response)
    → Bytes
    → ℕ
    → Result BeaconError (List (ProposerDuty b))
unfolding get_json from_duty_data
proposer_duties to_string json get url epoch = do
  duties ← get_json json get (url ++ codes "eth/v1/validator/duties/proposer/" ++ to_string epoch)
  ok (map from_duty_data duties)

-- `hex_array_4`, over `hex::decode`
unfoldable pub hex_array_4 : (Bytes → Result Message Bytes) → ℕ → Bytes → Result BeaconError Bytes
hex_array_4 decode n s = do
  bytes ← map_err (decode (trim_0x s)) (λ e. sse (text "hex decode: " ∷ e))
  if not (length bytes == n)
      then err (sse (text "expected " ∷ num n ∷ text " bytes, got " ∷ num (length bytes) ∷ []))
      else ok bytes

-- `ForkDataResp`, with the version of its `CurrentFork`
pub record ForkDataResp : Type 0 where
  pub genesis_validators_root : Bytes
  pub current_version : Bytes

-- `BeaconNodeApi::get_fork_data`
unfoldable pub get_fork_data :
    (Bytes → Result Message Bytes)
    → (Response → Result Message ForkDataResp)
    → (Bytes → Result Message Response)
    → Bytes
    → Result BeaconError ForkDatas
unfolding get_json hex_array_4
get_fork_data decode json get url = do
  resp ← get_json json get (url ++ codes "eth/v2/debug/beacon/states/head")
  gvr ←
      map_err (decode (trim_0x resp.genesis_validators_root))
        (λ e. sse (text "hex decode genesis_validators_root: " ∷ e))
  if not (length gvr == 32)
      then err (
          sse (
            text "genesis_validators_root length mismatch: expected 32 bytes, got "
            ∷ num (length gvr)
            ∷ []))
      else hex_array_4 decode 4 resp.current_version >>= λ cv. ok (record {
        builder = record { current_version = cv; genesis_validators_root = gvr };
        proposer = record { current_version = cv; genesis_validators_root = gvr };
      })

pub record KnownValidator : Type 0 where
  pub index : ℕ
  pub balance : ℕ
  pub status : Bytes

-- `ValidatorData`, but for the fields that are never read
pub record ValidatorData : Type 0 where
  pub index : Bytes
  pub balance : Bytes
  pub status : Bytes

-- `BeaconNodeApi::get_known_validator`, over `str::parse::<u64>` and `hex::encode`; a text is shown as
-- it is.
unfoldable pub get_known_validator :
    (b : Bls)
    → (Bytes → Message)
    → (Bytes → Result Message ℕ)
    → (Bytes → Bytes)
    → (Response → Result Message ValidatorData)
    → (Bytes → Result Message Response)
    → Bytes
    → BlsPublicKey b
    → Result BeaconError KnownValidator
unfolding get_json
get_known_validator b show parse encode json get url pubkey = do
  data_read ←
      get_json json get
        (url ++ codes "eth/v1/beacon/states/head/validators/0x" ++ encode (pk_serialize b pubkey))
  index ←
      map_err (parse data_read.index)
        (λ e. sse (text "invalid validator index '" ∷ show data_read.index ++ text "': " ∷ e))
  balance ←
      map_err (parse data_read.balance)
        (λ e. sse (text "invalid balance '" ∷ show data_read.balance ++ text "': " ∷ e))
  ok (record { index = index; balance = balance; status = data_read.status })

-- Fork data that a node's answer gives have a version of 4 bytes and a root of 32, and the same for
-- the builder domain as for the proposer domain.
pub get_fork_data-ok :
    (decode : Bytes → Result Message Bytes) (json : Response → Result Message ForkDataResp)
    (get : Bytes → Result Message Response) (url : Bytes) (fds : ForkDatas)
    → get_fork_data decode json get url ≡ ok fds
    → (length fds.builder.current_version ≡ 4)
      × (length fds.builder.genesis_validators_root ≡ 32)
      × (fds.proposer ≡ fds.builder)
unfolding get_fork_data hex_array_4
get_fork_data-ok decode json get url fds e =
    let (resp, _, e1) =
      >>=-eq-ok (get_json json get (url ++ codes "eth/v2/debug/beacon/states/head")) _ e in
    let (gvr, _, e2) = >>=-eq-ok (map_err (decode (trim_0x resp.genesis_validators_root)) _) _ e1 in
    elim (Result-cases (hex_array_4 decode 4 resp.current_version)) [
      | inr (x, p) ↦ absurd (ground (arith, p, e2))
      | inl (cv, p) ↦
          let (bytes, _, q) = >>=-eq-ok (map_err (decode (trim_0x resp.current_version)) _) _ p in
          (ground (arith, p, q, e2), ground (arith, p, e2), ground (arith, p, e2))
    ]
