-- ===== src/Gateway/Publish.antt =====
-- crates/gateway/src/beacon/api.rs: publishing a block. `serde_json`, `hex`, `u64::to_string` and the
-- HTTP client are parameters.
pub mod Exact
use mev_relay_rs.Prelude.{
  ℕ, ◌≡◌, ◌≢◌, ◌↔◌, refl, [], ◌∷◌, ◌++◌, Bytes, codes, replicate, length, Option, none, some,
  Message, msg, text, Result, ok, err, map_err, ok_or, ◌>>=◌, >>=-eq-ok, ◌==◌, if◌then◌else◌, arith,
}
use mev_relay_rs.Entity.Types.{B256}
use mev_relay_rs.Entity.Payload.{ExecutionPayload}
use mev_relay_rs.Gateway.Api.{SignedBeaconBlockContent, SubmissionType, json, ssz}
use mev_relay_rs.Gateway.Events.{BeaconError, deserialize, sse}
use mev_relay_rs.Gateway.Events.Text.{strip_prefix}
use mev_relay_rs.Gateway.Head.{Json, checked}
use mev_relay_rs.Gateway.Node.{Response}

-- What the request is built with: `serde_json::to_value` of a payload, `hex::encode`, `hex::decode`
-- and `u64::to_string`.
pub record Encoders (j : Json) : Type 0 where
  pub to_value : ExecutionPayload → Result Message j.Value
  pub encode : Bytes → Bytes
  pub decode : Bytes → Option Bytes
  pub to_string : ℕ → Bytes

-- The POST: its address, its `Content-Type` header, and the value that `.json(..)` serialises; that
-- keeps a `Content-Type` which is already set.
pub record PublishRequest (j : Json) : Type 0 where
  pub url : Bytes
  pub content_type : Bytes
  pub body : j.Value

module _ (j : Json) (k : Encoders j) where
  abbrev hex_string : Bytes → j.Value
  hex_string bytes = j.string (codes "0x" ++ k.encode bytes)

  -- The placeholder: "0x" and 192 zeros
  abbrev pub no_signature : Bytes
  no_signature = codes "0x" ++ replicate 192 b'0'

  -- The first half of `publish_block`: the request for a block.
  unfoldable pub publish_request :
      Bytes → SignedBeaconBlockContent → SubmissionType → Result BeaconError (PublishRequest j)
  publish_request url block submission_type = do
    execution_payload_json ←
        map_err (k.to_value block.body.execution_payload)
          (λ e. sse (text "serialization error: " ∷ e))
    let body = j.object (
        (
          "message",
          j.object (
              ("slot", j.string (k.to_string block.slot))
              ∷ ("proposer_index", j.string (k.to_string block.proposer_index))
              ∷ ("parent_root", hex_string block.parent_root)
              ∷ ("state_root", hex_string block.state_root)
              ∷ ("body", j.object (("execution_payload", execution_payload_json) ∷ []))
              ∷ []),
        )
        ∷ ("signature", j.string no_signature)
        ∷ [])
    ok (record {
      url = url ++ codes "eth/v1/builder/blocks";
      content_type = elim submission_type [
        | json ↦ codes "application/json"
        | ssz ↦ codes "application/octet-stream"
      ];
      body = body;
    })

  -- The second half: the block root in the answer.
  unfoldable pub block_root_bytes :
      (Response → Result Message j.Value) → Response → Result BeaconError Bytes
  block_root_bytes read resp = do
    resp_body ← map_err (read resp) deserialize
    ok_or
        (elim (j.as_str (j.index resp_body "data")) [
          | none ↦ none
          | some s ↦ elim (strip_prefix (codes "0x") s) [
            | none ↦ none
            | some digits ↦ k.decode digits
          ]
        ])
        (sse (msg "no block_root in response"))

  -- The bytes that the node names as the block's root.
  unfoldable pub posted_root :
      (Response → Result Message j.Value)
      → (PublishRequest j → Result Message Response)
      → Bytes
      → SignedBeaconBlockContent
      → SubmissionType
      → Result BeaconError Bytes
  unfolding publish_request block_root_bytes checked
  posted_root read post url block submission_type = do
    request ← publish_request url block submission_type
    resp ← checked (post request)
    block_root_bytes read resp

  -- `arr.copy_from_slice(..)` into an array of 32 bytes; `none` is its panic on another length.
  unfoldable pub copy_root : Result BeaconError Bytes → Option (Result BeaconError B256)
  copy_root (err e) = some (err e)
  copy_root (ok bytes) = if length bytes == 32 then some (ok bytes) else none

  -- `BeaconNodeApi::publish_block`
  unfoldable pub publish_block :
      (Response → Result Message j.Value)
      → (PublishRequest j → Result Message Response)
      → Bytes
      → SignedBeaconBlockContent
      → SubmissionType
      → Option (Result BeaconError B256)
  unfolding posted_root copy_root
  publish_block read post url block submission_type =
      copy_root (posted_root read post url block submission_type)
