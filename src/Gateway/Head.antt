-- ===== src/Gateway/Head.antt =====
-- crates/gateway/src/beacon/api.rs: the head slot, the sync status and the event subscription of a
-- beacon node. `serde_json::Value` and `str::parse::<u64>` are parameters.
use Prim.Native.String.{String}
use mev_relay_rs.Prelude.{
  ℕ, not, List, ◌∷◌, ◌++◌, Bytes, codes, Option, Message, msg, text, Result, ok, err, map_err,
  ok_or, ◌>>=◌, if◌then◌else◌,
}
use mev_relay_rs.Entity.Validator.{SyncStatus}
use mev_relay_rs.Gateway.Events.{BeaconError, http, api, deserialize, sse}
use mev_relay_rs.Gateway.Node.{Response, is_success, or_empty, get_json}

-- `serde_json::Value`: indexing by a key, `as_str`, and what `json!` builds objects and strings with.
pub record Json : Type 1 where
  pub Value : Type 0
  pub index : Value → String → Value
  pub as_str : Value → Option Bytes
  pub object : List (String × Value) → Value
  pub string : Bytes → Value

-- The check of a response's status: an error carries the status and the text of the body.
unfoldable pub check_status : Response → Result BeaconError Response
check_status resp =
    if not (is_success resp) then err (api resp.status (or_empty resp.text)) else ok resp

-- `client.get(url).send()`, and the check that follows it
unfoldable pub checked : Result Message Response → Result BeaconError Response
unfolding check_status
checked sent = map_err sent http >>= check_status

-- `BeaconNodeApi::fetch_head_slot`, over what a GET of an address gives
unfoldable pub fetch_head_slot :
    (j : Json)
    → (Response → Result Message j.Value)
    → (Bytes → Result Message ℕ)
    → (Bytes → Result Message Response)
    → Bytes
    → Result BeaconError ℕ
unfolding checked
fetch_head_slot j json parse get url = do
  resp ← checked (get (url ++ codes "eth/v1/beacon/headers/head"))
  body ← map_err (json resp) deserialize
  slot ←
      ok_or (j.as_str (j.index (j.index (j.index (j.index body "data") "header") "message") "slot"))
        (sse (msg "no slot in head response"))
  map_err (parse slot) (λ e. sse (text "slot parse failed: " ∷ e))

-- `BeaconNodeApi::subscribe_events`
unfoldable pub subscribe_events :
    (Bytes → Result Message Response) → Bytes → Result BeaconError Response
unfolding checked
subscribe_events get url =
    checked (get (url ++ codes "eth/v1/events?topics=head,payload_attributes"))

-- `BeaconNodeApi::sync_status`; `json` reads a `SyncStatusResponse`, whose only field is the status.
unfoldable pub sync_status :
    (Response → Result Message SyncStatus)
    → (Bytes → Result Message Response)
    → Bytes
    → Result BeaconError SyncStatus
unfolding get_json
sync_status json get url = get_json json get (url ++ codes "eth/v1/node/syncing")
