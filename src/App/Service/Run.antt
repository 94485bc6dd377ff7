-- ===== src/App/Service/Run.antt =====
-- crates/app/src/relay_service.rs: the task of the relay. It reads the event stream of the beacon node
-- until that ends, and polls the head slot from then on. The connections and the ticks of the timer
-- that the task meets are lists, in their order.
pub mod Laws
use mev_relay_rs.Prelude.{
  ℕ, Bool, true, false, List, [], ◌∷◌, Bytes, Option, none, some, Message, msg, Result, ok, err,
  map_err,
}
use mev_relay_rs.Crypto.Blst.{Bls}
use mev_relay_rs.Datastore.Storage.{Storage}
use mev_relay_rs.Gateway.Events.{BeaconError}
use mev_relay_rs.Gateway.Head.{Json, fetch_head_slot, subscribe_events}
use mev_relay_rs.Gateway.Node.{Response}
use mev_relay_rs.App.Service.{Calls, Sse, take_chunk, poll_head_slot}

-- The beacon node's address, and what its answers are read with: `String::from_utf8_lossy`, the
-- `json` of a response, `str::parse::<u64>`, and how an error is shown.
pub record BeaconClient : Type 1 where
  pub url : Bytes
  pub from_utf8_lossy : Bytes → Bytes
  pub values : Json
  pub json : Response → Result Message values.Value
  pub parse : Bytes → Result Message ℕ
  pub show : BeaconError → Message

-- What the node answers to one subscription: to the request, then the chunks of the body as far as
-- they have come, and whether the body has ended.
pub record Connection : Type 0 where
  pub answer : Bytes → Result Message Response
  pub chunks : List (Result Message Bytes)
  pub ended : Bool

module _ {b : Bls} (S : Storage b) (k : Calls b) (slots_per_epoch : ℕ) (n : BeaconClient) where
  -- How far a subscription is: a handler has panicked, it is still read, or it has returned.
  pub data Progress : Type 0 where
    panicked : Progress
    connected : Sse S k slots_per_epoch → Progress
    returned : Result Message (Unit {0}) → S.State → Progress

  -- The `while let` loop of `connect_sse` over the chunks.
  unfoldable pub read_chunks :
      List (Result Message Bytes) → Bool → Sse S k slots_per_epoch → Progress
  unfolding take_chunk
  read_chunks [] true s = returned (err (msg "SSE stream ended")) s.storage
  read_chunks [] false s = connected s
  read_chunks (err e ∷ chunks) ended s = returned (err e) s.storage
  read_chunks (ok bytes ∷ chunks) ended s =
      elim (take_chunk S k slots_per_epoch (n.from_utf8_lossy bytes) s) [
        | none ↦ panicked
        | some s' ↦ read_chunks chunks ended s'
      ]

  abbrev pub new_sse : S.State → Sse S k slots_per_epoch
  new_sse s = record { line_buf = []; current_event = none; storage = s }

  -- `connect_sse`
  unfoldable pub connect_sse : Connection → S.State → Progress
  unfolding read_chunks subscribe_events
  connect_sse c s = elim (map_err (subscribe_events c.answer n.url) n.show) [
    | err e ↦ returned (err e) s
    | ok response ↦ read_chunks c.chunks c.ended (new_sse s)
  ]

  -- `polling_loop`, which never returns; `none` is a panic.
  unfoldable pub polling_loop : List (Bytes → Result Message Response) → S.State → Option S.State
  unfolding fetch_head_slot poll_head_slot
  polling_loop [] s = some s
  polling_loop (get ∷ ticks) s =
      elim (poll_head_slot S k slots_per_epoch
        (map_err (fetch_head_slot n.values n.json n.parse get n.url) n.show) s) [
          | none ↦ none
          | some s' ↦ polling_loop ticks s'
        ]

  -- `RelayService::run`; `none` is a panic.
  unfoldable pub run :
      List Connection → List (Bytes → Result Message Response) → S.State → Option S.State
  unfolding connect_sse polling_loop
  run [] ticks s = some s
  run (c ∷ connections) ticks s = elim (connect_sse c s) [
    | panicked ↦ none
    | connected t ↦ some t.storage
    | returned (ok u) s' ↦ run connections ticks s'
    | returned (err e) s' ↦ polling_loop ticks s'
  ]
