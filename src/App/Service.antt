-- ===== src/App/Service.antt =====
-- crates/app/src/relay_service.rs: events of the beacon node change the head, the payload attributes
-- and the duties. `tokio`'s timers, `serde_json`, the text decoding and the node are parameters.
pub mod Duties
pub mod Lines
pub mod Run
use mev_relay_rs.Prelude.{
  ℕ, suc, zero, ◌+◌, ◌%◌, Bool, true, false, not, List, [], ◌∷◌, ◌++◌, Bytes, codes, filter,
  is_some, is_empty, Option, none, some, Result, ok, err, Message, bytes_eq, ◌==◌, if◌then◌else◌,
}
use mev_relay_rs.Crypto.Blst.{Bls}
use mev_relay_rs.Entity.Types.{B256, Address, u64_mod}
use mev_relay_rs.Entity.Validator.{ProposerDuty, PayloadAttributes}
use mev_relay_rs.Entity.HeadSlot.{HeadSlot, is_duty_refresh_slot, epoch}
use mev_relay_rs.Entity.BeaconEvent.{
  BeaconEvent, HeadEvent, PayloadAttributesEvent, head, payload_attributes,
}
use mev_relay_rs.Datastore.Storage.{Storage}
use mev_relay_rs.Gateway.Events.Text.{strip_prefix}

-- What the service calls: `serde_json::from_str` at the event types, `str::trim`, the `parse` of the
-- two hexadecimal types, and `proposer_duties` of the `BeaconHandle`.
pub record Calls (b : Bls) : Type 0 where
  pub trim : Bytes → Bytes
  pub head_event : Bytes → Option HeadEvent
  pub payload_attributes_event : Bytes → Option PayloadAttributesEvent
  pub parse_b256 : Bytes → Option B256
  pub parse_address : Bytes → Option Address
  pub proposer_duties : ℕ → Result Message (List (ProposerDuty b))

module _ {b : Bls} (S : Storage b) (k : Calls b) (slots_per_epoch : ℕ) where
  -- `filter_duties`
  unfoldable pub filter_duties : List (ProposerDuty b) → S.State → List (ProposerDuty b)
  filter_duties duties s =
      if S.empty_validator_regs s
      then []
      else filter (λ d. is_some (S.read_validator_registration d.pubkey s)) duties

  -- `sync_duties`; the sum wraps, as in a release build.
  unfoldable pub sync_duties : ℕ → S.State → Result Message (Unit {0}) × S.State
  unfolding filter_duties
  sync_duties e s = elim (k.proposer_duties e) [
    | err x ↦ (err x, s)
    | ok duties ↦
        let filtered = filter_duties duties s in
        elim (k.proposer_duties ((e + 1) % u64_mod)) [
          | ok next ↦ (ok tt, S.set_proposer_duties (filtered ++ filter_duties next s) s)
          | err x ↦ (ok tt, S.set_proposer_duties filtered s)
        ]
  ]

  -- `handle_head_event`; `none` is the panic of a division by zero. A failed sync is only logged.
  unfoldable pub handle_head_event : HeadEvent → S.State → Option S.State
  unfolding sync_duties
  handle_head_event event s =
      let slot : HeadSlot = record { slot = event.slot } in
      let s' = S.set_head_slot slot s in
      elim (is_duty_refresh_slot slot slots_per_epoch) [
        | none ↦ none
        | some false ↦ some s'
        | some true ↦ elim (epoch slot slots_per_epoch) [
          | none ↦ none
          | some current_epoch ↦ some (sync_duties current_epoch s').1
        ]
      ]

  -- One tick of `polling_loop`, with the slot that the node gave, if it gave one.
  unfoldable pub poll_head_slot : Result Message ℕ → S.State → Option S.State
  unfolding sync_duties
  poll_head_slot (err x) s = some s
  poll_head_slot (ok n) s =
      let slot : HeadSlot = record { slot = n } in
      let s' = S.set_head_slot slot s in
      elim (epoch slot slots_per_epoch) [
        | none ↦ none
        | some e ↦ elim (is_duty_refresh_slot slot slots_per_epoch) [
          | none ↦ none
          | some true ↦ some (sync_duties e s').1
          | some false ↦ some s'
        ]
      ]

  -- `handle_payload_attributes_event`
  unfoldable pub handle_payload_attributes_event : PayloadAttributesEvent → S.State → S.State
  handle_payload_attributes_event event s =
      let inner = event.contents.payload_attributes in
      elim (k.parse_b256 inner.prev_randao) [
        | none ↦ s
        | some prev_randao ↦ elim (k.parse_address inner.suggested_fee_recipient) [
          | none ↦ s
          | some suggested_fee_recipient ↦
              S.set_payload_attributes
                (record {
                  timestamp = inner.timestamp;
                  prev_randao = prev_randao;
                  suggested_fee_recipient = suggested_fee_recipient;
                })
                s
        ]
      ]

  -- `handle_event`
  unfoldable pub handle_event : BeaconEvent → S.State → Option S.State
  unfolding handle_head_event handle_payload_attributes_event
  handle_event (head e) s = handle_head_event e s
  handle_event (payload_attributes e) s = some (handle_payload_attributes_event e s)

  abbrev pub event_of : {T : Type 0} → (T → BeaconEvent) → Option T → Option BeaconEvent
  event_of f none = none
  event_of f (some t) = some (f t)

  -- `line.starts_with(':')`
  abbrev starts_with_colon : Bytes → Bool
  starts_with_colon [] = false
  starts_with_colon (c ∷ s) = c == 58

  -- `process_sse_line`, with the event type that is waiting for its data
  unfoldable pub process_sse_line : Bytes → Option Bytes → Option BeaconEvent × Option Bytes
  process_sse_line line current_event = elim (is_empty line) [
    | true ↦ (none, current_event)
    | false ↦ elim (starts_with_colon line) [
      | true ↦ (none, current_event)
      | false ↦ elim (strip_prefix (codes "event: ") line) [
        | some event ↦ (none, some (k.trim event))
        | none ↦ elim (strip_prefix (codes "data: ") line) [
          | none ↦ (none, current_event)
          | some data_read ↦ elim current_event [
            | none ↦ (none, none)
            | some event_type ↦
                if bytes_eq event_type (codes "head")
                then (event_of head (k.head_event data_read), none)
                else if bytes_eq event_type (codes "payload_attributes")
                then (event_of payload_attributes (k.payload_attributes_event data_read), none)
                else (none, none)
          ]
        ]
      ]
    ]
  ]

  -- What `connect_sse` keeps between chunks, and the storage that its events change.
  pub record Sse : Type 0 where
    pub line_buf : Bytes
    pub current_event : Option Bytes
    pub storage : S.State

  -- One complete line; `none` is a panic of a handler.
  unfoldable pub take_line : Bytes → Option Bytes → S.State → Option (Option Bytes × S.State)
  unfolding process_sse_line handle_event
  take_line line current_event s =
      let (found, current) = process_sse_line line current_event in
      elim found [
        | none ↦ some (current, s)
        | some event ↦ elim (handle_event event s) [ none ↦ none | some s' ↦ some (current, s') ]
      ]

  -- `while let Some(pos) = line_buf.find('\n')`: the buffer is read on from its start, `line` being
  -- what was read of the line so far; what is left of the buffer is a line without its end.
  unfoldable pub take_lines : Bytes → Bytes → Option Bytes → S.State → Option Sse
  unfolding take_line
  take_lines line [] current s =
      some (record { line_buf = line; current_event = current; storage = s })
  take_lines line (c ∷ rest) current s = elim (c == 10) [
    | false ↦ take_lines (line ++ c ∷ []) rest current s
    | true ↦ elim (take_line line current s) [
      | none ↦ none
      | some (current', s') ↦ take_lines [] rest current' s'
    ]
  ]

  -- One chunk of `connect_sse`, decoded
  unfoldable pub take_chunk : Bytes → Sse → Option Sse
  unfolding take_lines
  take_chunk chunk s = take_lines [] (s.line_buf ++ chunk) s.current_event s.storage
