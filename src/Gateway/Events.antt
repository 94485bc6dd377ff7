-- ===== src/Gateway/Events.antt =====
-- crates/gateway/src/beacon/events/mod.rs: server-sent events from a stream of bytes.
pub mod Text
pub mod Parsing
use mev_relay_rs.Prelude.{
  ℕ, suc, zero, ◌+◌, ◌≡◌, ◌≢◌, refl, ap, Bool, true, false, not, List, [], ◌∷◌, ◌++◌, Bytes, codes,
  length, take, drop, Option, none, some, Result, ok, err, Message, bytes_eq, is_empty, ltb,
  if◌then◌else◌, arith, All,
}
use mev_relay_rs.Gateway.Events.Text.{windows, position, strip_prefix, lines}
use mev_relay_rs.Entity.BeaconEvent.{
  BeaconEvent, HeadEvent, PayloadAttributesEvent, head, payload_attributes,
}

-- `BeaconError`, with the `reqwest` errors as texts.
pub data BeaconError : Type 0 where
  http : Message → BeaconError
  api : ℕ → Message → BeaconError
  deserialize : Message → BeaconError
  sse : Message → BeaconError
  channel : Message → BeaconError

-- `serde_json::from_str` at the two event types, `str::from_utf8` and `str::trim`.
pub record EventCodec : Type 0 where
  pub from_utf8 : Bytes → Option Bytes
  pub trim : Bytes → Bytes
  pub head_event : Bytes → Result Message HeadEvent
  pub payload_attributes_event : Bytes → Result Message PayloadAttributesEvent

pub data Poll (T : Type 0) : Type 0 where
  pending : Poll T
  ready : Option T → Poll T

module _ (k : EventCodec) where
  -- The loop of `parse_event` over the lines: the event type and the data so far.
  unfoldable pub parse_lines : List Bytes → Option Bytes → Bytes → Option Bytes × Bytes
  parse_lines [] event_type event_data = (event_type, event_data)
  parse_lines (line ∷ rest) event_type event_data = elim (strip_prefix (codes "event: ") line) [
    | some val ↦ parse_lines rest (some (k.trim val)) event_data
    | none ↦ elim (strip_prefix (codes "data: ") line) [
      | some val ↦
          let spaced = if not (is_empty event_data) then event_data ++ 32 ∷ [] else event_data in
          parse_lines rest event_type (spaced ++ k.trim val)
      | none ↦ parse_lines rest event_type event_data
    ]
  ]

  abbrev pub as_event :
      {T : Type 0} → Result Message T → (T → BeaconEvent) → Result BeaconError BeaconEvent
  as_event (ok t) f = ok (f t)
  as_event (err e) f = err (sse e)

  -- `SseByteStream::parse_event`
  unfoldable pub parse_event : Bytes → Option (Result BeaconError BeaconEvent)
  unfolding parse_lines
  parse_event data_bytes = elim (k.from_utf8 data_bytes) [
    | none ↦ none
    | some text ↦
        let (found, event_data) = parse_lines (lines text) none [] in
        elim found [
          | none ↦ none
          | some event_type ↦
              if is_empty event_data
              then none
              else if bytes_eq event_type (codes "head")
              then some (as_event (k.head_event event_data) head)
              else if bytes_eq event_type (codes "payload_attributes")
              then some (as_event (k.payload_attributes_event event_data) payload_attributes)
              else none
        ]
  ]

  -- The underlying stream is the list of what its polls return; after the last it stays pending.
  pub record SseByteStream : Type 0 where
    pub stream : List (Poll (Result BeaconError Bytes))
    pub buffer : Bytes
    pub pending_events : List (Result BeaconError BeaconEvent)

  -- `SseByteStream::new`
  unfoldable pub new_stream : List (Poll (Result BeaconError Bytes)) → SseByteStream
  new_stream stream = record { stream = stream; buffer = []; pending_events = [] }

  abbrev pushed : Option (Result BeaconError BeaconEvent) → SseByteStream → SseByteStream
  pushed none s = s
  pushed (some e) s = record s { pending_events = s.pending_events ++ e ∷ [] }

  -- `w == b"\n\n"`: slices of different lengths are not equal.
  abbrev is_end : Bytes → Bool
  is_end w = bytes_eq w (10 ∷ 10 ∷ [])

  -- The loop of `drain_buffer`. Each round takes at least 4 bytes, so the length of the buffer is
  -- enough fuel.
  unfoldable pub drain_loop : ℕ → SseByteStream → SseByteStream
  unfolding parse_event
  drain_loop zero s = s
  drain_loop (suc fuel) s = elim (position is_end (windows 4 s.buffer)) [
    | none ↦ s
    | some pos ↦
        let complete = take pos s.buffer in
        let drained = record s { buffer = drop (pos + 4) s.buffer } in
        elim (is_empty complete) [
          | true ↦ drain_loop fuel drained
          | false ↦ drain_loop fuel (pushed (parse_event complete) drained)
        ]
  ]

  -- `SseByteStream::drain_buffer`
  unfoldable pub drain_buffer : SseByteStream → SseByteStream
  unfolding drain_loop
  drain_buffer s = drain_loop (suc (length s.buffer)) s

  -- The `while let` loop of `poll_next`.
  unfoldable pub poll_stream :
      List (Poll (Result BeaconError Bytes))
      → Bytes
      → Poll (Result BeaconError BeaconEvent) × SseByteStream
  unfolding drain_buffer
  poll_stream [] buffer = (pending, record { stream = []; buffer = buffer; pending_events = [] })
  poll_stream (pending ∷ rest) buffer =
      (pending, record { stream = rest; buffer = buffer; pending_events = [] })
  poll_stream (ready none ∷ rest) buffer =
      (ready none, record { stream = rest; buffer = buffer; pending_events = [] })
  poll_stream (ready (some (err e)) ∷ rest) buffer =
      (ready (some (err e)), record { stream = rest; buffer = buffer; pending_events = [] })
  poll_stream (ready (some (ok bytes)) ∷ rest) buffer =
      let s =
        drain_buffer (record { stream = rest; buffer = buffer ++ bytes; pending_events = [] }) in
      elim s.pending_events [
        | event ∷ events ↦ (ready (some event), record s { pending_events = events })
        | [] ↦ poll_stream rest s.buffer
      ]

  -- `SseByteStream::poll_next`
  unfoldable pub poll_next : SseByteStream → Poll (Result BeaconError BeaconEvent) × SseByteStream
  unfolding poll_stream
  poll_next s = elim s.pending_events [
    | event ∷ events ↦ (ready (some event), record s { pending_events = events })
    | [] ↦ poll_stream s.stream s.buffer
  ]

  -- The results of `n` polls.
  pub polls : ℕ → SseByteStream → List (Poll (Result BeaconError BeaconEvent))
  polls zero s = []
  polls (suc n) s = let (result, s') = poll_next s in result ∷ polls n s'

  no_end : (buffer : Bytes) → position is_end (windows 4 buffer) ≡ none
  unfolding windows position
  no_end [] = refl
  no_end (a ∷ []) = refl
  no_end (a ∷ b ∷ []) = refl
  no_end (a ∷ b ∷ c ∷ []) = refl
  no_end (a ∷ b ∷ c ∷ d ∷ s) = ground (arith, no_end (b ∷ c ∷ d ∷ s))

  drain_buffer_keeps : (s : SseByteStream) → drain_buffer s ≡ s
  unfolding drain_buffer drain_loop
  drain_buffer_keeps s = rw (drain_loop, no_end s.buffer) refl

  abbrev pub NoEvent : Poll (Result BeaconError BeaconEvent) → Type 0
  NoEvent p = (e : BeaconEvent) → p ≢ ready (some (ok e))

  -- A chunk is only appended to the buffer.
  poll_chunk :
      (bytes : Bytes) (rest : List (Poll (Result BeaconError Bytes))) (buffer : Bytes)
      → poll_stream (ready (some (ok bytes)) ∷ rest) buffer ≡ poll_stream rest (buffer ++ bytes)
  unfolding poll_stream
  poll_chunk bytes rest buffer =
      ap
        (λ (s : SseByteStream).
          elim s.pending_events as (λ _. Poll (Result BeaconError BeaconEvent) × SseByteStream) [
            | event ∷ events ↦ (ready (some event), record s { pending_events = events })
            | [] ↦ poll_stream rest s.buffer
          ])
        (drain_buffer_keeps
          (record { stream = rest; buffer = buffer ++ bytes; pending_events = [] }))

  poll_stream-NoEvent :
      (stream : List (Poll (Result BeaconError Bytes))) (buffer : Bytes)
      → NoEvent (poll_stream stream buffer).0 × ((poll_stream stream buffer).1.pending_events ≡ [])
  unfolding poll_stream
  poll_stream-NoEvent [] buffer = (λ e p. cc, refl)
  poll_stream-NoEvent (pending ∷ rest) buffer = (λ e p. cc, refl)
  poll_stream-NoEvent (ready none ∷ rest) buffer = (λ e p. cc, refl)
  poll_stream-NoEvent (ready (some (err x)) ∷ rest) buffer = (λ e p. cc, refl)
  poll_stream-NoEvent (ready (some (ok bytes)) ∷ rest) buffer =
      rw (poll_chunk bytes rest buffer) (poll_stream-NoEvent rest (buffer ++ bytes))

  -- A poll of a stream on which no event waits returns none, and leaves none waiting.
  pub poll_next-NoEvent :
      (s : SseByteStream)
      → s.pending_events ≡ []
      → NoEvent (poll_next s).0 × ((poll_next s).1.pending_events ≡ [])
  unfolding poll_next
  poll_next-NoEvent s e = rw e (poll_stream-NoEvent s.stream s.buffer)

  polls-NoEvent_from : (n : ℕ) (s : SseByteStream) → s.pending_events ≡ [] → All NoEvent (polls n s)
  unfolding polls
  polls-NoEvent_from zero s e = tt
  polls-NoEvent_from (suc n) s e =
      let (quiet, empty) = poll_next-NoEvent s e in (quiet, polls-NoEvent_from n _ empty)

  -- Whatever bytes the beacon node sends and however it cuts them into chunks, no poll of the stream
  -- ever returns an event, since a window of four bytes is never equal to the two of the separator.
  pub polls-NoEvent :
      (n : ℕ) (stream : List (Poll (Result BeaconError Bytes)))
      → All NoEvent (polls n (new_stream stream))
  unfolding new_stream
  polls-NoEvent n stream = polls-NoEvent_from n (new_stream stream) refl
