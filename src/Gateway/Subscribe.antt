-- ===== src/Gateway/Subscribe.antt =====
-- crates/gateway/src/beacon/events/mod.rs: `BeaconEventsClient`, which subscribes to the two topics of
-- events and tries again until the node accepts. What the node answers to the requests is a list, one
-- element for each of them in their order.
use mev_relay_rs.Prelude.{
  ℕ, ◌+◌, ◌*◌, ◌≡◌, refl, List, [], ◌∷◌, ◌++◌, map, length, Bytes, codes, Option, none, some,
  Message, Result, ok, err, map_err, ◌>>=◌, All, arith,
}
use mev_relay_rs.Gateway.Events.{
  BeaconError, EventCodec, Poll, pending, ready, http, SseByteStream, new_stream, poll_next,
}
use mev_relay_rs.Gateway.Head.{check_status}
use mev_relay_rs.Gateway.Merged.{EventStream, BeaconEventsStream}
use mev_relay_rs.Gateway.Node.{Response}

-- A node's answer to the GET of an address, with what the polls of its body then return.
abbrev pub Node : Type 0
Node = Bytes → Result Message (Response × List (Poll (Result Message Bytes)))

-- The slice method `join`
unfoldable pub join : Bytes → List Bytes → Bytes
join separator [] = []
join separator (x ∷ []) = x
join separator (x ∷ y ∷ xs) = x ++ separator ++ join separator (y ∷ xs)

-- `chunk.map_err(BeaconError::Http)` under the poll
unfoldable pub chunk_error : Poll (Result Message Bytes) → Poll (Result BeaconError Bytes)
chunk_error pending = pending
chunk_error (ready none) = ready none
chunk_error (ready (some chunk)) = ready (some (map_err chunk http))

abbrev pub retry_delay_secs : ℕ
retry_delay_secs = 5

-- What `subscribe_with_retry` leaves: the stream, the seconds slept, and the answers not asked for.
pub record Subscribed (T : Type 0) : Type 0 where
  pub stream : T
  pub slept : ℕ
  pub later : List Node

module _ (k : EventCodec) (url : Bytes) where
  -- `BeaconEventsClient::subscribe_once`
  unfoldable pub subscribe_once : List Bytes → Node → Result BeaconError (SseByteStream k)
  unfolding join check_status chunk_error new_stream
  subscribe_once topics node = do
    answer ← map_err (node (url ++ codes "eth/v1/events?topics=" ++ join (codes ",") topics)) http
    _ ← check_status answer.0
    ok (new_stream k (map chunk_error answer.1))

  -- What `subscribe_with_retry` adds for a failed attempt.
  abbrev retried : {T : Type 0} → Option (Subscribed T) → Option (Subscribed T)
  retried none = none
  retried (some s) = some (record s { slept = retry_delay_secs + s.slept })

  -- `BeaconEventsClient::subscribe_with_retry`; `none` while it still tries.
  unfoldable pub subscribe_with_retry :
      List Bytes → List Node → Option (Subscribed (SseByteStream k))
  unfolding subscribe_once
  subscribe_with_retry topics [] = none
  subscribe_with_retry topics (node ∷ later) = elim (subscribe_once topics node) [
    | ok s ↦ some (record { stream = s; slept = 0; later = later })
    | err e ↦ retried (subscribe_with_retry topics later)
  ]

  abbrev pub head_topics : List Bytes
  head_topics = codes "head" ∷ []

  abbrev pub payload_attributes_topics : List Bytes
  payload_attributes_topics = codes "payload_attributes" ∷ []

  -- `SseByteStream` as a stream of events.
  abbrev pub sse_stream : EventStream
  sse_stream = record { State = SseByteStream k; poll_next = poll_next k }

  -- `BeaconEventsClient::new_head`
  unfoldable pub new_head : List Node → Option (Subscribed (SseByteStream k))
  unfolding subscribe_with_retry
  new_head = subscribe_with_retry head_topics

  -- `BeaconEventsClient::payload_attributes`
  unfoldable pub payload_attributes : List Node → Option (Subscribed (SseByteStream k))
  unfolding subscribe_with_retry
  payload_attributes = subscribe_with_retry payload_attributes_topics

  -- `BeaconConnection::stream`
  unfoldable pub stream : List Node → Option (Subscribed (BeaconEventsStream sse_stream sse_stream))
  unfolding new_head payload_attributes
  stream nodes = elim (payload_attributes nodes) [
    | none ↦ none
    | some pa ↦ elim (new_head pa.later) [
      | none ↦ none
      | some head ↦ some (record {
        stream = record { payload_attributes = pa.stream; new_head = head.stream };
        slept = pa.slept + head.slept;
        later = head.later;
      })
    ]
  ]

  abbrev pub Refuses : List Bytes → Node → Type 0
  Refuses topics node = (e : BeaconError) × (subscribe_once topics node ≡ err e)

  retry-ok :
      (topics : List Bytes) (fails : List Node) (node : Node) (later : List Node)
      (s : SseByteStream k)
      → All (Refuses topics) fails
      → subscribe_once topics node ≡ ok s
      → subscribe_with_retry topics (fails ++ node ∷ later)
        ≡ some (record { stream = s; slept = retry_delay_secs * length fails; later = later })
  unfolding subscribe_with_retry
  retry-ok topics [] node later s h e = rw (subscribe_with_retry, e) refl
  retry-ok topics (f ∷ fails) node later s ((x, p), h) e =
      rw (subscribe_with_retry, p, retry-ok topics fails node later s h e) (ground arith)

  retry-none :
      (topics : List Bytes) (fails : List Node)
      → All (Refuses topics) fails
      → subscribe_with_retry topics fails ≡ none
  unfolding subscribe_with_retry
  retry-none topics [] h = refl
  retry-none topics (f ∷ fails) ((x, p), h) =
      rw (subscribe_with_retry, p, retry-none topics fails h) refl

  module _ (before between later : List Node) (first second : Node) (p q : SseByteStream k)
      (h : All (Refuses payload_attributes_topics) before)
      (hp : subscribe_once payload_attributes_topics first ≡ ok p)
      (g : All (Refuses head_topics) between) (hq : subscribe_once head_topics second ≡ ok q) where
    -- The client connects at the first answer that accepts the payload attributes and the first after
    -- it that accepts the heads, whatever the failures before each, having slept five seconds for
    -- every failure and asked for nothing more; while the heads are refused, it goes on trying.
    pub stream_lem :
        (stream (before ++ (first ∷ between ++ second ∷ later))
          ≡ some (record {
            stream = record { payload_attributes = p; new_head = q };
            slept = retry_delay_secs * (length before + length between);
            later = later;
          }))
        × (stream (before ++ first ∷ between) ≡ none)
        × (stream before ≡ none)
    unfolding stream new_head payload_attributes
    stream_lem =
        let pa = retry-ok payload_attributes_topics before first in
        let hd = retry-ok head_topics between second later q g hq in
        (
          rw (stream, payload_attributes, pa (between ++ second ∷ later) p h hp, new_head, hd)
              (ground arith),
          rw
              (
                stream,
                payload_attributes,
                pa between p h hp,
                new_head,
                retry-none head_topics between g,
              )
              refl,
          rw (stream, payload_attributes, retry-none payload_attributes_topics before h) refl,
        )
