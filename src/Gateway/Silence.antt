-- ===== src/Gateway/Silence.antt =====
-- The events of crates/gateway/src/beacon/events/ as a whole: what a connection's merged stream gives.
use mev_relay_rs.Prelude.{
  ℕ, suc, zero, ◌≡◌, ◌≢◌, inl, inr, refl, ap, ◌∙◌, Bytes, List, [], ◌∷◌, none, some, Result, ok,
  err, All, arith, Option-cases, Result-cases,
}
use mev_relay_rs.Entity.BeaconEvent.{BeaconEvent}
use mev_relay_rs.Gateway.Events.{
  BeaconError, EventCodec, Poll, pending, ready, SseByteStream, poll_next-NoEvent,
}
use mev_relay_rs.Gateway.Merged.{
  EventStream, BeaconEventsStream, poll_merged, poll_merged-moves, poll_merged-NoError, Silent,
}
use mev_relay_rs.Gateway.Subscribe.{
  Node, Subscribed, subscribe_once, subscribe_with_retry, new_head, payload_attributes, stream,
  sse_stream, head_topics, payload_attributes_topics,
}

-- The results of `n` polls of two streams that are merged.
pub merged_polls :
    {P H : EventStream} → ℕ → BeaconEventsStream P H → List (Poll (Result BeaconError BeaconEvent))
merged_polls zero s = []
merged_polls {P} {H} (suc n) s = let (result, s') = poll_merged P H s in result ∷ merged_polls n s'

neither-Silent :
    (p : Poll (Result BeaconError BeaconEvent))
    → ((x : BeaconError) → p ≢ ready (some (err x)))
    → ((e : BeaconEvent) → p ≢ ready (some (ok e)))
    → Silent p
neither-Silent pending no_error no_event = inl refl
neither-Silent (ready none) no_error no_event = inr refl
neither-Silent (ready (some (ok e))) no_error no_event = absurd (no_event e refl)
neither-Silent (ready (some (err x))) no_error no_event = absurd (no_error x refl)

module _ (k : EventCodec) (url : Bytes) where
  abbrev sse : EventStream
  sse = sse_stream k url

  -- No event waits in either stream.
  abbrev Drained : BeaconEventsStream sse sse → Type 0
  Drained s = (s.payload_attributes.pending_events ≡ []) × (s.new_head.pending_events ≡ [])

  once_empty :
      (topics : List Bytes) (node : Node) (s : SseByteStream k)
      → subscribe_once k url topics node ≡ ok s
      → s.pending_events ≡ []
  unfolding subscribe_once
  once_empty topics node s e = ground arith

  subscribed_empty :
      (topics : List Bytes) (nodes : List Node) (s : Subscribed (SseByteStream k))
      → subscribe_with_retry k url topics nodes ≡ some s
      → s.stream.pending_events ≡ []
  unfolding subscribe_with_retry
  subscribed_empty topics [] s e = cc
  subscribed_empty topics (node ∷ later) s e =
      elim (Result-cases (subscribe_once k url topics node)) [
        | inl (t, q) ↦ ground (arith, q, once_empty topics node t q)
        | inr (x, q) ↦ elim (Option-cases (subscribe_with_retry k url topics later)) [
          | inl r ↦ absurd (ground (arith, q, r))
          | inr (t, r) ↦ ground (arith, q, r, subscribed_empty topics later t r)
        ]
      ]

  poll-Silent :
      (s : BeaconEventsStream sse sse)
      → Drained s
      → Silent (poll_merged sse sse s).0 × Drained (poll_merged sse sse s).1
  poll-Silent s (p, h) =
      let (no_pa, pa) = poll_next-NoEvent k s.payload_attributes p in
      let (no_head, hd) = poll_next-NoEvent k s.new_head h in
      let (no_error, from) = poll_merged-NoError sse sse s in
      let (first_moves, second_moves) = poll_merged-moves sse sse s in
      (
        neither-Silent _ no_error
            (λ e q. elim (from e q) [ inl a ↦ no_pa e a | inr (_, b) ↦ no_head e b ]),
        (
          ap (λ t. t.pending_events) first_moves ∙ pa,
          elim second_moves [
            | inl a ↦ ap (λ t. t.pending_events) a ∙ h
            | inr b ↦ ap (λ t. t.pending_events) b ∙ hd
          ],
        ),
      )

  polls-Silent :
      (n : ℕ) (s : BeaconEventsStream sse sse) → Drained s → All Silent (merged_polls n s)
  unfolding merged_polls
  polls-Silent zero s q = tt
  polls-Silent (suc n) s q = let (quiet, q') = poll-Silent s q in (quiet, polls-Silent n _ q')

  -- Once the client is connected, whatever the node refused before and sends after, each poll of the
  -- stream of both topics is pending or ends the stream: neither an event nor an error ever comes.
  pub stream-Silent :
      (nodes : List Node) (x : Subscribed (BeaconEventsStream sse sse)) (n : ℕ)
      → stream k url nodes ≡ some x
      → All Silent (merged_polls n x.stream)
  unfolding stream new_head payload_attributes
  stream-Silent nodes x n e = elim (Option-cases (payload_attributes k url nodes)) [
    | inl p ↦ absurd (ground (arith, p))
    | inr (pa, p) ↦ elim (Option-cases (new_head k url pa.later)) [
      | inl q ↦ absurd (ground (arith, p, q))
      | inr (hd, q) ↦ polls-Silent n x.stream (
        ground (arith, p, q, subscribed_empty (payload_attributes_topics k url) nodes pa p),
        ground (arith, p, q, subscribed_empty (head_topics k url) pa.later hd q),
      )
    ]
  ]
