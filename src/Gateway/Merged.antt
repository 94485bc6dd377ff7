-- ===== src/Gateway/Merged.antt =====
-- crates/gateway/src/beacon/events/stream.rs: two event streams merged into one.
use mev_relay_rs.Prelude.{◌≡◌, ◌≢◌, ◌⊎◌, none, some, Result, ok, err, arith}
use mev_relay_rs.Entity.BeaconEvent.{BeaconEvent}
use mev_relay_rs.Gateway.Events.{BeaconError, Poll, pending, ready}

-- An `EventStream` is a state with its `poll_next`.
pub record EventStream : Type 1 where
  pub State : Type 0
  pub poll_next : State → Poll (Result BeaconError BeaconEvent) × State

-- Neither an event nor an error.
abbrev pub Silent : Poll (Result BeaconError BeaconEvent) → Type 0
Silent p = (p ≡ pending) ⊎ (p ≡ ready none)

module _ (P : EventStream) (H : EventStream) where
  pub record BeaconEventsStream : Type 0 where
    pub payload_attributes : P.State
    pub new_head : H.State

  -- the second half of `poll_next`
  abbrev poll_head : BeaconEventsStream → Poll (Result BeaconError BeaconEvent) × BeaconEventsStream
  poll_head s =
      let (polled, t) = H.poll_next s.new_head in
      let s' = record s { new_head = t } in
      elim polled [
        | ready (some (ok event)) ↦ (ready (some (ok event)), s')
        | ready (some (err e)) ↦ (ready none, s')
        | ready none ↦ (ready none, s')
        | pending ↦ (pending, s')
      ]

  -- `BeaconEventsStream::poll_next`
  unfoldable pub poll_merged :
      BeaconEventsStream → Poll (Result BeaconError BeaconEvent) × BeaconEventsStream
  poll_merged s =
      let (polled, t) = P.poll_next s.payload_attributes in
      let s' = record s { payload_attributes = t } in
      elim polled [
        | ready (some (ok event)) ↦ (ready (some (ok event)), s')
        | ready (some (err e)) ↦ (ready none, s')
        | ready none ↦ poll_head s'
        | pending ↦ poll_head s'
      ]

  abbrev pub first : BeaconEventsStream → Poll (Result BeaconError BeaconEvent)
  first s = (P.poll_next s.payload_attributes).0

  abbrev pub second : BeaconEventsStream → Poll (Result BeaconError BeaconEvent)
  second s = (H.poll_next s.new_head).0

  abbrev Fails : Poll (Result BeaconError BeaconEvent) → Type 0
  Fails p = (e : BeaconError) × (p ≡ ready (some (err e)))

  -- A poll never passes an error on: it returns an event of one of the two streams, the heads only
  -- when the payload attributes are silent, or it is pending or ends the stream.
  pub poll_merged-NoError :
      (s : BeaconEventsStream)
      → ((x : BeaconError) → (poll_merged s).0 ≢ ready (some (err x)))
        × ((e : BeaconEvent)
            → (poll_merged s).0 ≡ ready (some (ok e))
            → (first s ≡ ready (some (ok e)))
              ⊎ (Silent (first s) × (second s ≡ ready (some (ok e)))))
  unfolding poll_merged
  poll_merged-NoError s = (λ x p. ground arith, λ e p. ground arith)

  -- A poll polls the payload attributes, and the heads at most once.
  pub poll_merged-moves :
      (s : BeaconEventsStream)
      → ((poll_merged s).1.payload_attributes ≡ (P.poll_next s.payload_attributes).1)
        × (((poll_merged s).1.new_head ≡ s.new_head)
            ⊎ ((poll_merged s).1.new_head ≡ (H.poll_next s.new_head).1))
  unfolding poll_merged
  poll_merged-moves s = (ground arith, ground arith)
