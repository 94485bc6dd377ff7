-- ===== src/Gateway/Service/Handle.antt =====
-- crates/gateway/src/beacon/service/handle.rs: a call through the handle sends a command with a fresh
-- oneshot sender, waits for the future that comes back, and awaits it.
use mev_relay_rs.Prelude.{
  ℕ, ◌+◌, Bool, false, ◌||◌, List, [], ◌∷◌, ◌++◌, Option, none, some, Result, ok, err, msg, ◌==◌,
  if◌then◌else◌,
}
use mathlib.Core.Option
use mev_relay_rs.Crypto.Blst.{Bls}
use mev_relay_rs.Crypto.Keys.{BlsPublicKey}
use mev_relay_rs.Crypto.Fork.{ForkDatas}
use mev_relay_rs.Entity.Types.{B256}
use mev_relay_rs.Entity.Validator.{ProposerDuty, SyncStatus}
use mev_relay_rs.Gateway.Api.{BoxedFuture, SignedBeaconBlockContent, SubmissionType}
use mev_relay_rs.Gateway.Events.{BeaconError, channel}
use mev_relay_rs.Gateway.Node.{KnownValidator}
use mev_relay_rs.Gateway.Service.{
  BeaconCommands, Reply, Sender, Channels, sender, sync_status_future, fork_data_future,
  proposer_duties_future, known_validator_future, publish_block_future,
}

-- The error of a channel whose other end is gone; tokio shows both kinds with this text.
abbrev pub channel_closed : BeaconError
channel_closed = channel (msg "channel closed")

module _ {b : Bls} {W : Type 0} where
  -- `oneshot::channel()`, then `to_service.send(command)` with its sender
  unfoldable pub send :
      (Sender → BeaconCommands b W) → Channels b W → Result BeaconError Sender × Channels b W
  send command c =
      let tx = c.next_sender in
      let c' = record c { next_sender = tx + 1 } in
      if c.open_receiver
      then (ok tx, record c' { queue = c.queue ++ command tx ∷ [] })
      else (err channel_closed, c')

  -- What was sent through the channel `tx`.
  abbrev pub lookup_sent : Sender → List (Sender × Reply b W) → Option (Reply b W)
  lookup_sent tx [] = none
  lookup_sent tx ((t, r) ∷ sent) = if t == tx then some r else lookup_sent tx sent

  -- The sender of `tx` still stands in a queued command.
  abbrev pub has_sender : Sender → List (BeaconCommands b W) → Bool
  has_sender tx [] = false
  has_sender tx (c ∷ queue) = sender c == tx || has_sender tx queue

  -- `rx.await`: `none` while it waits.
  unfoldable pub receive : Sender → Channels b W → Option (Result BeaconError (Reply b W))
  receive tx c = elim (lookup_sent tx c.sent) [
    | some reply ↦ some (ok reply)
    | none ↦ if has_sender tx c.queue then none else some (err channel_closed)
  ]

  -- `rx.await.map_err(..)?.await`, in the world `w`
  abbrev pub resume :
      {T : Type 0}
      → (Reply b W → Option (BoxedFuture W T))
      → Option (Result BeaconError (Reply b W))
      → W
      → Option (Result BeaconError T × W)
  resume future none w = none
  resume future (some (err e)) w = some (err e, w)
  resume future (some (ok reply)) w = Option.map (λ fut. fut w) (future reply)

  -- A method of the handle: `command` is the command it sends, `future` takes the future of its
  -- type, and `later` is what the other tasks do to the channels until it is resumed for the last
  -- time, in the world `w`. `none` means that it still waits.
  unfoldable pub call :
      {T : Type 0}
      → (Sender → BeaconCommands b W)
      → (Reply b W → Option (BoxedFuture W T))
      → (Channels b W → Channels b W)
      → Channels b W
      → W
      → Option (Result BeaconError T × W)
  unfolding send receive
  call command future later c w =
      let (queued, c') = send command c in
      elim queued [ err e ↦ some (err e, w) | ok tx ↦ resume future (receive tx (later c')) w ]

  abbrev pub as_sync_status : Reply b W → Option (BoxedFuture W SyncStatus)
  as_sync_status (sync_status_future f) = some f
  as_sync_status _ = none

  abbrev pub as_fork_data : Reply b W → Option (BoxedFuture W ForkDatas)
  as_fork_data (fork_data_future f) = some f
  as_fork_data _ = none

  abbrev pub as_proposer_duties : Reply b W → Option (BoxedFuture W (List (ProposerDuty b)))
  as_proposer_duties (proposer_duties_future f) = some f
  as_proposer_duties _ = none

  abbrev pub as_known_validator : Reply b W → Option (BoxedFuture W KnownValidator)
  as_known_validator (known_validator_future f) = some f
  as_known_validator _ = none

  abbrev pub as_publish_block : Reply b W → Option (BoxedFuture W B256)
  as_publish_block (publish_block_future f) = some f
  as_publish_block _ = none

  module _ (later : Channels b W → Channels b W) (c : Channels b W) (w : W) where
    -- `BeaconHandle::sync_status`
    unfoldable pub sync_status : Option (Result BeaconError SyncStatus × W)
    unfolding call
    sync_status = call BeaconCommands.sync_status as_sync_status later c w

    -- `BeaconHandle::get_fork_data`
    unfoldable pub get_fork_data : Option (Result BeaconError ForkDatas × W)
    unfolding call
    get_fork_data = call BeaconCommands.fork_data as_fork_data later c w

    -- `BeaconHandle::get_known_validator`
    unfoldable pub get_known_validator :
        BlsPublicKey b → Option (Result BeaconError KnownValidator × W)
    unfolding call
    get_known_validator pubkey =
        call (BeaconCommands.known_validator pubkey) as_known_validator later c w

    -- `BeaconHandle::proposer_duties`
    unfoldable pub proposer_duties : ℕ → Option (Result BeaconError (List (ProposerDuty b)) × W)
    unfolding call
    proposer_duties epoch = call (BeaconCommands.proposer_duties epoch) as_proposer_duties later c w

    -- `BeaconHandle::publish_block`
    unfoldable pub publish_block :
        SignedBeaconBlockContent → SubmissionType → Option (Result BeaconError B256 × W)
    unfolding call
    publish_block block submission_type =
        call (BeaconCommands.publish_block block submission_type) as_publish_block later c w
