-- ===== src/Gateway/Service/Fate.antt =====
-- What becomes of a call through the handle of crates/gateway/src/beacon/service/handle.rs.
use mev_relay_rs.Prelude.{
  ◌+◌, ◌≡◌, refl, ap, ◌∙◌, true, Bool-cases, List, [], ◌∷◌, ◌++◌, Option, none, some, Result, err,
  length, if◌then◌else◌, arith, inl, inr,
}
use mev_relay_rs.Crypto.Blst.{Bls}
use mev_relay_rs.Gateway.Api.{BeaconApi, BoxedFuture}
use mev_relay_rs.Gateway.Events.{BeaconError}
use mev_relay_rs.Gateway.Service.{BeaconCommands, Reply, Sender, Channels, sender, answer, start}
use mev_relay_rs.Gateway.Service.Handle
use mev_relay_rs.Gateway.Service.Handle.{
  send, receive, call, as_sync_status, as_fork_data, as_proposer_duties, as_known_validator,
  as_publish_block, resume, lookup_sent, has_sender, channel_closed,
}
use mev_relay_rs.Gateway.Service.Queue.{received, receive_lem, At-last}
use mev_relay_rs.Gateway.Service.Events.{
  Request, Event, Fate, handle, perform, answered, failed, waiting, sync_status, fork_data,
  proposer_duties, known_validator, publish_block, fate, command, happen, happens, IsFresh,
  happen-IsFresh, sender-command,
}

module _ {b : Bls} {W : Type 0} (api : BeaconApi b W) where
  start-IsFresh : IsFresh (start b W)
  unfolding start
  start-IsFresh tx le = (refl, refl)

  happens-IsFresh :
      (es : List (Event b)) (c : Channels b W) → IsFresh c → IsFresh (happens api es c)
  unfolding happens
  happens-IsFresh [] c h = h
  happens-IsFresh (e ∷ es) c h = happens-IsFresh es (happen api e c) (happen-IsFresh api e c h)

  -- What awaiting a method of the handle gives.
  abbrev pub outcome : {T : Type 0} → Fate → BoxedFuture W T → W → Option (Result BeaconError T × W)
  outcome answered future w = some (future w)
  outcome failed future w = some (err channel_closed, w)
  outcome waiting future w = none

  resume-received :
      {T : Type 0} (take : Reply b W → Option (BoxedFuture W T)) (future : BoxedFuture W T)
      (cmd : BeaconCommands b W) (f : Fate) (w : W)
      → take (answer api cmd) ≡ some future
      → resume take (received api cmd f) w ≡ outcome f future w
  resume-received take future cmd answered w e = rw e refl
  resume-received take future cmd failed w e = refl
  resume-received take future cmd waiting w e = refl

  call-open :
      {T : Type 0} (command : Sender → BeaconCommands b W)
      (take : Reply b W → Option (BoxedFuture W T)) (later : Channels b W → Channels b W)
      (c : Channels b W) (w : W)
      → c.open_receiver ≡ true
      → call command take later c w
        ≡ resume take
            (receive c.next_sender (
              later (record c {
                next_sender = c.next_sender + 1;
                queue = c.queue ++ command c.next_sender ∷ [];
              })))
            w
  unfolding call send
  call-open command take later c w o = ground arith

  call_lem :
      {T : Type 0} (r : Request b) (take : Reply b W → Option (BoxedFuture W T))
      (future : BoxedFuture W T) (later : List (Event b)) (c : Channels b W) (w : W)
      → IsFresh c
      → take (answer api (command r c.next_sender)) ≡ some future
      → call (command r) take (happens api later) c w
        ≡ outcome (if c.open_receiver then fate (length c.queue) later else failed) future w
  unfolding call send
  call_lem r take future later c w h e = elim (Bool-cases c.open_receiver) [
    | inr o ↦ ground (arith, o)
    | inl o ↦
        let tx : Sender = c.next_sender in
        let cmd : BeaconCommands b W = command r tx in
        let own : sender cmd ≡ tx = sender-command r tx cmd refl in
        let c' : Channels b W = record c { next_sender = tx + 1; queue = c.queue ++ cmd ∷ [] } in
        let (unqueued, unsent) = h tx (omega arith) in
        let got : receive tx (happens api later c')
            ≡ received api cmd (fate (length c.queue) later) =
          receive_lem api tx cmd own later (length c.queue) c'
            (o, unsent, At-last api tx cmd own c.queue unqueued) in
        call-open (command r) take (happens api later) c w o
        ∙ (ap (λ x. resume take x w) got ∙ (resume-received take future cmd _ w e ∙ rw o refl))
  ]

  handle-IsFresh :
      (r : Request b) (later : List (Event b)) (c : Channels b W) (w : W)
      → IsFresh c
      → handle r (happens api later) c w
        ≡ outcome
            (if c.open_receiver then fate (length c.queue) later else failed)
            (perform api r)
            w
  unfolding handle answer command perform Handle.sync_status Handle.get_fork_data
      Handle.proposer_duties Handle.get_known_validator Handle.publish_block
  handle-IsFresh sync_status later c w h =
      call_lem sync_status as_sync_status api.sync_status later c w h refl
  handle-IsFresh fork_data later c w h =
      call_lem fork_data as_fork_data api.get_fork_data later c w h refl
  handle-IsFresh (proposer_duties epoch) later c w h =
      call_lem (proposer_duties epoch) as_proposer_duties (api.proposer_duties epoch) later c w h
        refl
  handle-IsFresh (known_validator pubkey) later c w h =
      call_lem (known_validator pubkey) as_known_validator (api.get_known_validator pubkey) later c
        w h refl
  handle-IsFresh (publish_block block submission_type) later c w h =
      call_lem (publish_block block submission_type) as_publish_block
        (api.publish_block block submission_type) later c w h refl

  -- Any method of the handle, on channels that have been through `before` since the service started.
  -- `later` is what happens until it is resumed for the last time: it gives what the API's method of
  -- that name gives, once the polls have reached its command; the error of a closed channel, if the
  -- service is dropped before that or was dropped already; and else it waits. No other call of the
  -- handle changes that.
  pub handle_lem :
      (r : Request b) (before later : List (Event b)) (w : W)
      → let c = happens api before (start b W) in
        handle r (happens api later) c w
        ≡ outcome
            (if c.open_receiver then fate (length c.queue) later else failed)
            (perform api r)
            w
  handle_lem r before later w =
      handle-IsFresh r later (happens api before (start b W)) w
        (happens-IsFresh before (start b W) start-IsFresh)
