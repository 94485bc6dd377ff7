-- ===== src/Gateway/Service/Events.antt =====
-- The channels of crates/gateway/src/beacon/service under what the other handles, the service's task
-- and its runtime do to them.
use mev_relay_rs.Prelude.{
  ℕ, zero, suc, ◌-◌, ◌≤◌, ltb, ◌≡◌, refl, true, false, List, [], ◌∷◌, ◌++◌, Option, none, some,
  Result, ◌==◌, if◌then◌else◌, arith,
}
use mev_relay_rs.Crypto.Blst.{Bls}
use mev_relay_rs.Crypto.Keys.{BlsPublicKey}
use mev_relay_rs.Crypto.Fork.{ForkDatas}
use mev_relay_rs.Entity.Types.{B256}
use mev_relay_rs.Entity.Validator.{ProposerDuty, SyncStatus}
use mev_relay_rs.Gateway.Api.{BeaconApi, BoxedFuture, SignedBeaconBlockContent, SubmissionType}
use mev_relay_rs.Gateway.Node.{KnownValidator}
use mev_relay_rs.Gateway.Events.{BeaconError}
use mev_relay_rs.Gateway.Service.{
  BeaconCommands, Reply, Sender, Channels, sender, answer, poll, poll_loop, drop_service,
}
use mev_relay_rs.Gateway.Service.Handle
use mev_relay_rs.Gateway.Service.Handle.{
  send, receive, call, lookup_sent, has_sender, channel_closed,
}

-- A method of the handle with its arguments.
pub data Request (b : Bls) : Type 0 where
  sync_status : Request b
  fork_data : Request b
  proposer_duties : ℕ → Request b
  known_validator : BlsPublicKey b → Request b
  publish_block : SignedBeaconBlockContent → SubmissionType → Request b

-- What may happen to the channels: a handle sends a command, the service's task is polled, or it is
-- dropped.
pub data Event (b : Bls) : Type 0 where
  other_call : Request b → Event b
  polled : ℕ → Event b
  dropped : Event b

-- The outcome of a call.
pub data Fate : Type 0 where
  answered : Fate
  failed : Fate
  waiting : Fate

module _ {b : Bls} where
  -- The type that a method's future gives.
  abbrev pub Answer : Request b → Type 0
  Answer sync_status = SyncStatus
  Answer fork_data = ForkDatas
  Answer (proposer_duties epoch) = List (ProposerDuty b)
  Answer (known_validator pubkey) = KnownValidator
  Answer (publish_block block submission_type) = B256

  -- A call with `ahead` commands before its own in the queue is answered when the polls have taken
  -- more than that many commands, and fails when the service is dropped before.
  unfoldable pub fate : ℕ → List (Event b) → Fate
  fate ahead [] = waiting
  fate ahead (other_call request ∷ later) = fate ahead later
  fate ahead (polled budget ∷ later) =
      let rest = fate (ahead - budget) later in if ltb ahead budget then answered else rest
  fate ahead (dropped ∷ later) = failed

  module _ {W : Type 0} where
    unfoldable pub command : Request b → Sender → BeaconCommands b W
    command sync_status = BeaconCommands.sync_status
    command fork_data = BeaconCommands.fork_data
    command (proposer_duties epoch) = BeaconCommands.proposer_duties epoch
    command (known_validator pubkey) = BeaconCommands.known_validator pubkey
    command (publish_block block submission_type) =
        BeaconCommands.publish_block block submission_type

    -- The method of the handle.
    unfoldable pub handle :
        (r : Request b)
        → (Channels b W → Channels b W)
        → Channels b W
        → W
        → Option (Result BeaconError (Answer r) × W)
    unfolding Handle.sync_status Handle.get_fork_data Handle.proposer_duties
        Handle.get_known_validator Handle.publish_block
    handle sync_status later c w = Handle.sync_status later c w
    handle fork_data later c w = Handle.get_fork_data later c w
    handle (proposer_duties epoch) later c w = Handle.proposer_duties later c w epoch
    handle (known_validator pubkey) later c w = Handle.get_known_validator later c w pubkey
    handle (publish_block block submission_type) later c w =
        Handle.publish_block later c w block submission_type

    -- The API's method that it stands for.
    unfoldable pub perform : BeaconApi b W → (r : Request b) → BoxedFuture W (Answer r)
    perform api sync_status = api.sync_status
    perform api fork_data = api.get_fork_data
    perform api (proposer_duties epoch) = api.proposer_duties epoch
    perform api (known_validator pubkey) = api.get_known_validator pubkey
    perform api (publish_block block submission_type) = api.publish_block block submission_type

    pub sender-command :
        (r : Request b) (tx : Sender) (cmd : BeaconCommands b W)
        → command r tx ≡ cmd
        → sender cmd ≡ tx
    unfolding command
    sender-command sync_status tx cmd e = rw (← e) refl
    sender-command fork_data tx cmd e = rw (← e) refl
    sender-command (proposer_duties epoch) tx cmd e = rw (← e) refl
    sender-command (known_validator pubkey) tx cmd e = rw (← e) refl
    sender-command (publish_block block submission_type) tx cmd e = rw (← e) refl

    pub has_sender-append :
        (tx : Sender) (cmd : BeaconCommands b W) (queue : List (BeaconCommands b W))
        → has_sender tx (queue ++ cmd ∷ [])
          ≡ (if has_sender tx queue then true else sender cmd == tx)
    has_sender-append tx cmd [] = ground arith
    has_sender-append tx cmd (c ∷ queue) = ground (arith, has_sender-append tx cmd queue)

    pub lookup_sent-append :
        (tx t : Sender) (r : Reply b W) (sent : List (Sender × Reply b W))
        → lookup_sent tx (sent ++ (t, r) ∷ []) ≡ (elim (lookup_sent tx sent) [
          | some x ↦ some x
          | none ↦ if t == tx then some r else none
        ])
    lookup_sent-append tx t r [] = refl
    lookup_sent-append tx t r ((u, x) ∷ sent) = ground (arith, lookup_sent-append tx t r sent)

    -- A channel of this number is not in use yet.
    abbrev pub IsUnused : Sender → Channels b W → Type 0
    IsUnused tx c = (has_sender tx c.queue ≡ false) × (lookup_sent tx c.sent ≡ none)

    -- Every channel in use has a number below the next one.
    abbrev pub IsFresh : Channels b W → Type 0
    IsFresh c = (tx : Sender) → c.next_sender ≤ tx → IsUnused tx c

    module _ (api : BeaconApi b W) where
      unfoldable pub happen : Event b → Channels b W → Channels b W
      unfolding send poll drop_service command
      happen (other_call request) c = (send (command request) c).1
      happen (polled budget) c = poll api budget c
      happen dropped c = drop_service c

      unfoldable pub happens : List (Event b) → Channels b W → Channels b W
      unfolding happen
      happens [] c = c
      happens (e ∷ es) c = happens es (happen e c)

      poll_loop-IsUnused :
          (tx : Sender) (budget : ℕ) (queue : List (BeaconCommands b W)) (c : Channels b W)
          → c.queue ≡ queue
          → IsUnused tx c
          → IsUnused tx (poll_loop api budget c)
      unfolding poll_loop
      poll_loop-IsUnused tx zero queue c e h = h
      poll_loop-IsUnused tx (suc budget) [] c e h = rw (e, poll_loop) h
      poll_loop-IsUnused tx (suc budget) (cmd ∷ queue) c e h =
          let c' : Channels b W = record c {
            queue = queue;
            sent = c.sent ++ (sender cmd, answer api cmd) ∷ [];
          } in
          let appended = lookup_sent-append tx (sender cmd) (answer api cmd) c.sent in
          rw (e, poll_loop)
            (poll_loop-IsUnused tx budget queue c' refl
              (ground (arith, h, e), ground (arith, h, e, appended)))

      poll_loop-next_sender :
          (budget : ℕ) (queue : List (BeaconCommands b W)) (c : Channels b W)
          → c.queue ≡ queue
          → (poll_loop api budget c).next_sender ≡ c.next_sender
      unfolding poll_loop
      poll_loop-next_sender zero queue c e = refl
      poll_loop-next_sender (suc budget) [] c e = rw (e, poll_loop) refl
      poll_loop-next_sender (suc budget) (cmd ∷ queue) c e =
          rw (e, poll_loop) (poll_loop-next_sender budget queue _ refl)

      poll-next_sender :
          (budget : ℕ) (c : Channels b W) → (poll api budget c).next_sender ≡ c.next_sender
      unfolding poll
      poll-next_sender budget c = ground (arith, poll_loop-next_sender budget c.queue c refl)

      poll-IsUnused :
          (tx : Sender) (budget : ℕ) (c : Channels b W)
          → IsUnused tx c
          → IsUnused tx (poll api budget c)
      unfolding poll
      poll-IsUnused tx budget c h = ground (arith, h, poll_loop-IsUnused tx budget c.queue c refl h)

      pub happen-IsFresh : (e : Event b) (c : Channels b W) → IsFresh c → IsFresh (happen e c)
      unfolding happen send drop_service
      happen-IsFresh (other_call request) c h tx le =
          let cmd = command request c.next_sender in
          let (unqueued, unsent) = h tx (ground arith) in
          ground (
            arith,
            unqueued,
            unsent,
            has_sender-append tx cmd c.queue,
            sender-command request c.next_sender cmd refl,
          )
      happen-IsFresh (polled budget) c h tx le =
          poll-IsUnused tx budget c (h tx (omega (arith, le, poll-next_sender budget c)))
      happen-IsFresh dropped c h tx le = (refl, (h tx le).1)
