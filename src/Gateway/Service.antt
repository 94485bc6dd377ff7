-- ===== src/Gateway/Service.antt =====
-- crates/gateway/src/beacon/service/mod.rs: the task that answers the commands of its handles with
-- futures of the beacon node's API. A oneshot channel is named by a number: its sender stands in the
-- command that carries it, and what was sent is kept until its receiver takes it.
pub mod Handle
pub mod Events
pub mod Queue
pub mod Fate
use mev_relay_rs.Prelude.{
  ℕ, zero, suc, ◌+◌, Bool, true, false, List, [], ◌∷◌, ◌++◌, Option, none, some, ◌==◌,
  if◌then◌else◌,
}
use mev_relay_rs.Crypto.Blst.{Bls}
use mev_relay_rs.Crypto.Keys.{BlsPublicKey}
use mev_relay_rs.Crypto.Fork.{ForkDatas}
use mev_relay_rs.Entity.Types.{B256}
use mev_relay_rs.Entity.Validator.{ProposerDuty, SyncStatus}
use mev_relay_rs.Gateway.Api.{BoxedFuture, BeaconApi, SignedBeaconBlockContent, SubmissionType}
use mev_relay_rs.Gateway.Node.{KnownValidator}

-- `oneshot::Sender<T>`
abbrev pub Sender : Type 0
Sender = ℕ

module _ (b : Bls) (W : Type 0) where
  -- `BeaconCommands`
  pub data BeaconCommands : Type 0 where
    sync_status : Sender → BeaconCommands
    fork_data : Sender → BeaconCommands
    proposer_duties : ℕ → Sender → BeaconCommands
    known_validator : BlsPublicKey b → Sender → BeaconCommands
    publish_block : SignedBeaconBlockContent → SubmissionType → Sender → BeaconCommands

  -- A future of one of the five types that the senders are made for.
  pub data Reply : Type 0 where
    sync_status_future : BoxedFuture W SyncStatus → Reply
    fork_data_future : BoxedFuture W ForkDatas → Reply
    proposer_duties_future : BoxedFuture W (List (ProposerDuty b)) → Reply
    known_validator_future : BoxedFuture W KnownValidator → Reply
    publish_block_future : BoxedFuture W B256 → Reply

-- What the handles and the service share: the commands of the unbounded channel, whether its
-- receiver lives, the futures sent through oneshot channels, and the next channel's number.
pub record Channels (b : Bls) (W : Type 0) : Type 0 where
  pub queue : List (BeaconCommands b W)
  pub open_receiver : Bool
  pub sent : List (Sender × Reply b W)
  pub next_sender : ℕ

-- `BeaconService::new`: the channel is empty, and the service holds its receiver.
unfoldable pub start : (b : Bls) (W : Type 0) → Channels b W
start b W = record { queue = []; open_receiver = true; sent = []; next_sender = 0 }

module _ {b : Bls} {W : Type 0} where
  -- The sender that a command carries.
  abbrev pub sender : BeaconCommands b W → Sender
  sender (sync_status tx) = tx
  sender (fork_data tx) = tx
  sender (proposer_duties epoch tx) = tx
  sender (known_validator pubkey tx) = tx
  sender (publish_block block submission_type tx) = tx

  -- The body of the loop of `poll`: the future that a command is answered with. The methods of the
  -- service box a call of the API's method of the same name.
  unfoldable pub answer : BeaconApi b W → BeaconCommands b W → Reply b W
  answer api (sync_status tx) = sync_status_future api.sync_status
  answer api (fork_data tx) = fork_data_future api.get_fork_data
  answer api (proposer_duties epoch tx) = proposer_duties_future (api.proposer_duties epoch)
  answer api (known_validator pubkey tx) = known_validator_future (api.get_known_validator pubkey)
  answer api (publish_block block submission_type tx) =
      publish_block_future (api.publish_block block submission_type)

  -- The loop of `poll`, while the channel is ready with a command. `budget` is the number of
  -- commands after which tokio's cooperative scheduling makes the channel pending.
  unfoldable pub poll_loop : BeaconApi b W → ℕ → Channels b W → Channels b W
  unfolding answer
  poll_loop api zero c = c
  poll_loop api (suc budget) c = elim c.queue [
    | [] ↦ c
    | command ∷ queue ↦
        poll_loop api budget
          (record c { queue = queue; sent = c.sent ++ (sender command, answer api command) ∷ [] })
  ]

  -- `BeaconService::poll`. It is pending when it returns, so the task never ends by itself.
  unfoldable pub poll : BeaconApi b W → ℕ → Channels b W → Channels b W
  unfolding poll_loop
  poll api budget c = if c.open_receiver then poll_loop api budget c else c

  -- The service is dropped: its receiver with the commands in it, and their senders.
  unfoldable pub drop_service : Channels b W → Channels b W
  drop_service c = record c { queue = []; open_receiver = false }
