-- ===== src/Examples/Chain.antt =====
-- Examples of the results on the beacon node's events and on the configuration.
use mev_relay_rs.Prelude.{
  lookup, trim_0x, ℕ, ◌≡◌, refl, Bytes, List, [], ◌∷◌, ◌++◌, codes, filter, replicate, length, none,
  some, Result, ok, err, Message, msg, false, arith,
}
use mev_relay_rs.Crypto.Fork.{ForkName, ForkDatas, from_genesis_and_current_version}
use mev_relay_rs.Entity.HeadSlot.{epoch, is_duty_refresh_slot}
use mev_relay_rs.Entity.Validator.{ProposerDuty}
use mev_relay_rs.Entity.BeaconEvent.{HeadEvent, head}
use mev_relay_rs.Datastore.MemoryStorage.{
  MemoryStorage, memory_storage, set_head_slot, set_proposer_duties, empty_validator_regs,
  read_validator_registration,
}
use mev_relay_rs.Gateway.Events.{BeaconError, Poll, ready, EventCodec}
use mev_relay_rs.Gateway.Merged.{EventStream, BeaconEventsStream}
use mev_relay_rs.Gateway.Node.{
  Response, ForkDataResp, get_json, hex_array_4, get_fork_data, get_fork_data-ok,
}
use mev_relay_rs.App.Config.{CliArgs, RelayConfig}
use mev_relay_rs.App.Service.{
  Calls, Sse, take_chunk, handle_event, handle_head_event, sync_duties, filter_duties,
}
use mev_relay_rs.App.Service.Lines.{after, take_chunk-append}
use mev_relay_rs.App.Service.Duties.{
  AllRegistered, is_registered, handle_event-AllRegistered, handle_head_event_lem,
}
use mev_relay_rs.Examples.Toy.{bls}
use mev_relay_rs.Examples.World.{duty, registration}

abbrev pub event_codec : EventCodec
event_codec = record {
  from_utf8 = λ s. some s;
  trim = λ s. s;
  head_event = λ s. err (msg "json");
  payload_attributes_event = λ s. err (msg "json");
}

abbrev pub chunks : List (Poll (Result BeaconError Bytes))
chunks =
    ready (some (ok (codes "event: head"))) ∷ ready (some (ok (10 ∷ 10 ∷ []))) ∷ ready none ∷ []

abbrev sent : HeadEvent
sent = record { slot = 33; block = []; epoch_transition = false; execution_optimistic = false }

abbrev failing : EventStream
failing = record {
  State = ℕ;
  poll_next = λ n. (ready (some (err (BeaconError.sse (msg "lost")))), n);
}

abbrev heads : EventStream
heads = record { State = ℕ; poll_next = λ n. (ready (some (ok (head sent))), n) }

abbrev merged : BeaconEventsStream failing heads
merged = record { payload_attributes = 0; new_head = 0 }

abbrev pub other : ProposerDuty bls
other = record { pubkey = 6; validator_index = 1; slot = 33 }

abbrev pub calls : Calls bls
calls = record {
  trim = λ s. s;
  head_event = λ s. some sent;
  payload_attributes_event = λ s. none;
  parse_b256 = λ s. none;
  parse_address = λ s. none;
  proposer_duties = λ e. ok (duty ∷ other ∷ []);
}

-- Only the validator of the one duty is registered.
abbrev pub storage : MemoryStorage bls
storage = record {
  head_slot = record { slot = 9 };
  payload_attributes = record { timestamp = 0; prev_randao = []; suggested_fee_recipient = [] };
  validator_registrations = (5, registration.message) ∷ [];
  proposer_duties = [];
  whitelist = [];
  blinded_blocks = [];
  delivered_blocks = [];
}

abbrev headed : MemoryStorage bls
headed = record storage { head_slot = record { slot = 33 }; proposer_duties = duty ∷ duty ∷ [] }

abbrev state : Sse (memory_storage bls) calls 32
state = record { line_buf = codes "ev"; current_event = none; storage = storage }

take_chunk-append_example :
    take_chunk (memory_storage bls) calls 32 (codes "ent: he" ++ codes "ad") state
    ≡ after
        (memory_storage bls)
        calls
        32
        (take_chunk (memory_storage bls) calls 32 (codes "ent: he") state)
        (codes "ad")
take_chunk-append_example =
    take_chunk-append (memory_storage bls) calls 32 (codes "ent: he") (codes "ad") state

handle_event-AllRegistered_example : AllRegistered calls 32 headed
unfolding handle_event handle_head_event sync_duties filter_duties set_head_slot set_proposer_duties
    empty_validator_regs read_validator_registration is_duty_refresh_slot epoch lookup
handle_event-AllRegistered_example =
    handle_event-AllRegistered calls 32 (head sent) storage headed refl tt

handle_head_event_lem_example :
    handle_head_event (memory_storage bls) calls 32 sent storage
    ≡ some (record storage {
      head_slot = record { slot = 33 };
      proposer_duties =
          filter (is_registered calls 32 storage) (duty ∷ other ∷ [])
          ++ filter (is_registered calls 32 storage) (duty ∷ other ∷ []);
    })
unfolding epoch
handle_head_event_lem_example =
    handle_head_event_lem calls 32 sent 1 (duty ∷ other ∷ []) (duty ∷ other ∷ []) storage
      (omega arith) refl refl refl refl

-- Texts are already decoded here, so this decodes nothing.
abbrev pub decode : Bytes → Result Message Bytes
decode s = ok s

abbrev node_answer : Response
node_answer = record { status = 200; text = ok []; body = [] }

abbrev fork_answer : Response → Result Message ForkDataResp
fork_answer r =
    ok (record { genesis_validators_root = replicate 32 9; current_version = replicate 4 1 })

abbrev from_node : ForkDatas
from_node = record {
  builder = record { current_version = replicate 4 1; genesis_validators_root = replicate 32 9 };
  proposer = record { current_version = replicate 4 1; genesis_validators_root = replicate 32 9 };
}

get_fork_data-ok_example :
    (length from_node.builder.current_version ≡ 4)
    × (length from_node.builder.genesis_validators_root ≡ 32)
    × (from_node.proposer ≡ from_node.builder)
unfolding get_fork_data get_json hex_array_4 trim_0x
get_fork_data-ok_example =
    get_fork_data-ok decode fork_answer (λ url. ok node_answer) [] from_node refl

abbrev pub args : CliArgs
args = record {
  grpc_port = 50051;
  http_port = 9063;
  beacon_url = [];
  bls_secret_key = 8 ∷ replicate 31 0;
  chain = codes "holesky";
  slots_per_epoch = 32;
  enabled_builders = (7 ∷ replicate 47 0) ∷ [];
  genesis_fork_version = replicate 4 0;
  current_fork_version = replicate 4 1;
  genesis_validators_root = replicate 32 9;
}

abbrev pub config : RelayConfig bls
config = record {
  grpc_port = 50051;
  http_port = 9063;
  beacon_url = [];
  bls_secret_key = 8;
  chain = ForkName.deneb;
  slots_per_epoch = 32;
  enabled_builders = 7 ∷ [];
  fork_datas = from_genesis_and_current_version (replicate 4 0) (replicate 4 1) (replicate 32 9);
  polling_interval_secs = 6;
}
