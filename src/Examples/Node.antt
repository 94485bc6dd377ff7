-- ===== src/Examples/Node.antt =====
-- Examples of the results on the beacon node: its command service, publishing, subscribing and the
-- task that follows it.
use mev_relay_rs.Prelude.{
  ℕ, ◌≡◌, ◌≢◌, ◌↔◌, refl, ◌+◌, List, [], ◌∷◌, ◌++◌, Bytes, codes, replicate, length, none, some,
  Message, msg, Result, ok, err, true,
}
use mev_relay_rs.Gateway.Api.{BeaconApi, SignedBeaconBlockContent, ssz}
use mev_relay_rs.Gateway.Events.{http, api, sse, ready, pending, new_stream}
use mev_relay_rs.Gateway.Events.Text.{strip_prefix}
use mev_relay_rs.Gateway.Head.{Json}
use mev_relay_rs.Gateway.Node.{Response}
use mev_relay_rs.Gateway.Publish.{Encoders, PublishRequest, publish_block}
use mev_relay_rs.Gateway.Publish.Exact.{IsPosted, publish_block_iff}
use mev_relay_rs.Gateway.Merged.{BeaconEventsStream, Silent}
use mev_relay_rs.Gateway.Silence.{merged_polls, stream-Silent}
use mev_relay_rs.Gateway.Subscribe.{Subscribed, sse_stream}
use mev_relay_rs.Prelude.{All}
use mev_relay_rs.Gateway.Service.{start}
use mev_relay_rs.Gateway.Service.Handle
use mev_relay_rs.Gateway.Service.Events.{
  Event, other_call, polled, dropped, fork_data, proposer_duties, handle, happens, happen, perform,
  fate,
}
use mev_relay_rs.Gateway.Service.Fate.{handle_lem}
use mev_relay_rs.Gateway.Subscribe.{Node, stream, stream_lem, subscribe_once}
use mev_relay_rs.App.Service.Run.{BeaconClient, Connection, run, polling_loop}
use mev_relay_rs.App.Service.Run.Laws.{run_lem}
use mev_relay_rs.App.Service.{
  take_chunk, take_lines, take_line, process_sse_line, handle_event, handle_head_event, sync_duties,
  filter_duties, poll_head_slot,
}
use mev_relay_rs.Entity.HeadSlot.{is_duty_refresh_slot, epoch}
use mev_relay_rs.Prelude.{lookup}
use mev_relay_rs.Gateway.Head.{subscribe_events, fetch_head_slot}
use mev_relay_rs.Datastore.MemoryStorage.{
  memory_storage, set_head_slot, set_proposer_duties, empty_validator_regs,
  read_validator_registration,
}
use mev_relay_rs.Examples.Toy.{bls}
use mev_relay_rs.Examples.World.{fork_datas, payload, hash_a, duty}
use mev_relay_rs.Examples.Chain.{event_codec, calls, storage}

-- A node that counts its calls.
abbrev counting : BeaconApi bls ℕ
counting = record {
  sync_status = λ w. (err (sse (msg "syncing")), w + 1);
  proposer_duties = λ epoch w. (ok (duty ∷ []), w + 1);
  get_fork_data = λ w. (ok fork_datas, w + 1);
  get_known_validator = λ pubkey w. (err (sse (msg "unknown")), w + 1);
  publish_block = λ block submission_type w. (ok hash_a, w + 1);
}

abbrev later : List (Event bls)
later = other_call fork_data ∷ polled 1 ∷ polled 5 ∷ dropped ∷ []

handle_lem_example :
    handle
      (proposer_duties 3)
      (happens counting later)
      (happens counting (other_call fork_data ∷ []) (start bls ℕ))
      0
    ≡ some (ok (duty ∷ []), 1)
unfolding fate happens happen start perform Handle.send
handle_lem_example = handle_lem counting (proposer_duties 3) (other_call fork_data ∷ []) later 0

-- Values of which only the strings are kept.
abbrev values : Json
values = record {
  Value = Bytes;
  index = λ v key. v;
  as_str = λ v. some v;
  object = λ fields. [];
  string = λ s. s;
}

abbrev encoders : Encoders values
encoders = record {
  to_value = λ p. ok p.block_hash;
  encode = λ bytes. bytes;
  decode = λ digits. some digits;
  to_string = λ n. n ∷ [];
}

abbrev accepting : Bytes → Response
accepting body = record { status = 200; text = ok []; body = body }

abbrev block : SignedBeaconBlockContent
block = record {
  slot = 10;
  proposer_index = 42;
  parent_root = hash_a;
  state_root = hash_a;
  body = record { execution_payload = payload hash_a; blobs = [] };
}

abbrev read_body : Response → Result Message Bytes
read_body resp = ok resp.body

-- A node that names 31 bytes as the root of every block.
abbrev short_root : PublishRequest values → Result Message Response
short_root request = ok (accepting (codes "0x" ++ replicate 31 7))

publish_block_iff_example :
    ((root : Bytes)
      → (publish_block values encoders read_body short_root (codes "http://node/") block ssz
          ≡ some (ok root))
        ↔ (IsPosted values encoders read_body short_root (codes "http://node/") block ssz root
            × (length root ≡ 32)))
    × ((publish_block values encoders read_body short_root (codes "http://node/") block ssz ≡ none)
        ↔ ((bytes : Bytes) × IsPosted values encoders read_body short_root
              (codes "http://node/")
              block
              ssz
              bytes
            × (length bytes ≢ 32)))
publish_block_iff_example =
    publish_block_iff values encoders read_body short_root (codes "http://node/") block ssz

abbrev down : Node
down url = err (msg "refused")

abbrev busy : Node
busy url = ok (record { status = 503; text = ok (msg "busy"); body = [] }, [])

abbrev up : Node
up url = ok (accepting [], ready (some (ok (codes "event: head"))) ∷ pending ∷ [])

abbrev node_url : Bytes
node_url = codes "http://node/"

stream_lem_example :
    (stream event_codec node_url (down ∷ busy ∷ up ∷ busy ∷ up ∷ [])
      ≡ some (record {
        stream = record {
          payload_attributes =
              new_stream event_codec (ready (some (ok (codes "event: head"))) ∷ pending ∷ []);
          new_head =
              new_stream event_codec (ready (some (ok (codes "event: head"))) ∷ pending ∷ []);
        };
        slept = 15;
        later = [];
      }))
    × (stream event_codec node_url (down ∷ busy ∷ up ∷ busy ∷ []) ≡ none)
    × (stream event_codec node_url (down ∷ busy ∷ []) ≡ none)
unfolding subscribe_once
stream_lem_example =
    stream_lem event_codec node_url (down ∷ busy ∷ []) (busy ∷ []) [] up up
      (new_stream event_codec (ready (some (ok (codes "event: head"))) ∷ pending ∷ []))
      (new_stream event_codec (ready (some (ok (codes "event: head"))) ∷ pending ∷ []))
      ((http (msg "refused"), refl), ((api 503 (msg "busy"), refl), tt)) refl
      ((api 503 (msg "busy"), refl), tt) refl

-- What the client is left with when it connects at the second and third answer.
abbrev connected :
    Subscribed
      (BeaconEventsStream (sse_stream event_codec node_url) (sse_stream event_codec node_url))
connected = record {
  stream = record {
    payload_attributes =
        new_stream event_codec (ready (some (ok (codes "event: head"))) ∷ pending ∷ []);
    new_head = new_stream event_codec (ready (some (ok (codes "event: head"))) ∷ pending ∷ []);
  };
  slept = 5;
  later = [];
}

stream-Silent_example : All Silent (merged_polls 2 connected.stream)
unfolding stream
stream-Silent_example = stream-Silent event_codec node_url (down ∷ up ∷ up ∷ []) connected 2 refl

abbrev client : BeaconClient
client = record {
  url = node_url;
  from_utf8_lossy = λ bytes. bytes;
  values = values;
  json = read_body;
  parse = λ digits. ok 64;
  show = λ e. msg "error";
}

-- A head event in two chunks, after which the body ends.
abbrev connection : Connection
connection = record {
  answer = λ url. ok (accepting []);
  chunks = ok (codes "event: head" ++ 10 ∷ []) ∷ ok (codes "data: {}" ++ 10 ∷ []) ∷ [];
  ended = true;
}

-- The task follows the head event of slot 33, and is then at slot 64 by polling.
run_lem_example :
    run
      (memory_storage bls)
      calls
      32
      client
      (connection ∷ connection ∷ [])
      ((λ url. err (msg "refused")) ∷ (λ url. ok (accepting (codes "64"))) ∷ [])
      storage
    ≡ some (record storage { head_slot = record { slot = 64 }; proposer_duties = duty ∷ duty ∷ [] })
unfolding polling_loop subscribe_events fetch_head_slot poll_head_slot take_chunk take_lines
    take_line process_sse_line handle_event handle_head_event sync_duties filter_duties
    set_head_slot set_proposer_duties empty_validator_regs read_validator_registration
    is_duty_refresh_slot epoch lookup strip_prefix
run_lem_example =
    run_lem (memory_storage bls) calls 32 client connection (connection ∷ [])
      ((λ url. err (msg "refused")) ∷ (λ url. ok (accepting (codes "64"))) ∷ []) storage
