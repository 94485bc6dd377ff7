-- ===== src/Lib.antt =====
-- A verification library for mev-relay-rs, a relay between block builders and proposers:
-- builders submit bids with payloads, a proposer asks for the header of the best bid, signs it,
-- and gets the payload.
--
-- Prelude: Boolean tests, lists over the native numbers, results, messages and maps. A Message
-- is what format! builds, before it is rendered.
--
-- Crypto (crates/crypto): Blst is the library blst as a parameter with its laws; Keys, Fork and
-- Signer are public_key.rs, secret_key.rs, signature.rs, fork.rs, fork_name.rs and signer.rs,
-- function by function.
--
-- Entity (crates/entity): the records, the header that is built from a bid, signature checks,
-- head slots. Hashes and addresses are their bytes; the Merkle roots of derived types are
-- parameters. Sized has the bounds that the types give to the bytes and the lists.
--
-- Datastore (crates/datastore): Storage and Auctioneer are the traits as records of operations
-- on an explicit state; MemoryStorage and MemoryAuctioneer implement them. Cache is the cache
-- of moka as a parameter with its laws, keyed by slot; that entries expire is a relation
-- between its states. Auction is a history of bids, Order the same without its order. A bid is
-- an Arc with an address, which is what ptr_eq compares.
--
-- UseCase (crates/usecase): Exec is the monad of the use cases, state and early return;
-- SubmitBid, GetHeader, RegisterValidator and UnblindBlock are the execute functions over any
-- storage and auctioneer. SubmitBid is in three parts, since the submission awaits the
-- auctioneer before it stores the payload. Task has the same functions again as rows of
-- actions, one for each lock that is taken.
--
-- Relay: the use cases over the in-memory implementations, as run_inner of
-- crates/app/src/lib.rs wires them. State has the events as a step relation, each use case
-- running to its end; Bids says what the auctioneer's answer does to their invariant, Race has
-- two submissions that interleave, and Retrieval a header request with a submission.
-- Interleaving is the relay with any requests in flight, whose tasks take their actions in any
-- order, while the head, the duties, the payload attributes and the cache change at any time.
-- Served is the relay behind its services, where every step is a whole message to a handler of
-- crates/api or an event of State. Kept carries any predicate of bids and of registrations
-- through every write, for both.
--
-- Api (crates/api): the protobuf messages, their conversions, and the handlers of the three
-- services on a list of requests. A panic of a library call is a result of its own. A sender
-- knows how many sends succeed before its receiver is dropped. Grpc is the generated clients
-- and servers of proto/relay.rs, with tonic as a parameter; the three servers share one
-- configuration, and the three clients one way to be made and set up (Grpc.Setup). Calls has
-- the streams called through them.
--
-- Gateway (crates/gateway): Api is the trait BeaconApi; Node, Head and Publish are the requests
-- of api.rs, over what an address answers; Events, Merged and Subscribe are the event streams
-- and the client that connects them, which Silence takes together; Service and its children are
-- the command service with its handle. A stream is what its polls return. The loop of
-- drain_buffer runs on fuel, one more than the length of the buffer; each round takes at least
-- four bytes. The loop of the service's poll runs on the number of commands that tokio's
-- cooperative budget lets it take. A retry loop is a recursion on the list of the node's
-- answers, and undecided when that ends.
--
-- App (crates/app): the configuration, and the service that follows the chain: lines, events,
-- head slots and duties; Service.Run is its task, over the connections and the ticks that it
-- meets. Start is what run_inner builds up to the signer, before it builds and spawns the
-- servers and tasks.
--
-- Examples: toy instances of every parameter, and each result at concrete inputs.
--
-- Machine integers: a u64 is a number whose sums are taken modulo 2^64, as in a release build;
-- a U256 is a number.
--
-- Not modelled: logging, metrics and most of serde; HTTP itself, timers and task spawning;
-- crates/health and the binaries, which are pure input and output.
pub mod Prelude
pub mod Crypto
pub mod Entity
pub mod Datastore
pub mod UseCase
pub mod Relay
pub mod Api
pub mod Gateway
pub mod App
pub mod Examples
