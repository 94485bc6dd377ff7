-- ===== src/Api/Grpc.antt =====
-- crates/api/src/proto/relay.rs: the clients and servers that are generated from the service
-- definitions. The three servers have the same fields and setters, which are modelled once, and route
-- a request by its path. `tonic` is a parameter: the bytes of a request and a response, how a client
-- makes the one and reads the other, and how a server runs a method on a request.
pub mod Laws
pub mod Setup
use mev_relay_rs.Prelude.{
  ℕ, Bool, List, [], ◌∷◌, Bytes, codes, bytes_eq, Option, none, some, Message, text, Result, ok,
  err, if◌then◌else◌,
}
use mev_relay_rs.Api.Proto
use mev_relay_rs.Api.Stream.{Status, transport}

-- `http::Request` and `http::Response`, the response without a body that has a gRPC status and the
-- content type as its headers, and the sets of compression encodings.
pub record Tonic : Type 1 where
  pub Request : Type 0
  pub path : Request → Bytes
  pub Response : Type 0
  pub empty_response : ℕ → Response
  pub CompressionEncoding : Type 0
  pub EnabledCompressionEncodings : Type 0
  pub default_encodings : EnabledCompressionEncodings
  pub enable : CompressionEncoding → EnabledCompressionEncodings → EnabledCompressionEncodings

-- A method that is served: from its input in a world to its output or a status, and a new world.
abbrev pub Handler : Type 0 → Type 0 → Type 0 → Type 0
Handler W A B = A → W → Result Status B × W

-- The messages of a stream.
abbrev pub Streaming : Type 0 → Type 0
Streaming T = List T

module _ (t : Tonic) (W : Type 0) where
  -- What the servers are configured with.
  pub record ServerConfig : Type 0 where
    pub accept_compression_encodings : t.EnabledCompressionEncodings
    pub send_compression_encodings : t.EnabledCompressionEncodings
    pub max_decoding_message_size : Option ℕ
    pub max_encoding_message_size : Option ℕ

  -- `BidderServiceServer` and the other two, around their handlers.
  pub record Server (T : Type 0) : Type 0 where
    pub inner : T
    pub config : ServerConfig

  -- `tonic::client::Grpc` and `tonic::server::Grpc` at a method's types, with `ProstCodec`.
  pub record Codec (A : Type 0) (B : Type 0) : Type 0 where
    pub encode : Bytes → A → t.Request
    pub decode : t.Response → Result Status B
    pub serve : ServerConfig → Handler W A B → t.Request → W → t.Response × W

  pub record ServiceCodecs : Type 0 where
    pub bid : Codec (Streaming Proto.BidRequest) (Streaming (Result Status Proto.BidResponse))
    pub retrieve :
        Codec (Streaming Proto.RetrieveRequest) (Streaming (Result Status Proto.RetrieveResponse))
    pub submit_blinded_block : Codec Proto.SubmitBlindedBlockRequest Proto.BlindedBlockResponse
    pub register_validator : Codec Proto.RegisterValidatorRequest Proto.RegisterValidatorResponse

  -- The traits that the services implement.
  pub record BidderService : Type 0 where
    pub bid : Handler W (Streaming Proto.BidRequest) (Streaming (Result Status Proto.BidResponse))

  pub record RetrieverService : Type 0 where
    pub retrieve :
        Handler W
          (Streaming Proto.RetrieveRequest)
          (Streaming (Result Status Proto.RetrieveResponse))
    pub submit_blinded_block : Handler W Proto.SubmitBlindedBlockRequest Proto.BlindedBlockResponse

  pub record ValidatorService : Type 0 where
    pub register_validator :
        Handler W Proto.RegisterValidatorRequest Proto.RegisterValidatorResponse

  -- A client's transport: whether it is ready, and its exchange of a request for a response.
  pub record Client : Type 0 where
    pub ready : Result Message (Unit {0})
    pub exchange : t.Request → W → t.Response × W

-- `tonic::Code::Unimplemented`
abbrev pub unimplemented : ℕ
unimplemented = 12

abbrev pub bid_path : Bytes
bid_path = codes "/relay.BidderService/Bid"

abbrev pub retrieve_path : Bytes
retrieve_path = codes "/relay.RetrieverService/Retrieve"

abbrev pub submit_blinded_block_path : Bytes
submit_blinded_block_path = codes "/relay.RetrieverService/SubmitBlindedBlock"

abbrev pub register_validator_path : Bytes
register_validator_path = codes "/relay.ValidatorService/RegisterValidator"

-- `tonic::Status::unknown`, whose code is 2
abbrev pub not_ready : Message → Status
not_ready e = transport 2 (text "Service was not ready: " ∷ e)

-- The fields that `from_arc` sets.
unfoldable pub default_config : (t : Tonic) (W : Type 0) → ServerConfig t W
default_config t W = record {
  accept_compression_encodings = t.default_encodings;
  send_compression_encodings = t.default_encodings;
  max_decoding_message_size = none;
  max_encoding_message_size = none;
}

module _ {t : Tonic} {W : Type 0} where
  -- `new`, and `from_arc` under it
  unfoldable pub new_server : {T : Type 0} → T → Server t W T
  unfolding default_config
  new_server inner = record { inner = inner; config = default_config t W }

  module _ {T : Type 0} (s : Server t W T) where
    unfoldable pub accept_compressed : t.CompressionEncoding → Server t W T
    accept_compressed encoding =
        let encodings = t.enable encoding s.config.accept_compression_encodings in
        record s { config = record s.config { accept_compression_encodings = encodings } }

    unfoldable pub send_compressed : t.CompressionEncoding → Server t W T
    send_compressed encoding =
        let encodings = t.enable encoding s.config.send_compression_encodings in
        record s { config = record s.config { send_compression_encodings = encodings } }

    unfoldable pub limit_decoding : ℕ → Server t W T
    limit_decoding limit = record s {
      config = record s.config { max_decoding_message_size = some limit };
    }

    unfoldable pub limit_encoding : ℕ → Server t W T
    limit_encoding limit = record s {
      config = record s.config { max_encoding_message_size = some limit };
    }

  -- A generated method of a client, up to its path and codec.
  abbrev pub request_with :
      {A B : Type 0} → Codec t W A B → Bytes → Client t W → A → W → Result Status B × W
  request_with codec path client request w = elim client.ready [
    | err e ↦ (err (not_ready e), w)
    | ok u ↦
        let (response, w') = client.exchange (codec.encode path request) w in
        (codec.decode response, w')
  ]

  module _ (k : ServiceCodecs t W) where
    -- `BidderServiceServer::call`
    unfoldable pub bidder_call : Server t W (BidderService t W) → t.Request → W → t.Response × W
    bidder_call s req w =
        if bytes_eq (t.path req) bid_path
        then k.bid.serve s.config s.inner.bid req w
        else (t.empty_response unimplemented, w)

    -- `RetrieverServiceServer::call`
    unfoldable pub retriever_call :
        Server t W (RetrieverService t W) → t.Request → W → t.Response × W
    retriever_call s req w =
        if bytes_eq (t.path req) retrieve_path
        then k.retrieve.serve s.config s.inner.retrieve req w
        else if bytes_eq (t.path req) submit_blinded_block_path
        then k.submit_blinded_block.serve s.config s.inner.submit_blinded_block req w
        else (t.empty_response unimplemented, w)

    -- `ValidatorServiceServer::call`
    unfoldable pub validator_call :
        Server t W (ValidatorService t W) → t.Request → W → t.Response × W
    validator_call s req w =
        if bytes_eq (t.path req) register_validator_path
        then k.register_validator.serve s.config s.inner.register_validator req w
        else (t.empty_response unimplemented, w)

    -- `BidderServiceClient::bid`
    unfoldable pub bid :
        Client t W
        → Handler W (Streaming Proto.BidRequest) (Streaming (Result Status Proto.BidResponse))
    bid = request_with k.bid bid_path

    -- `RetrieverServiceClient::retrieve`
    unfoldable pub retrieve :
        Client t W
        → Handler W
            (Streaming Proto.RetrieveRequest)
            (Streaming (Result Status Proto.RetrieveResponse))
    retrieve = request_with k.retrieve retrieve_path

    -- `RetrieverServiceClient::submit_blinded_block`
    unfoldable pub submit_blinded_block :
        Client t W → Handler W Proto.SubmitBlindedBlockRequest Proto.BlindedBlockResponse
    submit_blinded_block = request_with k.submit_blinded_block submit_blinded_block_path

    -- `ValidatorServiceClient::register_validator`
    unfoldable pub register_validator :
        Client t W → Handler W Proto.RegisterValidatorRequest Proto.RegisterValidatorResponse
    register_validator = request_with k.register_validator register_validator_path
