-- ===== src/Api/Grpc/Laws.antt =====
-- Streams of messages through the generated clients and servers of crates/api/src/proto/relay.rs.
use mev_relay_rs.Prelude.{◌≡◌, ap, Bytes, List, map, Result, ok, arith}
use mev_relay_rs.Api.Stream.{Status}
use mev_relay_rs.Api.Grpc.{
  Tonic, Handler, Streaming, Codec, ServiceCodecs, BidderService, RetrieverService, Client,
  default_config, new_server, bidder_call, retriever_call, request_with,
}

module _ {t : Tonic} {W : Type 0} where
  -- What `tonic` documents of a method that answers with a stream: a request keeps its path; and when
  -- the handler's stream has no error, which would end it for the client, what a server with the
  -- default configuration answers is read back as that stream, if the messages are within the sizes
  -- that it allows.
  pub record IsStreamCodec {A : Type 0} {B : Type 0} (c : Codec t W A (Streaming (Result Status B)))
      : Type 1 where
    pub Fits : A → Type 0
    pub FitsOutput : List B → Type 0
    pub path-encode : (p : Bytes) (a : A) → t.path (c.encode p a) ≡ p
    pub decode-serve :
        (f : Handler W A (Streaming (Result Status B))) (p : Bytes) (a : A) (w : W) (out : List B)
        → Fits a
        → FitsOutput out
        → (f a w).0 ≡ ok (map ok out)
        → (c.decode (c.serve (default_config t W) f (c.encode p a) w).0 ≡ ok (map ok out))
          × ((c.serve (default_config t W) f (c.encode p a) w).1 ≡ (f a w).1)

  -- A client whose transport is ready.
  abbrev pub client_of : (t.Request → W → t.Response × W) → Client t W
  client_of call = record { ready = ok tt; exchange = call }

-- A call is answered by the handler that the server routes it to.
pub request_with-streamed :
    {t : Tonic} {W A B : Type 0} (c : Codec t W A (Streaming (Result Status B)))
    (l : IsStreamCodec c) (p : Bytes) (f : Handler W A (Streaming (Result Status B)))
    (call : t.Request → W → t.Response × W) (a : A) (w u : W) (out : List B)
    → call (c.encode p a) w ≡ c.serve (default_config t W) f (c.encode p a) w
    → l.Fits a
    → l.FitsOutput out
    → f a w ≡ (ok (map ok out), u)
    → request_with c p (client_of call) a w ≡ (ok (map ok out), u)
request_with-streamed c l p f call a w u out routed h g e =
    let (read, world) = l.decode-serve f p a w out h g (ap (λ x. x.0) e) in
    let left : (f a w).1 ≡ u = ap (λ x. x.1) e in rw routed (ground (arith, read, world, left))

module _ {t : Tonic} {W : Type 0} (k : ServiceCodecs t W) where
  -- A client whose transport leads to a new server of the service.
  abbrev pub to_bidder : BidderService t W → Client t W
  to_bidder bidder = client_of (bidder_call k (new_server bidder))

  abbrev pub to_retriever : RetrieverService t W → Client t W
  to_retriever retriever = client_of (retriever_call k (new_server retriever))
