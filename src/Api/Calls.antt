-- ===== src/Api/Calls.antt =====
-- The streams of crates/api/src/{bidder_service,retriever_service}.rs, called through the generated
-- clients and servers of crates/api/src/proto/relay.rs.
use mev_relay_rs.Prelude.{ℕ, map, Bytes, ok}
use mev_relay_rs.Crypto.Blst.{Bls}
use mev_relay_rs.Crypto.Fork.{ForkDatas, ForkRoots}
use mev_relay_rs.Crypto.Signer.{BlsSigner}
use mev_relay_rs.Entity.Bid.{EntityRoots}
use mev_relay_rs.Datastore.Storage.{Storage}
use mev_relay_rs.Datastore.Auctioneer.{Auctioneer}
use mev_relay_rs.UseCase.Exec.{World}
use mev_relay_rs.Api.Conversion.{Codecs}
use mev_relay_rs.Api.Proto
use mev_relay_rs.Api.Bidder
use mev_relay_rs.Api.Retriever
use mev_relay_rs.Api.Retriever.{Json}
use mev_relay_rs.Api.Retriever.Answers
use mev_relay_rs.Api.Grpc.{
  Tonic, Handler, ServiceCodecs, BidderService, RetrieverService, bid, retrieve,
}

module _ {b : Bls} (h : ForkRoots) (roots : EntityRoots b) (keccak256 : Bytes → Bytes)
    (codecs : Codecs) (json : Json b) (S : Storage b) (A : Auctioneer b) (signer : BlsSigner b)
    (fork_datas : ForkDatas) (t : Tonic) (k : ServiceCodecs t (World S A)) (left : ℕ) where
  -- The bidder, for a caller that takes `left` responses.
  abbrev pub bidder : BidderService t (World S A)
  bidder = record {
    bid = λ stream w. Bidder.bid h roots codecs S A fork_datas left (map ok stream) w;
  }

  -- The streaming half of the retriever, beside any way to unblind.
  abbrev pub retriever :
      Handler (World S A) Proto.SubmitBlindedBlockRequest Proto.BlindedBlockResponse
      → RetrieverService t (World S A)
  retriever unblind = record {
    retrieve = λ stream w.
        Retriever.retrieve h roots keccak256 json S A signer fork_datas left (map ok stream) w;
    submit_blinded_block = unblind;
  }
