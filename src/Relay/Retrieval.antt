-- ===== src/Relay/Retrieval.antt =====
-- A header request and a bid at once: crates/api/src/retriever_service.rs asks the auctioneer twice,
-- and another request may run between the two.
use mev_relay_rs.Prelude.{
  ◌≡◌, refl, ap, ◌∙◌, true, Bytes, Option, some, Result, ok, ok_or, arith, length, ◌==◌, beq_refl,
  nat_eq,
}
use mev_relay_rs.Crypto.Blst.{Bls}
use mev_relay_rs.Crypto.Keys.{BlsPublicKey, pk_deserialize}
use mev_relay_rs.Crypto.Fork.{ForkDatas, ForkRoots}
use mev_relay_rs.Crypto.Signer.{BlsSigner}
use mev_relay_rs.Entity.Bid.{BidSubmission, EntityRoots, SignedHeader, Versioned}
use mev_relay_rs.Datastore.Auctioneer.{bid_not_found}
use mev_relay_rs.Datastore.MemoryStorage.{memory_storage}
use mev_relay_rs.Datastore.Cache.{Cache, CacheLaws}
use mev_relay_rs.Datastore.MemoryAuctioneer.{memory_auctioneer, get_best_bid}
use mev_relay_rs.Datastore.MemoryAuctioneer.Laws.{Bid, get_best_bid_lem}
use mev_relay_rs.Datastore.MemoryAuctioneer.Auction.{AddrBelow}
use mev_relay_rs.UseCase.Error.{UseCaseError}
use mev_relay_rs.Api.Stream.{Status}
use mev_relay_rs.UseCase.SubmitBid
use mev_relay_rs.UseCase.SubmitBid.Laws.{submit_bid_iff}
use mev_relay_rs.UseCase.GetHeader
use mev_relay_rs.UseCase.GetHeader.Laws.{get_header_iff, answer}
use mev_relay_rs.Api.Proto
use mev_relay_rs.Api.Retriever.{Json, or_default, answer_retrieve_while}
use mev_relay_rs.Relay.State.{RelayWorld, submit}
use mev_relay_rs.Relay.Bids.{arc, peek-accepted}

module _ {b : Bls} (h : ForkRoots) (roots : EntityRoots b) (keccak256 : Bytes → Bytes)
    (json : Json b) (c : Cache (Bid b)) (signer : BlsSigner b) (fork_datas : ForkDatas)
    (laws : CacheLaws c) where
  abbrev answer_while :
      (RelayWorld b c → RelayWorld b c)
      → Proto.RetrieveRequest
      → RelayWorld b c
      → Option (Result Status Proto.RetrieveResponse × RelayWorld b c)
  answer_while =
      answer_retrieve_while h roots keccak256 json (memory_storage b) (memory_auctioneer b c) signer
        fork_datas

  abbrev header_of :
      Proto.RetrieveRequest
      → BlsPublicKey b
      → RelayWorld b c
      → Result UseCaseError (Versioned (SignedHeader b)) × RelayWorld b c
  header_of m key w =
      GetHeader.execute h roots (memory_storage b) (memory_auctioneer b c) signer m.slot
        m.parent_hash key w

  -- The answer when the use case returns `v` and the second read returns `bid`.
  answered :
      (between : RelayWorld b c → RelayWorld b c) (m : Proto.RetrieveRequest) (key : BlsPublicKey b)
      (w w₁ : RelayWorld b c) (v : Versioned (SignedHeader b)) (bid : Bid b)
      → (length m.parent_hash == 32) ≡ true
      → pk_deserialize b m.proposer_pubkey ≡ ok key
      → header_of m key w ≡ (ok v, w₁)
      → (get_best_bid b c m.slot (between w₁).auctioneer).0 ≡ ok bid
      → answer_while between m w
        ≡ some (
          ok (record {
            signed_header = or_default (json.header_to_vec v);
            execution_payload = or_default (json.payload_to_vec bid.value.execution_payload);
            blobs_bundle = or_default (json.blobs_to_vec bid.value.blobs_bundle);
          }),
          record (between w₁) { auctioneer = (get_best_bid b c m.slot (between w₁).auctioneer).1 },
        )
  unfolding answer_retrieve_while
  answered between m key w w₁ v bid l q t again = ground (arith, l, q, t, again)

  submitted :
      (bid : BidSubmission b) (w : RelayWorld b c)
      → AddrBelow c w.heap w.auctioneer
      → (SubmitBid.execute h roots (memory_storage b) (memory_auctioneer b c) fork_datas bid w).0
        ≡ ok tt
      → c.peek (submit h roots keccak256 c signer fork_datas bid w).auctioneer bid.message.slot
        ≡ some (arc c laws bid w)
  submitted bid w below e =
      let (duty, p, a, s) =
        (submit_bid_iff h roots (memory_storage b) (memory_auctioneer b c) fork_datas bid w _).0
          (ap (λ z. (z, submit h roots keccak256 c signer fork_datas bid w)) e) in
      ap (λ z. c.peek z.auctioneer bid.message.slot) s
      ∙ peek-accepted c laws bid w below a bid.message.slot
      ∙ rw (beq_refl nat_eq bid.message.slot) refl

  -- When the use case has returned a header, and before the second question a bid for the same slot
  -- is accepted, the proposer is answered with the signed header of the bid that was the best one
  -- before, beside the payload and the blobs of the new bid.
  pub retrieve-submit_bid :
      (m : Proto.RetrieveRequest) (key : BlsPublicKey b) (bid : BidSubmission b)
      (w w₁ : RelayWorld b c) (v : Versioned (SignedHeader b))
      → length m.parent_hash ≡ 32
      → pk_deserialize b m.proposer_pubkey ≡ ok key
      → header_of m key w ≡ (ok v, w₁)
      → AddrBelow c w₁.heap w₁.auctioneer
      → bid.message.slot ≡ m.slot
      → (SubmitBid.execute h roots (memory_storage b) (memory_auctioneer b c) fork_datas bid w₁).0
        ≡ ok tt
      → ((best : Bid b) × (c.peek w.auctioneer m.slot ≡ some best)
          × (v
              ≡ answer h roots
                  (memory_storage b)
                  (memory_auctioneer b c)
                  signer
                  m.slot
                  m.parent_hash
                  key
                  best.value))
        × ((w₂ : RelayWorld b c) × (answer_while
                (submit h roots keccak256 c signer fork_datas bid)
                m
                w
              ≡ some (
                ok (record {
                  signed_header = or_default (json.header_to_vec v);
                  execution_payload = or_default (json.payload_to_vec bid.execution_payload);
                  blobs_bundle = or_default (json.blobs_to_vec bid.blobs_bundle);
                }),
                w₂,
              )))
  retrieve-submit_bid m key bid w w₁ v l q t below slot e =
      let sized : (length m.parent_hash == 32) ≡ true = ground (arith, l) in
      let between = submit h roots keccak256 c signer fork_datas bid in
      let (_, (best, found, _, header), _) =
        (get_header_iff h roots (memory_storage b) (memory_auctioneer b c) signer m.slot
            m.parent_hash key w w₁ v).0
          t in
      let held : c.peek w.auctioneer m.slot ≡ some best =
        ground (arith, (get_best_bid_lem b c laws m.slot m.slot w.auctioneer).0, found) in
      let taken : c.peek (between w₁).auctioneer m.slot ≡ some (arc c laws bid w₁) =
        rw (← slot) (submitted bid w₁ below e) in
      let again : (get_best_bid b c m.slot (between w₁).auctioneer).0 ≡ ok (arc c laws bid w₁) =
        (get_best_bid_lem b c laws m.slot m.slot (between w₁).auctioneer).0
        ∙ ap (λ o. ok_or o (bid_not_found m.slot)) taken in
      ((best, held, header), (_, answered between m key w w₁ v (arc c laws bid w₁) sized q t again))
