-- ===== src/Api/Retriever/Laws.antt =====
-- What the retriever answers, and the requests on which it panics.
use mev_relay_rs.Prelude.{
  ◌≡◌, ◌≢◌, ◌↔◌, ap, sym, ◌∙◌, true, length, Bytes, ◌==◌, none, some, Result, ok, ok_or, arith,
  Result-cases, Bool-cases, inl, inr,
}
use mev_relay_rs.Crypto.Blst.{Bls}
use mev_relay_rs.Crypto.Keys.{BlsPublicKey, BlsSignature, pk_deserialize, sig_deserialize}
use mev_relay_rs.Crypto.Fork.{ForkDatas, ForkRoots}
use mev_relay_rs.Crypto.Signer.{BlsSigner}
use mev_relay_rs.Entity.Bid.{BlindedBlockResponse, EntityRoots, SignedHeader, Versioned}
use mev_relay_rs.Datastore.Storage.{Storage}
use mev_relay_rs.Datastore.Auctioneer.{Auctioneer, bid_not_found}
use mev_relay_rs.Datastore.Cache.{Cache, CacheLaws}
use mev_relay_rs.Datastore.MemoryAuctioneer.{memory_auctioneer, get_best_bid}
use mev_relay_rs.Datastore.MemoryAuctioneer.Laws.{Bid, get_best_bid_lem}
use mev_relay_rs.UseCase.Error.{UseCaseError}
use mev_relay_rs.UseCase.Exec.{World}
use mev_relay_rs.UseCase.GetHeader
use mev_relay_rs.UseCase.GetHeader.Laws.{IsEntitled, get_header_iff, answer}
use mev_relay_rs.UseCase.UnblindBlock
use mev_relay_rs.UseCase.UnblindBlock.Laws.{IsReleasable, unblind_block_iff}
use mev_relay_rs.Api.Proto
use mev_relay_rs.Api.Retriever.{Json, or_default, blobs_json, answer_retrieve, submit_blinded_block}

module _ {b : Bls} (h : ForkRoots) (roots : EntityRoots b) (keccak256 : Bytes → Bytes)
    (json : Json b) (S : Storage b) (A : Auctioneer b) (signer : BlsSigner b)
    (fork_datas : ForkDatas) where
  -- A hash of any length but 32 makes either request panic, and nothing else does.
  pub retriever_panics :
      (m : Proto.RetrieveRequest) (req : Proto.SubmitBlindedBlockRequest) (w : World S A)
      → ((answer_retrieve h roots keccak256 json S A signer fork_datas m w ≡ none)
          ↔ (length m.parent_hash ≢ 32))
        × ((submit_blinded_block h roots keccak256 json S A signer fork_datas req w ≡ none)
            ↔ (length req.block_hash ≢ 32))
  unfolding answer_retrieve submit_blinded_block
  retriever_panics m req w =
      ((λ e. ground arith, λ e. ground arith), (λ e. ground arith, λ e. ground arith))

  abbrev run :
      Proto.SubmitBlindedBlockRequest
      → BlsSignature b
      → World S A
      → Result UseCaseError BlindedBlockResponse × World S A
  run req g w =
      UnblindBlock.execute h keccak256 S A fork_datas req.slot req.proposer_index req.block_hash g w

  response :
      (req : Proto.SubmitBlindedBlockRequest) (g : BlsSignature b) (w w' : World S A)
      (r : Proto.BlindedBlockResponse) (resp : BlindedBlockResponse) (v : Bytes)
      → (length req.block_hash == 32) ≡ true
      → sig_deserialize b req.signature ≡ ok g
      → (run req g w).0 ≡ ok resp
      → json.payload_to_vec resp.execution_payload ≡ ok v
      → submit_blinded_block h roots keccak256 json S A signer fork_datas req w ≡ some (ok r, w')
      → (r.block_hash ≡ resp.execution_payload.block_hash)
        × (r.execution_payload ≡ v)
        × (r.blobs_bundle ≡ blobs_json json resp.blobs_bundle)
        × (w' ≡ (run req g w).1)
  unfolding submit_blinded_block
  response req g w w' r resp v l q t j e = (
    ground (arith, l, q, t, j),
    ground (arith, l, q, t, j),
    ground (arith, l, q, t, j),
    ground (arith, l, q, t, j),
  )

  -- A blinded block is answered with a payload only when its hash has 32 bytes, its signature
  -- decodes, and the payload is releasable under them; the answer is the serialised payload and blobs
  -- with the hash that was asked for, which is then recorded as delivered.
  pub submit_blinded_block-ok :
      (req : Proto.SubmitBlindedBlockRequest) (w w' : World S A) (r : Proto.BlindedBlockResponse)
      → submit_blinded_block h roots keccak256 json S A signer fork_datas req w ≡ some (ok r, w')
      → (length req.block_hash ≡ 32)
        × (r.block_hash ≡ req.block_hash)
        × ((signature : BlsSignature b) × (sig_deserialize b req.signature ≡ ok signature)
            × ((resp : BlindedBlockResponse) × IsReleasable h keccak256 S A fork_datas req.slot
                  req.proposer_index req.block_hash signature w resp
                × (json.payload_to_vec resp.execution_payload ≡ ok r.execution_payload)
                × (r.blobs_bundle ≡ blobs_json json resp.blobs_bundle)))
        × (w' ≡ record w { storage = S.set_delivered_blocks req.block_hash w.storage })
  unfolding submit_blinded_block
  submit_blinded_block-ok req w w' r e = elim (Bool-cases (length req.block_hash == 32)) [
    | inr l ↦ absurd (ground (arith, l))
    | inl l ↦ elim (Result-cases (sig_deserialize b req.signature)) [
      | inr (x, q) ↦ absurd (ground (arith, l, q))
      | inl (g, q) ↦ elim (Result-cases (run req g w).0) [
        | inr (x, t) ↦ absurd (ground (arith, l, q, t))
        | inl (resp, t) ↦
            let iff =
              unblind_block_iff h keccak256 S A fork_datas req.slot req.proposer_index
                req.block_hash g in
            let (rel, state) = (iff w (run req g w).1 resp).0 (ap (λ z. (z, (run req g w).1)) t) in
            elim (Result-cases (json.payload_to_vec resp.execution_payload)) [
              | inr (x, j) ↦ absurd (ground (arith, l, q, t, j))
              | inl (v, j) ↦
                  let (hash, payload, blobs, world) = response req g w w' r resp v l q t j e in
                  (
                    ground (arith, l),
                    hash ∙ rel.same_hash,
                    (g, q, (resp, rel, j ∙ ap ok (sym payload), blobs)),
                    world ∙ state,
                  )
            ]
      ]
    ]
  ]

module _ {b : Bls} (h : ForkRoots) (roots : EntityRoots b) (keccak256 : Bytes → Bytes)
    (json : Json b) (S : Storage b) (c : Cache (Bid b)) (signer : BlsSigner b)
    (fork_datas : ForkDatas) (laws : CacheLaws c) where
  abbrev header_of :
      Proto.RetrieveRequest
      → BlsPublicKey b
      → World S (memory_auctioneer b c)
      → Result UseCaseError (Versioned (SignedHeader b)) × World S (memory_auctioneer b c)
  header_of m key w =
      GetHeader.execute h roots S (memory_auctioneer b c) signer m.slot m.parent_hash key w

  -- The answer to a request for which the use case returns `v` and the slot's best bid is `bid`.
  answered :
      (m : Proto.RetrieveRequest) (key : BlsPublicKey b) (w w' : World S (memory_auctioneer b c))
      (r : Proto.RetrieveResponse) (v : Versioned (SignedHeader b)) (bid : Bid b)
      → (length m.parent_hash == 32) ≡ true
      → pk_deserialize b m.proposer_pubkey ≡ ok key
      → (header_of m key w).0 ≡ ok v
      → (get_best_bid b c m.slot (header_of m key w).1.auctioneer).0 ≡ ok bid
      → answer_retrieve h roots keccak256 json S (memory_auctioneer b c) signer fork_datas m w
        ≡ some (ok r, w')
      → r ≡ record {
        signed_header = or_default (json.header_to_vec v);
        execution_payload = or_default (json.payload_to_vec bid.value.execution_payload);
        blobs_bundle = or_default (json.blobs_to_vec bid.value.blobs_bundle);
      }
  unfolding answer_retrieve
  answered m key w w' r v bid l q t again e = ground (arith, l, q, t, again)

  -- A header request that is answered, with no other event in between, is one of an entitled caller,
  -- and carries the signed header, the payload and the blobs of one bid, the best of the slot, on the
  -- parent hash that was asked for.
  pub answer_retrieve-ok :
      (m : Proto.RetrieveRequest) (w w' : World S (memory_auctioneer b c))
      (r : Proto.RetrieveResponse)
      → answer_retrieve h roots keccak256 json S (memory_auctioneer b c) signer fork_datas m w
        ≡ some (ok r, w')
      → (key : BlsPublicKey b) × (pk_deserialize b m.proposer_pubkey ≡ ok key)
        × IsEntitled h roots S (memory_auctioneer b c) signer m.slot m.parent_hash key w
        × ((bid : Bid b) × (c.peek w.auctioneer m.slot ≡ some bid)
            × (bid.value.message.parent_hash ≡ m.parent_hash)
            × (r ≡ record {
              signed_header = or_default (
                  json.header_to_vec (
                    answer h roots S
                      (memory_auctioneer b c)
                      signer
                      m.slot
                      m.parent_hash
                      key
                      bid.value));
              execution_payload = or_default (json.payload_to_vec bid.value.execution_payload);
              blobs_bundle = or_default (json.blobs_to_vec bid.value.blobs_bundle);
            }))
  unfolding answer_retrieve
  answer_retrieve-ok m w w' r e = elim (Bool-cases (length m.parent_hash == 32)) [
    | inr l ↦ absurd (ground (arith, l))
    | inl l ↦ elim (Result-cases (pk_deserialize b m.proposer_pubkey)) [
      | inr (x, q) ↦ absurd (ground (arith, l, q))
      | inl (key, q) ↦ elim (Result-cases (header_of m key w).0) [
        | inr (x, t) ↦ absurd (ground (arith, l, q, t))
        | inl (v, t) ↦
            let iff =
              get_header_iff h roots S (memory_auctioneer b c) signer m.slot m.parent_hash key in
            let (entitled, (bid, best, parent, same), state) =
              (iff w (header_of m key w).1 v).0 (ap (λ z. (z, (header_of m key w).1)) t) in
            let held : c.peek w.auctioneer m.slot ≡ some bid =
              ground (arith, (get_best_bid_lem b c laws m.slot m.slot w.auctioneer).0, best) in
            let later : c.peek (header_of m key w).1.auctioneer m.slot ≡ some bid =
              ap (λ z. c.peek z.auctioneer m.slot) state
              ∙ (get_best_bid_lem b c laws m.slot m.slot w.auctioneer).1
              ∙ held in
            let again =
              (get_best_bid_lem b c laws m.slot m.slot (header_of m key w).1.auctioneer).0
              ∙ ap (λ o. ok_or o (bid_not_found m.slot)) later in
            (
              key,
              q,
              entitled,
              (bid, held, parent, rw (← same) (answered m key w w' r v bid l q t again e)),
            )
      ]
    ]
  ]
