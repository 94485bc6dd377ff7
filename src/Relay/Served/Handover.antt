-- ===== src/Relay/Served/Handover.antt =====
-- From the answer to a header request to the answer to the signed blinded block, both as messages of
-- crates/api/src/retriever_service.rs.
use mev_relay_rs.Prelude.{
  ℕ, ◌≡◌, refl, sym, ap, ◌∙◌, true, Option, none, some, Result, ok, arith, Bool-cases, Result-cases,
  inl, inr, length, ◌==◌, [], Bytes, List,
}
use mev_relay_rs.Crypto.Blst.{Bls}
use mev_relay_rs.Crypto.Keys.{
  BlsPublicKey, BlsSignature, pk_deserialize, sig_deserialize, sig_verify,
}
use mev_relay_rs.Crypto.Fork.{ForkDatas, ForkRoots, compute_proposer_domain}
use mev_relay_rs.Crypto.Signer.{BlsSigner}
use mev_relay_rs.Entity.Types.{B256}
use mev_relay_rs.Entity.Payload.{ExecutionPayload}
use mev_relay_rs.Entity.Bid.{
  BlindedBlockResponse, EntityRoots, SignedHeader, Versioned, build_header,
  to_blinded_block_response,
}
use mev_relay_rs.Entity.Validator.{ProposerDuty}
use mev_relay_rs.Datastore.MemoryStorage.{memory_storage, find_duty_by_slot}
use mev_relay_rs.Datastore.Cache.{Cache, CacheLaws}
use mev_relay_rs.Datastore.MemoryAuctioneer.{memory_auctioneer}
use mev_relay_rs.Datastore.MemoryAuctioneer.Laws.{Bid}
use mev_relay_rs.UseCase.GetHeader
use mev_relay_rs.UseCase.GetHeader.Laws.{answer}
use mev_relay_rs.UseCase.UnblindBlock
use mev_relay_rs.UseCase.UnblindBlock.{blinded_block_signing_root}
use mev_relay_rs.Api.Proto
use mev_relay_rs.Api.Conversion.{Codecs, CodecLaws}
use mev_relay_rs.Api.Stream.{Status}
use mev_relay_rs.Api.Retriever
use mev_relay_rs.Api.Retriever.{Json, or_default, blobs_json}
use mev_relay_rs.Api.Retriever.Laws.{answer_retrieve-ok}
use mev_relay_rs.Relay.State.{RelayWorld, initial}
use mev_relay_rs.Relay.Soundness.{relay-IsSound, retrieve_keeps}
use mev_relay_rs.Relay.Delivery.{stored-entitled, unblind-stored}
use mev_relay_rs.Relay.Served.{Served, IsCalm, answer_retrieve, submit_blinded_block}
use mev_relay_rs.Relay.Served.Bounds.{Served-IsSizedWorld}
use mev_relay_rs.Relay.Served.Steps.{Served-Reach}

-- A proposer that reads the block hash out of a header's JSON, which nothing is not; and a payload is
-- always serialised.
pub record Reader {b : Bls} (json : Json b) : Type 0 where
  pub read_block_hash : Bytes → Option B256
  pub read-written :
      (v : Versioned (SignedHeader b)) (bytes : Bytes)
      → json.header_to_vec v ≡ ok bytes
      → read_block_hash bytes ≡ some v.contents.message.block_hash
  pub read-nothing : read_block_hash [] ≡ none
  pub written : (p : ExecutionPayload) → (bytes : Bytes) × (json.payload_to_vec p ≡ ok bytes)

read-or_default :
    {b : Bls} (json : Json b) (reader : Reader json) (v : Versioned (SignedHeader b)) (hash : B256)
    → reader.read_block_hash (or_default (json.header_to_vec v)) ≡ some hash
    → v.contents.message.block_hash ≡ hash
read-or_default json reader v hash e = elim (Result-cases (json.header_to_vec v)) [
  | inl (bytes, p) ↦ ground (arith, p, reader.read-written v bytes p, e)
  | inr (x, p) ↦ absurd (ground (arith, p, reader.read-nothing, e))
]

same_response :
    (payload payload' blobs blobs' hash hash' : Bytes)
    → payload ≡ payload'
    → blobs ≡ blobs'
    → hash ≡ hash'
    → Path Proto.BlindedBlockResponse
        (record { execution_payload = payload; blobs_bundle = blobs; block_hash = hash })
        (record { execution_payload = payload'; blobs_bundle = blobs'; block_hash = hash' })
same_response payload payload' blobs blobs' hash hash' p x h = rw (p, x, h) refl

module _ {b : Bls} (h : ForkRoots) (roots : EntityRoots b) (keccak256 : Bytes → Bytes)
    (codecs : Codecs) (json : Json b) (c : Cache (Bid b)) (signer : BlsSigner b)
    (fork_datas : ForkDatas) (laws : CacheLaws c) where
  -- A header request, with both of its reads, changes nothing of the storage.
  answer_retrieve-storage :
      (m : Proto.RetrieveRequest) (r : Result Status Proto.RetrieveResponse) (w u : RelayWorld b c)
      → answer_retrieve h roots keccak256 codecs json c signer fork_datas m w ≡ some (r, u)
      → u.storage ≡ w.storage
  unfolding Retriever.answer_retrieve
  answer_retrieve-storage m r w u e = elim (Bool-cases (length m.parent_hash == 32)) [
    | inr l ↦ absurd (ground (arith, l))
    | inl l ↦ elim (Result-cases (pk_deserialize b m.proposer_pubkey)) [
      | inr (x, q) ↦ ground (arith, l, q)
      | inl (key, q) ↦
          let run =
            GetHeader.execute h roots (memory_storage b) (memory_auctioneer b c) signer m.slot
              m.parent_hash key w in
          let (kept, _, _) =
            retrieve_keeps h roots keccak256 c signer fork_datas laws m.slot m.parent_hash key w in
          elim (Result-cases run.0) [
            | inr (y, t) ↦ ground (arith, l, q, t, kept)
            | inl (v, t) ↦ ground (arith, l, q, t, kept)
          ]
    ]
  ]

  -- The answer to a blinded block whose payload the use case releases.
  submit_blinded_block-released :
      (req : Proto.SubmitBlindedBlockRequest) (g : BlsSignature b) (w : RelayWorld b c)
      (resp : BlindedBlockResponse) (payload : Bytes)
      → (length req.block_hash == 32) ≡ true
      → sig_deserialize b req.signature ≡ ok g
      → (UnblindBlock.execute h keccak256
          (memory_storage b)
          (memory_auctioneer b c)
          fork_datas
          req.slot
          req.proposer_index
          req.block_hash
          g
          w).0
        ≡ ok resp
      → json.payload_to_vec resp.execution_payload ≡ ok payload
      → (u : RelayWorld b c) × (submit_blinded_block h roots keccak256 codecs json c signer
            fork_datas req w
          ≡ some (
            ok (record {
              execution_payload = payload;
              blobs_bundle = blobs_json json resp.blobs_bundle;
              block_hash = resp.execution_payload.block_hash;
            }),
            u,
          ))
  unfolding Retriever.submit_blinded_block
  submit_blinded_block-released req g w resp payload l q t j =
      let run =
        UnblindBlock.execute h keccak256 (memory_storage b) (memory_auctioneer b c) fork_datas
          req.slot req.proposer_index req.block_hash g w in
      (run.1, ground (arith, l, q, t, j))

  -- In every state that a new relay reaches by messages to its services, each handled to its end
  -- before the next, and by other events of which those that move the head or change the duties come
  -- only while there is no bid for the slot that is next before the duties change or after the head
  -- moves: when a proposer's header request is answered, a signed blinded block for the block hash that
  -- the proposer reads out of that answer, which follows at once, with the validator index of the
  -- slot's duty and a signature that verifies under their key, never panics, and is answered with the
  -- very payload and blobs of the first answer; when a serialised header gives its block hash back, a
  -- payload can be serialised, and the vectors of `ssz_types` check their length.
  pub handover :
      (codec_laws : CodecLaws codecs) (reader : Reader json) (whitelist : List (BlsPublicKey b))
      (ttl : ℕ) (m : Proto.RetrieveRequest) (key : BlsPublicKey b) (w w' : RelayWorld b c)
      (r : Proto.RetrieveResponse) (duty : ProposerDuty b) (hash : B256) (signature : Bytes)
      (g : BlsSignature b)
      (served : Served h roots keccak256 codecs json c signer fork_datas
        (initial c whitelist ttl)
        w)
      → IsCalm h roots keccak256 codecs json c signer fork_datas served
      → answer_retrieve h roots keccak256 codecs json c signer fork_datas m w ≡ some (ok r, w')
      → pk_deserialize b m.proposer_pubkey ≡ ok key
      → find_duty_by_slot b m.slot w.storage ≡ some duty
      → reader.read_block_hash r.signed_header ≡ some hash
      → sig_deserialize b signature ≡ ok g
      → sig_verify b g key (
          blinded_block_signing_root keccak256 m.slot duty.validator_index hash
            (compute_proposer_domain h fork_datas))
        ≡ true
      → (u : RelayWorld b c) × (submit_blinded_block h roots keccak256 codecs json c signer
            fork_datas
            (record {
              slot = m.slot;
              proposer_index = duty.validator_index;
              block_hash = hash;
              signature = signature;
            })
            w'
          ≡ some (
            ok (record {
              execution_payload = r.execution_payload;
              blobs_bundle = r.blobs_bundle;
              block_hash = hash;
            }),
            u,
          ))
  unfolding build_header to_blinded_block_response
  handover codec_laws reader whitelist ttl m key w w' r duty hash signature g served calm e pk found
        read sig signed =
      let reach = Served-Reach h roots keccak256 codecs json c signer fork_datas laws served calm in
      let sound = relay-IsSound h roots keccak256 c signer fork_datas laws whitelist ttl reach in
      let sized =
        Served-IsSizedWorld h roots keccak256 codecs json c signer fork_datas laws codec_laws
          whitelist ttl served in
      let (key', pk', t, (bid, held, _, same)) =
        answer_retrieve-ok h roots keccak256 json (memory_storage b) c signer fork_datas laws m w w'
          r e in
      let one_key : key' ≡ key = cc (pk, pk') in
      let kept : w'.storage ≡ w.storage = answer_retrieve-storage m (ok r) w w' e in
      let own : duty.pubkey ≡ key = cc (found, t.found, t.owns, one_key) in
      let header =
        answer h roots (memory_storage b) (memory_auctioneer b c) signer m.slot m.parent_hash key'
          bid.value in
      let own_hash : bid.value.execution_payload.block_hash ≡ hash =
        read-or_default json reader header hash (
          ap (λ (x : Proto.RetrieveResponse). reader.read_block_hash x.signed_header) (sym same)
          ∙ read) in
      let size : length hash ≡ 32 =
        ap (λ (x : Bytes). length x) (sym own_hash)
        ∙ (sized.bids m.slot bid held).execution_payload.block_hash in
      let fits : (length hash == 32) ≡ true = ground (arith, size) in
      let stored =
        stored-entitled h roots keccak256 c signer fork_datas laws m.slot m.parent_hash key' w bid
          sound t held in
      let released =
        unblind-stored h roots keccak256 c signer fork_datas laws m.slot key w' bid.value duty
          t.registration hash g (rw kept found) own (rw (kept, own, ← one_key) t.registered) signed
          (rw (kept, ← one_key) stored) own_hash in
      let (payload, written) = reader.written bid.value.execution_payload in
      let (u, answered) =
        submit_blinded_block-released
          (record {
            slot = m.slot;
            proposer_index = duty.validator_index;
            block_hash = hash;
            signature = signature;
          })
          g w' (to_blinded_block_response bid.value) payload fits sig released written in
      let same_payload : payload ≡ r.execution_payload =
        sym (ap or_default written)
        ∙ ap (λ (x : Proto.RetrieveResponse). x.execution_payload) (sym same) in
      let same_blobs : or_default (json.blobs_to_vec bid.value.blobs_bundle) ≡ r.blobs_bundle =
        ap (λ (x : Proto.RetrieveResponse). x.blobs_bundle) (sym same) in
      (
        u,
        answered
            ∙ ap (λ (x : Proto.BlindedBlockResponse). some (ok x, u))
                (same_response _ _ _ _ _ _ same_payload same_blobs own_hash),
      )
