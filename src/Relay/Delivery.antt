-- ===== src/Relay/Delivery.antt =====
-- From the header to the payload: crates/usecase/src/{get_header,submit_bid,unblind_block}.rs together.
use mev_relay_rs.Prelude.{
  ℕ, ◌≡◌, ◌≢◌, refl, sym, ap, ◌∙◌, subst, true, some, ok, arith, Bytes, List, beq_refl,
}
use mev_relay_rs.Crypto.Blst.{Bls}
use mev_relay_rs.Crypto.Keys.{BlsPublicKey, BlsSignature, sig_verify}
use mev_relay_rs.Crypto.Fork.{ForkDatas, ForkRoots, compute_proposer_domain}
use mev_relay_rs.Crypto.Signer.{BlsSigner}
use mev_relay_rs.Entity.Types.{B256}
use mev_relay_rs.Entity.Bid.{
  BidSubmission, BlindedBlockResponse, EntityRoots, SignedHeader, Versioned, build_header,
  to_blinded_block_response,
}
use mev_relay_rs.Entity.Validator.{ProposerDuty, ValidatorRegistration}
use mev_relay_rs.Datastore.MemoryStorage.{
  memory_storage, find_duty_by_slot, read_blinded_block_response, set_blinded_block_response,
  read_validator_registration,
}
use mev_relay_rs.Datastore.MemoryStorage.Laws.{read-set_blinded}
use mev_relay_rs.Datastore.Cache.{Cache, CacheLaws}
use mev_relay_rs.Datastore.MemoryAuctioneer.{memory_auctioneer}
use mev_relay_rs.Datastore.MemoryAuctioneer.Laws.{Bid, get_best_bid_lem}
use mev_relay_rs.UseCase.Exec.{Exec}
use mev_relay_rs.UseCase.SubmitBid
use mev_relay_rs.UseCase.SubmitBid.Laws.{submit_bid_iff}
use mev_relay_rs.UseCase.GetHeader
use mev_relay_rs.UseCase.GetHeader.Laws.{IsEntitled, get_header_iff}
use mev_relay_rs.UseCase.UnblindBlock
use mev_relay_rs.UseCase.UnblindBlock.{blinded_block_signing_root}
use mev_relay_rs.UseCase.UnblindBlock.Laws.{unblind_block_iff}
use mev_relay_rs.Relay.State.{RelayWorld, next_slot, IsSound, Reach, initial}
use mev_relay_rs.Relay.Soundness.{relay-IsSound}

module _ {b : Bls} (h : ForkRoots) (roots : EntityRoots b) (keccak256 : Bytes → Bytes)
    (c : Cache (Bid b)) (signer : BlsSigner b) (fork_datas : ForkDatas) (laws : CacheLaws c) where
  abbrev get_header : ℕ → B256 → BlsPublicKey b → Exec (RelayWorld b c) (Versioned (SignedHeader b))
  get_header slot parent_hash key =
      GetHeader.execute h roots (memory_storage b) (memory_auctioneer b c) signer slot parent_hash
        key

  abbrev unblind_block : ℕ → ℕ → B256 → BlsSignature b → Exec (RelayWorld b c) BlindedBlockResponse
  unblind_block slot index hash signature =
      UnblindBlock.execute h keccak256 (memory_storage b) (memory_auctioneer b c) fork_datas slot
        index hash signature

  -- In a sound relay the payload of the slot's best bid is stored for an entitled caller.
  pub stored-entitled :
      (slot : ℕ) (parent_hash : B256) (key : BlsPublicKey b) (w : RelayWorld b c) (bid : Bid b)
      → IsSound c w
      → IsEntitled h roots (memory_storage b) (memory_auctioneer b c) signer slot parent_hash key w
      → c.peek w.auctioneer slot ≡ some bid
      → read_blinded_block_response b key w.storage ≡ some (to_blinded_block_response bid.value)
  stored-entitled slot parent_hash key w bid s t held =
      let next : next_slot c w ≡ slot = t.next in
      subst
        (λ (k : BlsPublicKey b).
          read_blinded_block_response b k w.storage ≡ some (to_blinded_block_response bid.value))
        t.owns
        (s.in_sync t.duty bid
          (subst (λ (k : ℕ). find_duty_by_slot b k w.storage ≡ some t.duty) (sym next) t.found)
          (subst (λ (k : ℕ). c.peek w.auctioneer k ≡ some bid) (sym next) held))

  -- A payload that is stored for a registered proposer is released to their signature.
  pub unblind-stored :
      (slot : ℕ) (key : BlsPublicKey b) (w : RelayWorld b c) (bid : BidSubmission b)
      (duty : ProposerDuty b) (r : ValidatorRegistration b) (hash : B256)
      (signature : BlsSignature b)
      → find_duty_by_slot b slot w.storage ≡ some duty
      → duty.pubkey ≡ key
      → read_validator_registration b duty.pubkey w.storage ≡ some r
      → sig_verify b signature key (
          blinded_block_signing_root keccak256 slot duty.validator_index hash
            (compute_proposer_domain h fork_datas))
        ≡ true
      → read_blinded_block_response b key w.storage ≡ some (to_blinded_block_response bid)
      → bid.execution_payload.block_hash ≡ hash
      → (unblind_block slot duty.validator_index hash signature w).0
        ≡ ok (to_blinded_block_response bid)
  unfolding to_blinded_block_response
  unblind-stored slot key w bid duty r hash signature found own registered signed stored same =
      let iff =
        unblind_block_iff h keccak256 (memory_storage b) (memory_auctioneer b c) fork_datas slot
          duty.validator_index hash signature in
      let released = (iff w _ (to_blinded_block_response bid)).1 (
        record {
          duty = duty;
          found = found;
          same_index = refl;
          registration = r;
          registered = registered;
          signed = rw own signed;
          stored = rw own stored;
          same_hash = same;
        },
        refl,
      ) in
      ap (λ x. x.0) released

  -- In every state that a new relay reaches by the events of `Step`: when a header is returned to a
  -- proposer, a request to unblind it that follows at once, with the duty's validator index and a
  -- signature that verifies under the proposer's key, is answered with the payload and the blobs of
  -- the slot's best bid, and the returned header is the one of that bid.
  pub unblind-get_header :
      (whitelist : List (BlsPublicKey b)) (ttl slot : ℕ) (parent_hash : B256) (key : BlsPublicKey b)
      (w w' : RelayWorld b c) (v : Versioned (SignedHeader b)) (duty : ProposerDuty b)
      (signature : BlsSignature b)
      → Reach h roots keccak256 c signer fork_datas (initial c whitelist ttl) w
      → get_header slot parent_hash key w ≡ (ok v, w')
      → find_duty_by_slot b slot w.storage ≡ some duty
      → sig_verify b signature key (
          blinded_block_signing_root keccak256 slot duty.validator_index
            v.contents.message.block_hash
            (compute_proposer_domain h fork_datas))
        ≡ true
      → (bid : Bid b) × (c.peek w.auctioneer slot ≡ some bid)
        × (v.contents.message ≡ build_header roots bid.value)
        × ((unblind_block slot duty.validator_index v.contents.message.block_hash signature w').0
            ≡ ok (to_blinded_block_response bid.value))
  unfolding build_header
  unblind-get_header whitelist ttl slot parent_hash key w w' v duty signature reach e found signed =
      let s = relay-IsSound h roots keccak256 c signer fork_datas laws whitelist ttl reach in
      let iff =
        get_header_iff h roots (memory_storage b) (memory_auctioneer b c) signer slot parent_hash
          key in
      let (t, (bid, best, _, header), state) = (iff w w' v).0 e in
      let held : c.peek w.auctioneer slot ≡ some bid =
        ground (arith, (get_best_bid_lem b c laws slot slot w.auctioneer).0, best) in
      let same : v.contents.message ≡ build_header roots bid.value =
        ap (λ x. x.contents.message) header in
      let kept : w'.storage ≡ w.storage = ap (λ x. x.storage) state in
      let own : duty.pubkey ≡ key = cc (found, t.found, t.owns) in
      (
        bid,
        held,
        same,
        unblind-stored slot key w' bid.value duty t.registration v.contents.message.block_hash
            signature (rw kept found) own (rw (kept, own) t.registered) signed
            (rw kept (stored-entitled slot parent_hash key w bid s t held)) (rw same refl),
      )

  -- Right after a bid is accepted, no request that follows at once with a block hash other than its
  -- own payload's is answered with a payload, in any slot whose duty is of the same proposer and under
  -- any signature, so not one for a header that was returned before.
  pub unblind-submit_bid :
      (bid : BidSubmission b) (w w' : RelayWorld b c) (duty later : ProposerDuty b) (slot index : ℕ)
      (hash : B256) (signature : BlsSignature b)
      → SubmitBid.execute h roots (memory_storage b) (memory_auctioneer b c) fork_datas bid w
        ≡ (ok tt, w')
      → find_duty_by_slot b bid.message.slot w.storage ≡ some duty
      → find_duty_by_slot b slot w.storage ≡ some later
      → later.pubkey ≡ duty.pubkey
      → hash ≢ bid.execution_payload.block_hash
      → (r : BlindedBlockResponse) → (unblind_block slot index hash signature w').0 ≢ ok r
  unfolding to_blinded_block_response set_blinded_block_response find_duty_by_slot
  unblind-submit_bid bid w w' duty later slot index hash signature e found found' own differ r p =
      let bids = submit_bid_iff h roots (memory_storage b) (memory_auctioneer b c) fork_datas bid in
      let (d, t, _, state) = (bids w w').0 e in
      let iff =
        unblind_block_iff h keccak256 (memory_storage b) (memory_auctioneer b c) fork_datas slot
          index hash signature in
      let (q, _) =
        (iff w' (unblind_block slot index hash signature w').1 r).0
          (ap (λ x. (x, (unblind_block slot index hash signature w').1)) p) in
      let same : d ≡ duty = cc (t.found, found) in
      let kept : find_duty_by_slot b slot w'.storage ≡ find_duty_by_slot b slot w.storage =
        rw state refl in
      let same' : q.duty ≡ later = cc (q.found, found', kept) in
      let newest : read_blinded_block_response b d.pubkey w'.storage
          ≡ some (to_blinded_block_response bid) =
        rw state (
          read-set_blinded b d.pubkey d.pubkey (to_blinded_block_response bid) w.storage
          ∙ rw (beq_refl b.pk_eq d.pubkey)) in
      let own' : q.duty.pubkey ≡ d.pubkey = cc (same', own, same) in
      let held : r ≡ to_blinded_block_response bid = cc (q.stored, newest, own') in
      differ (sym q.same_hash ∙ ap (λ x. x.execution_payload.block_hash) held)
