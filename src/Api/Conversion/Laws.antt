-- ===== src/Api/Conversion/Laws.antt =====
-- What a message that converts says, and which bounds the entity then keeps.
use mev_relay_rs.Prelude.{
  ℕ, ◌^◌, ◌≤◌, ◌≡◌, refl, sym, Bytes, List, some, ok, ok_or, collect, length, >>=-eq-ok,
  ok-injective,
}
use mev_relay_rs.Crypto.Blst.{Bls}
use mev_relay_rs.Crypto.Keys.{pk_deserialize, sig_deserialize}
use mev_relay_rs.Entity.Payload.{ExecutionPayload, Withdrawal, BlobsBundle}
use mev_relay_rs.Entity.Bid.{BidSubmission, BidTrace}
use mev_relay_rs.Api.Proto
use mev_relay_rs.Api.Conversion.{
  Codecs, CodecLaws, panics, refuse, fixed_vector, variable_list, u256, bls_public_key,
  bls_signature, bytes_to_b256, bytes_to_address, bytes_to_bytes48, bytes_to_blob,
  try_from_withdrawal, try_from_blobs, try_from_payload, try_from_trace, try_from_bid,
  blobs_or_default,
}
use mev_relay_rs.Api.Conversion.Fields.{
  bytes_to_b256-ok, bytes_to_address-ok, bytes_to_bytes48-ok, bytes_to_blob-ok, refuse-ok, ok_or-ok,
  collect-Each, Each, Copies, WithdrawalOf, BlobsOf, PayloadOf, TraceOf,
}

withdrawal-of :
    (m : Proto.Withdrawal) (w : Withdrawal) → try_from_withdrawal m ≡ ok w → WithdrawalOf m w
unfolding try_from_withdrawal
withdrawal-of m w e =
    let (a, p, r) = >>=-eq-ok (bytes_to_address m.address) _ e in
    let same : w ≡ record {
      index = m.index;
      validator_index = m.validator_index;
      address = a;
      amount = m.amount;
    } =
      cc in
    rw same (record {
      index = refl;
      validator_index = refl;
      address = bytes_to_address-ok m.address a p;
      amount = refl;
    })

blobs-of : (m : Proto.BlobsBundle) (v : BlobsBundle) → try_from_blobs m ≡ ok v → BlobsOf m v
unfolding try_from_blobs
blobs-of m v e =
    let (c, p, r1) = >>=-eq-ok (collect bytes_to_bytes48 m.commitments) _ e in
    let (q, s, r2) = >>=-eq-ok (collect bytes_to_bytes48 m.proofs) _ r1 in
    let (x, t, r3) = >>=-eq-ok (collect bytes_to_blob m.blobs) _ r2 in
    let same : v ≡ record { commitments = c; proofs = q; blobs = x } = cc in
    rw same (record {
      commitments = collect-Each bytes_to_bytes48 (Copies 48) bytes_to_bytes48-ok m.commitments c p;
      proofs = collect-Each bytes_to_bytes48 (Copies 48) bytes_to_bytes48-ok m.proofs q s;
      blobs = collect-Each bytes_to_blob (Copies 131072) bytes_to_blob-ok m.blobs x t;
    })

trace-of :
    (b : Bls) (k : Codecs) (m : Proto.BidTrace) (t : BidTrace b)
    → try_from_trace b k m ≡ ok t
    → TraceOf b k m t
unfolding try_from_trace
trace-of b k m t e =
    let (a1, p1, e1) = >>=-eq-ok (bytes_to_b256 m.parent_hash) _ e in
    let (a2, p2, e2) = >>=-eq-ok (bytes_to_b256 m.block_hash) _ e1 in
    let (a3, p3, e3) = >>=-eq-ok (refuse (pk_deserialize b m.builder_pubkey) bls_public_key) _ e2 in
    let (a4, p4, e4) =
      >>=-eq-ok (refuse (pk_deserialize b m.proposer_pubkey) bls_public_key) _ e3 in
    let (a5, p5, e5) = >>=-eq-ok (bytes_to_address m.proposer_fee_recipient) _ e4 in
    let (a6, p6, e6) = >>=-eq-ok (refuse (k.u256_from_str m.value) u256) _ e5 in
    let same : t ≡ record {
      slot = m.slot;
      parent_hash = a1;
      block_hash = a2;
      builder_pubkey = a3;
      proposer_pubkey = a4;
      proposer_fee_recipient = a5;
      gas_limit = m.gas_limit;
      gas_used = m.gas_used;
      value = a6;
    } =
      sym (ok-injective _ _ t refl e6) in
    rw same (record {
      numbers = (refl, refl, refl);
      parent_hash = bytes_to_b256-ok m.parent_hash a1 p1;
      block_hash = bytes_to_b256-ok m.block_hash a2 p2;
      builder_pubkey = refuse-ok (pk_deserialize b m.builder_pubkey) bls_public_key a3 p3;
      proposer_pubkey = refuse-ok (pk_deserialize b m.proposer_pubkey) bls_public_key a4 p4;
      proposer_fee_recipient = bytes_to_address-ok m.proposer_fee_recipient a5 p5;
      value = refuse-ok (k.u256_from_str m.value) u256 a6 p6;
    })

module _ (k : Codecs) (laws : CodecLaws k) where
  tx-of :
      (x y : Bytes)
      → refuse (k.variable_list_new (2 ^ 30) x) variable_list ≡ ok y
      → (y ≡ x) × (length x ≤ 2 ^ 30)
  tx-of x y e = (laws.variable_list_iff (2 ^ 30) x y).0 (refuse-ok _ variable_list y e)

  bounded :
      {A B : Type 0} (R : A → B → Type 0) (n : ℕ) (ms : List A) (inner ys : List B)
      → Each R ms inner
      → refuse (k.variable_list_new n inner) variable_list ≡ ok ys
      → Each R ms ys × (length ys ≤ n)
  bounded R n ms inner ys h e =
      let (same, bound) = (laws.variable_list_iff n inner ys).0 (refuse-ok _ variable_list ys e) in
      rw same (h, bound)

  payload-of :
      (m : Proto.ExecutionPayload) (p : ExecutionPayload)
      → try_from_payload k m ≡ ok p
      → PayloadOf k m p
  unfolding try_from_payload
  payload-of m p e =
      let (a1, p1, e1) = >>=-eq-ok (bytes_to_b256 m.parent_hash) _ e in
      let (a2, p2, e2) = >>=-eq-ok (bytes_to_address m.fee_recipient) _ e1 in
      let (a3, p3, e3) = >>=-eq-ok (bytes_to_b256 m.state_root) _ e2 in
      let (a4, p4, e4) = >>=-eq-ok (bytes_to_b256 m.receipts_root) _ e3 in
      let (a5, p5, e5) =
        >>=-eq-ok (refuse (k.fixed_vector_new 256 m.logs_bloom) fixed_vector) _ e4 in
      let (a6, p6, e6) = >>=-eq-ok (bytes_to_b256 m.prev_randao) _ e5 in
      let (a7, p7, e7) =
        >>=-eq-ok (refuse (k.variable_list_new 32 m.extra_data) variable_list) _ e6 in
      let (a8, p8, e8) = >>=-eq-ok (ok_or (k.from_be_slice m.base_fee_per_gas) panics) _ e7 in
      let (a9, p9, e9) = >>=-eq-ok (bytes_to_b256 m.block_hash) _ e8 in
      let (i1, q1, f1) = >>=-eq-ok (collect _ m.transactions) _ e9 in
      let (a10, p10, e10) =
        >>=-eq-ok (refuse (k.variable_list_new (2 ^ 20) i1) variable_list) _ f1 in
      let (i2, q2, f2) = >>=-eq-ok (collect try_from_withdrawal m.withdrawals) _ e10 in
      let (a11, p11, e11) = >>=-eq-ok (refuse (k.variable_list_new 16 i2) variable_list) _ f2 in
      let fee = ok_or-ok (k.from_be_slice m.base_fee_per_gas) panics a8 p8 in
      let same : p ≡ record {
        parent_hash = a1;
        fee_recipient = a2;
        state_root = a3;
        receipts_root = a4;
        logs_bloom = a5;
        prev_randao = a6;
        block_number = m.block_number;
        gas_limit = m.gas_limit;
        gas_used = m.gas_used;
        timestamp = m.timestamp;
        extra_data = a7;
        base_fee_per_gas = a8;
        block_hash = a9;
        transactions = a10;
        withdrawals = a11;
        blob_gas_used = m.blob_gas_used;
        excess_blob_gas = m.excess_blob_gas;
      } =
        sym (ok-injective _ _ p refl e11) in
      rw same (record {
        parent_hash = bytes_to_b256-ok m.parent_hash a1 p1;
        fee_recipient = bytes_to_address-ok m.fee_recipient a2 p2;
        state_root = bytes_to_b256-ok m.state_root a3 p3;
        receipts_root = bytes_to_b256-ok m.receipts_root a4 p4;
        logs_bloom = (laws.fixed_vector_iff 256 m.logs_bloom a5).0 (refuse-ok _ fixed_vector a5 p5);
        prev_randao = bytes_to_b256-ok m.prev_randao a6 p6;
        numbers = (refl, refl, refl, refl, refl, refl);
        extra_data =
            (laws.variable_list_iff 32 m.extra_data a7).0 (refuse-ok _ variable_list a7 p7);
        base_fee = (fee, (laws.from_be_slice_iff m.base_fee_per_gas).0 (a8, fee));
        block_hash = bytes_to_b256-ok m.block_hash a9 p9;
        transactions =
            bounded _ (2 ^ 20) m.transactions i1 a10 (collect-Each _ _ tx-of m.transactions i1 q1)
              p10;
        withdrawals =
            bounded WithdrawalOf 16 m.withdrawals i2 a11
              (collect-Each try_from_withdrawal WithdrawalOf withdrawal-of m.withdrawals i2 q2) p11;
      })

  -- The submission is the request, field by field.
  pub record BidOf (b : Bls) (req : Proto.BidRequest) (bid : BidSubmission b) : Type 0 where
    pub trace : Proto.BidTrace
    pub has_trace : req.bid_trace ≡ some trace
    pub payload : Proto.ExecutionPayload
    pub has_payload : req.execution_payload ≡ some payload
    pub message : TraceOf b k trace bid.message
    pub execution_payload : PayloadOf k payload bid.execution_payload
    pub blobs_bundle : BlobsOf (blobs_or_default b k req.blobs_bundle) bid.blobs_bundle
    pub signature : sig_deserialize b req.signature ≡ ok bid.signature

  -- A bid request that converts has a trace and a payload, and the submission is all of it: every
  -- hash has 32 bytes, every address 20 and the bloom filter 256, the lists keep the bounds of the
  -- entity's types, keys and signature decode, and nothing is changed or left out.
  pub try_from_bid-BidOf :
      (b : Bls) (req : Proto.BidRequest) (bid : BidSubmission b)
      → try_from_bid b k req ≡ ok bid
      → BidOf b req bid
  unfolding try_from_bid
  try_from_bid-BidOf b req bid e =
      let (t, p1, e1) = >>=-eq-ok (ok_or req.bid_trace _) _ e in
      let (x, p2, e2) = >>=-eq-ok (ok_or req.execution_payload _) _ e1 in
      let (a3, p3, e3) = >>=-eq-ok (try_from_trace b k t) _ e2 in
      let (a4, p4, e4) = >>=-eq-ok (try_from_payload k x) _ e3 in
      let (a5, p5, e5) = >>=-eq-ok (try_from_blobs (blobs_or_default b k req.blobs_bundle)) _ e4 in
      let (a6, p6, e6) = >>=-eq-ok (refuse (sig_deserialize b req.signature) bls_signature) _ e5 in
      let same : bid
          ≡ record { message = a3; execution_payload = a4; blobs_bundle = a5; signature = a6 } =
        sym (ok-injective _ _ bid refl e6) in
      rw same (record {
        trace = t;
        has_trace = ok_or-ok req.bid_trace _ t p1;
        payload = x;
        has_payload = ok_or-ok req.execution_payload _ x p2;
        message = trace-of b k t a3 p3;
        execution_payload = payload-of x a4 p4;
        blobs_bundle = blobs-of (blobs_or_default b k req.blobs_bundle) a5 p5;
        signature = refuse-ok (sig_deserialize b req.signature) bls_signature a6 p6;
      })
