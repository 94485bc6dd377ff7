-- ===== src/Api/Conversion/Exact.antt =====
-- Which messages of crates/api/src/conversion.rs convert, and to what: the converse of Laws.
use mev_relay_rs.Prelude.{
  ℕ, ◌^◌, ◌≤◌, ◌≡◌, ◌↔◌, refl, Bytes, List, [], ◌∷◌, Option, some, Message, Result, ok, ok_or,
  collect, length, arith,
}
use mev_relay_rs.Crypto.Blst.{Bls}
use mev_relay_rs.Entity.Payload.{ExecutionPayload, Withdrawal, BlobsBundle}
use mev_relay_rs.Entity.Bid.{BidSubmission, BidTrace}
use mev_relay_rs.Api.Proto
use mev_relay_rs.Api.Conversion.{
  Codecs, CodecLaws, ConversionError, Failure, refuse, variable_list, bytes_to_b256,
  bytes_to_address, bytes_to_bytes48, bytes_to_blob, try_from_withdrawal, try_from_blobs,
  try_from_payload, try_from_trace, try_from_bid, blobs_or_default,
}
use mev_relay_rs.Api.Conversion.Fields.{Each, Copies, WithdrawalOf, BlobsOf, PayloadOf, TraceOf}
use mev_relay_rs.Api.Conversion.Laws.{BidOf, try_from_bid-BidOf}

copy_32 : (m h : Bytes) → Copies 32 m h → bytes_to_b256 m ≡ ok h
unfolding bytes_to_b256
copy_32 m h (same, n) = ground arith

copy_20 : (m h : Bytes) → Copies 20 m h → bytes_to_address m ≡ ok h
unfolding bytes_to_address
copy_20 m h (same, n) = ground arith

copy_48 : (m h : Bytes) → Copies 48 m h → bytes_to_bytes48 m ≡ ok h
unfolding bytes_to_bytes48
copy_48 m h (same, n) = ground arith

copy_blob : (m h : Bytes) → Copies 131072 m h → bytes_to_blob m ≡ ok h
unfolding bytes_to_blob
copy_blob m h (same, n) = ground arith

accept :
    {A : Type 0} (r : Result Message A) (f : Message → ConversionError) (a : A)
    → r ≡ ok a
    → refuse r f ≡ ok a
accept r f a e = rw e refl

present : {A : Type 0} (o : Option A) (x : Failure) (a : A) → o ≡ some a → ok_or o x ≡ ok a
present o x a e = rw e refl

each :
    {A B : Type 0} (f : A → Result Failure B) (R : A → B → Type 0)
    → ((x : A) (y : B) → R x y → f x ≡ ok y)
    → (xs : List A) (ys : List B) → Each R xs ys
    → collect f xs ≡ ok ys
each f R h [] [] e = refl
each f R h [] (y ∷ ys) e = elim e [ ]
each f R h (x ∷ xs) [] e = elim e [ ]
each f R h (x ∷ xs) (y ∷ ys) (p, q) = rw (h x y p, each f R h xs ys q) refl

withdrawal :
    (m : Proto.Withdrawal) (w : Withdrawal) → WithdrawalOf m w → try_from_withdrawal m ≡ ok w
unfolding try_from_withdrawal
withdrawal m w d =
    rw (copy_20 m.address w.address d.address, ← d.index, ← d.validator_index, ← d.amount) refl

blobs : (m : Proto.BlobsBundle) (v : BlobsBundle) → BlobsOf m v → try_from_blobs m ≡ ok v
unfolding try_from_blobs
blobs m v d =
    rw
      (
        each bytes_to_bytes48 (Copies 48) copy_48 m.commitments v.commitments d.commitments,
        each bytes_to_bytes48 (Copies 48) copy_48 m.proofs v.proofs d.proofs,
        each bytes_to_blob (Copies 131072) copy_blob m.blobs v.blobs d.blobs,
      )
      refl

trace :
    (b : Bls) (k : Codecs) (m : Proto.BidTrace) (t : BidTrace b)
    → TraceOf b k m t
    → try_from_trace b k m ≡ ok t
unfolding try_from_trace
trace b k m t d =
    let (slot, gas_limit, gas_used) = d.numbers in
    rw
      (
        copy_32 m.parent_hash t.parent_hash d.parent_hash,
        copy_32 m.block_hash t.block_hash d.block_hash,
        d.builder_pubkey,
        d.proposer_pubkey,
        copy_20 m.proposer_fee_recipient t.proposer_fee_recipient d.proposer_fee_recipient,
        d.value,
        ← slot,
        ← gas_limit,
        ← gas_used,
      )
      refl

module _ (k : Codecs) (laws : CodecLaws k) where
  fits :
      {A : Type 0} (n : ℕ) (xs ys : List A)
      → ys ≡ xs
      → length xs ≤ n
      → refuse (k.variable_list_new n xs) variable_list ≡ ok ys
  fits n xs ys same bound =
      accept _ variable_list ys ((laws.variable_list_iff n xs ys).1 (same, bound))

  payload :
      (m : Proto.ExecutionPayload) (p : ExecutionPayload)
      → PayloadOf k m p
      → try_from_payload k m ≡ ok p
  unfolding try_from_payload
  payload m p d =
      let (block_number, gas_limit, gas_used, timestamp, blob_gas_used, excess) = d.numbers in
      let (extra, extra_bound) = d.extra_data in
      let (fee, _) = d.base_fee in
      let (transactions, many) = d.transactions in
      let (withdrawals, few) = d.withdrawals in
      rw
        (
          copy_32 m.parent_hash p.parent_hash d.parent_hash,
          copy_20 m.fee_recipient p.fee_recipient d.fee_recipient,
          copy_32 m.state_root p.state_root d.state_root,
          copy_32 m.receipts_root p.receipts_root d.receipts_root,
          (laws.fixed_vector_iff 256 m.logs_bloom p.logs_bloom).1 d.logs_bloom,
          copy_32 m.prev_randao p.prev_randao d.prev_randao,
          fits 32 m.extra_data p.extra_data extra extra_bound,
          fee,
          copy_32 m.block_hash p.block_hash d.block_hash,
          each (λ tx. refuse (k.variable_list_new (2 ^ 30) tx) variable_list)
              (λ (x y : Bytes). (y ≡ x) × (length x ≤ 2 ^ 30)) (λ x y (e, l). fits (2 ^ 30) x y e l)
              m.transactions p.transactions transactions,
          fits (2 ^ 20) p.transactions p.transactions refl many,
          each try_from_withdrawal WithdrawalOf withdrawal m.withdrawals p.withdrawals withdrawals,
          fits 16 p.withdrawals p.withdrawals refl few,
          ← block_number,
          ← gas_limit,
          ← gas_used,
          ← timestamp,
          ← blob_gas_used,
          ← excess,
        )
        refl

  -- A bid request converts to a submission exactly when the submission is all of it: it has a trace
  -- and a payload, every hash has 32 bytes, every address 20 and the bloom filter 256, the lists keep
  -- the bounds of the entity's types, the keys, the value and the signature decode, and nothing is
  -- changed or left out.
  pub try_from_bid_iff :
      (b : Bls) (req : Proto.BidRequest) (bid : BidSubmission b)
      → (try_from_bid b k req ≡ ok bid) ↔ BidOf k laws b req bid
  unfolding try_from_bid
  try_from_bid_iff b req bid = (
    λ e. try_from_bid-BidOf k laws b req bid e,
    λ d.
        rw
          (
            d.has_trace,
            d.has_payload,
            trace b k d.trace bid.message d.message,
            payload d.payload bid.execution_payload d.execution_payload,
            blobs (blobs_or_default b k req.blobs_bundle) bid.blobs_bundle d.blobs_bundle,
            d.signature,
          )
          refl,
  )
