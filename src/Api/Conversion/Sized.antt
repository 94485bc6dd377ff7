-- ===== src/Api/Conversion/Sized.antt =====
-- What crates/api/src/conversion.rs converts keeps the bounds of the entity's types.
use mev_relay_rs.Prelude.{
  ℕ, ◌^◌, ◌≤◌, ◌≡◌, refl, ap, sym, ◌∙◌, Bytes, List, [], ◌∷◌, All, ok, ok_or, length, >>=-eq-ok,
  ok-injective,
}
use mev_relay_rs.Crypto.Blst.{Bls}
use mev_relay_rs.Crypto.Keys.{pk_deserialize, sig_deserialize}
use mev_relay_rs.Entity.Payload.{ExecutionPayload, BlobsBundle}
use mev_relay_rs.Entity.Bid.{BidSubmission}
use mev_relay_rs.Entity.Validator.{SignedValidatorRegistration}
use mev_relay_rs.Entity.Sized.{
  HasBytes, IsSizedPayload, IsSizedBlobs, IsSizedBid, IsSizedRegistration,
}
use mev_relay_rs.Api.Proto
use mev_relay_rs.Api.Conversion.{
  Codecs, CodecLaws, refuse, bls_public_key, bls_signature, bytes_to_address, try_from_bid,
  try_from_registration, blobs_or_default,
}
use mev_relay_rs.Api.Conversion.Fields.{bytes_to_address-ok, Each, Copies, BlobsOf, PayloadOf}
use mev_relay_rs.Api.Conversion.Laws.{try_from_bid-BidOf}

copy-HasBytes : (n : ℕ) (m v : Bytes) → Copies n m v → HasBytes n v
copy-HasBytes n m v (same, size) = ap (λ (x : Bytes). length x) same ∙ size

-- What each element of a converted list has.
Each-All :
    {A B : Type 0} {R : A → B → Type 0} {P : B → Type 0}
    → ((x : A) (y : B) → R x y → P y)
    → (xs : List A) (ys : List B) → Each R xs ys
    → All P ys
Each-All f [] [] e = tt
Each-All f [] (y ∷ ys) e = elim e [ ]
Each-All f (x ∷ xs) [] e = elim e [ ]
Each-All f (x ∷ xs) (y ∷ ys) (p, e) = (f x y p, Each-All f xs ys e)

short : (n : ℕ) (m v : Bytes) → (v ≡ m) × (length m ≤ n) → length v ≤ n
short n m v (same, size) = rw same size

payload-IsSized :
    (k : Codecs) (m : Proto.ExecutionPayload) (p : ExecutionPayload)
    → PayloadOf k m p
    → IsSizedPayload p
payload-IsSized k m p d = record {
  parent_hash = copy-HasBytes 32 _ _ d.parent_hash;
  fee_recipient = copy-HasBytes 20 _ _ d.fee_recipient;
  state_root = copy-HasBytes 32 _ _ d.state_root;
  receipts_root = copy-HasBytes 32 _ _ d.receipts_root;
  logs_bloom = copy-HasBytes 256 _ _ d.logs_bloom;
  prev_randao = copy-HasBytes 32 _ _ d.prev_randao;
  extra_data = short 32 m.extra_data p.extra_data d.extra_data;
  block_hash = copy-HasBytes 32 _ _ d.block_hash;
  transactions = (
    Each-All (λ x y e. short (2 ^ 30) x y e) m.transactions p.transactions d.transactions.0,
    d.transactions.1,
  );
  withdrawals = (
    Each-All (λ x y e. copy-HasBytes 20 x.address y.address e.address) m.withdrawals p.withdrawals
        d.withdrawals.0,
    d.withdrawals.1,
  );
}

blobs-IsSized : (m : Proto.BlobsBundle) (v : BlobsBundle) → BlobsOf m v → IsSizedBlobs v
blobs-IsSized m v d = record {
  commitments = Each-All (copy-HasBytes 48) m.commitments v.commitments d.commitments;
  proofs = Each-All (copy-HasBytes 48) m.proofs v.proofs d.proofs;
  blobs = Each-All (copy-HasBytes 131072) m.blobs v.blobs d.blobs;
}

module _ (b : Bls) (k : Codecs) where
  pub try_from_bid-IsSized :
      (laws : CodecLaws k) (req : Proto.BidRequest) (bid : BidSubmission b)
      → try_from_bid b k req ≡ ok bid
      → IsSizedBid bid
  try_from_bid-IsSized laws req bid e =
      let d = try_from_bid-BidOf k laws b req bid e in
      record {
        message = record {
          parent_hash = copy-HasBytes 32 _ _ d.message.parent_hash;
          block_hash = copy-HasBytes 32 _ _ d.message.block_hash;
          proposer_fee_recipient = copy-HasBytes 20 _ _ d.message.proposer_fee_recipient;
        };
        execution_payload = payload-IsSized k d.payload bid.execution_payload d.execution_payload;
        blobs_bundle =
            blobs-IsSized (blobs_or_default b k req.blobs_bundle) bid.blobs_bundle d.blobs_bundle;
      }

  pub try_from_registration-IsSized :
      (m : Proto.SignedValidatorRegistration) (s : SignedValidatorRegistration b)
      → try_from_registration b k m ≡ ok s
      → IsSizedRegistration s.message
  unfolding try_from_registration
  try_from_registration-IsSized m s e =
      let (x, _, e1) = >>=-eq-ok (ok_or m.message _) _ e in
      let (fee, p, e2) = >>=-eq-ok (bytes_to_address x.fee_recipient) _ e1 in
      let (key, _, e3) = >>=-eq-ok (refuse (pk_deserialize b x.pubkey) bls_public_key) _ e2 in
      let (sig, _, e4) = >>=-eq-ok (refuse (sig_deserialize b m.signature) bls_signature) _ e3 in
      let same : s ≡ record {
        message = record {
          fee_recipient = fee;
          gas_limit = x.gas_limit;
          timestamp = x.timestamp;
          pubkey = key;
        };
        signature = sig;
      } =
        sym (ok-injective _ _ s refl e4) in
      let (copied, size) = bytes_to_address-ok x.fee_recipient fee p in rw (same, copied) size
