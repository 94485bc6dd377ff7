-- ===== src/Api/Conversion/Fields.antt =====
-- What each field of a converted entity of crates/api/src/conversion.rs says of its message.
use mev_relay_rs.Prelude.{
  ℕ, ◌^◌, ◌≤◌, ◌≡◌, ap, ◌∙◌, Bytes, List, [], ◌∷◌, Option, none, some, Message, Result, ok, err,
  arith, ok_or, collect, length, >>=-eq-ok,
}
use mev_relay_rs.Crypto.Blst.{Bls}
use mev_relay_rs.Crypto.Keys.{pk_deserialize}
use mev_relay_rs.Entity.Payload.{ExecutionPayload, Withdrawal, BlobsBundle}
use mev_relay_rs.Entity.Bid.{BidTrace}
use mev_relay_rs.Api.Proto
use mev_relay_rs.Api.Conversion.{
  Codecs, ConversionError, Failure, refuse, bytes_to_b256, bytes_to_address, bytes_to_bytes48,
  bytes_to_blob,
}

pub bytes_to_b256-ok : (m h : Bytes) → bytes_to_b256 m ≡ ok h → (h ≡ m) × (length m ≡ 32)
unfolding bytes_to_b256
bytes_to_b256-ok m h e = (ground arith, ground arith)

pub bytes_to_address-ok : (m a : Bytes) → bytes_to_address m ≡ ok a → (a ≡ m) × (length m ≡ 20)
unfolding bytes_to_address
bytes_to_address-ok m a e = (ground arith, ground arith)

pub bytes_to_bytes48-ok : (m h : Bytes) → bytes_to_bytes48 m ≡ ok h → (h ≡ m) × (length m ≡ 48)
unfolding bytes_to_bytes48
bytes_to_bytes48-ok m h e = (ground arith, ground arith)

pub bytes_to_blob-ok : (m h : Bytes) → bytes_to_blob m ≡ ok h → (h ≡ m) × (length m ≡ 131072)
unfolding bytes_to_blob
bytes_to_blob-ok m h e = (ground arith, ground arith)

pub refuse-ok :
    {A : Type 0} (r : Result Message A) (f : Message → ConversionError) (a : A)
    → refuse r f ≡ ok a
    → r ≡ ok a
refuse-ok (ok x) f a e = cc
refuse-ok (err m) f a e = cc

pub ok_or-ok : {A : Type 0} (o : Option A) (x : Failure) (a : A) → ok_or o x ≡ ok a → o ≡ some a
ok_or-ok none x a e = cc
ok_or-ok (some y) x a e = cc

-- A collected list pairs every element with its conversion.
abbrev pub Each : {A B : Type 0} → (A → B → Type 0) → List A → List B → Type 0
Each R [] [] = Unit
Each R (x ∷ xs) (y ∷ ys) = R x y × Each R xs ys
Each R _ _ = ⊥

pub collect-Each :
    {A B : Type 0} (f : A → Result Failure B) (R : A → B → Type 0)
    → ((x : A) (y : B) → f x ≡ ok y → R x y)
    → (xs : List A) (ys : List B) → collect f xs ≡ ok ys
    → Each R xs ys
collect-Each f R h [] [] e = tt
collect-Each f R h [] (y ∷ ys) e = cc
collect-Each f R h (x ∷ xs) [] e =
    let (a, _, r) = >>=-eq-ok (f x) _ e in let (as', _, t) = >>=-eq-ok (collect f xs) _ r in cc
collect-Each f R h (x ∷ xs) (y ∷ ys) e =
    let (a, p, r) = >>=-eq-ok (f x) _ e in
    let (as', q, t) = >>=-eq-ok (collect f xs) _ r in
    let heads : a ≡ y = cc in
    let tails : as' ≡ ys = cc in
    (h x y (p ∙ ap ok heads), collect-Each f R h xs ys (q ∙ ap ok tails))

abbrev pub Copies : ℕ → Bytes → Bytes → Type 0
Copies n m h = (h ≡ m) × (length m ≡ n)

pub record WithdrawalOf (m : Proto.Withdrawal) (w : Withdrawal) : Type 0 where
  pub index : w.index ≡ m.index
  pub validator_index : w.validator_index ≡ m.validator_index
  pub address : Copies 20 m.address w.address
  pub amount : w.amount ≡ m.amount

pub record BlobsOf (m : Proto.BlobsBundle) (v : BlobsBundle) : Type 0 where
  pub commitments : Each (Copies 48) m.commitments v.commitments
  pub proofs : Each (Copies 48) m.proofs v.proofs
  pub blobs : Each (Copies 131072) m.blobs v.blobs

-- Every field of the message is there, in its place and within its bound.
pub record PayloadOf (k : Codecs) (m : Proto.ExecutionPayload) (p : ExecutionPayload) : Type 0 where
  pub parent_hash : Copies 32 m.parent_hash p.parent_hash
  pub fee_recipient : Copies 20 m.fee_recipient p.fee_recipient
  pub state_root : Copies 32 m.state_root p.state_root
  pub receipts_root : Copies 32 m.receipts_root p.receipts_root
  pub logs_bloom : Copies 256 m.logs_bloom p.logs_bloom
  pub prev_randao : Copies 32 m.prev_randao p.prev_randao
  pub numbers :
      (p.block_number ≡ m.block_number)
      × (p.gas_limit ≡ m.gas_limit)
      × (p.gas_used ≡ m.gas_used)
      × (p.timestamp ≡ m.timestamp)
      × (p.blob_gas_used ≡ m.blob_gas_used)
      × (p.excess_blob_gas ≡ m.excess_blob_gas)
  pub extra_data : (p.extra_data ≡ m.extra_data) × (length m.extra_data ≤ 32)
  pub base_fee :
      (k.from_be_slice m.base_fee_per_gas ≡ some p.base_fee_per_gas)
      × (length m.base_fee_per_gas ≤ 32)
  pub block_hash : Copies 32 m.block_hash p.block_hash
  pub transactions :
      Each (λ (x y : Bytes). (y ≡ x) × (length x ≤ 2 ^ 30)) m.transactions p.transactions
      × (length p.transactions ≤ 2 ^ 20)
  pub withdrawals : Each WithdrawalOf m.withdrawals p.withdrawals × (length p.withdrawals ≤ 16)

pub record TraceOf (b : Bls) (k : Codecs) (m : Proto.BidTrace) (t : BidTrace b) : Type 0 where
  pub numbers : (t.slot ≡ m.slot) × (t.gas_limit ≡ m.gas_limit) × (t.gas_used ≡ m.gas_used)
  pub parent_hash : Copies 32 m.parent_hash t.parent_hash
  pub block_hash : Copies 32 m.block_hash t.block_hash
  pub builder_pubkey : pk_deserialize b m.builder_pubkey ≡ ok t.builder_pubkey
  pub proposer_pubkey : pk_deserialize b m.proposer_pubkey ≡ ok t.proposer_pubkey
  pub proposer_fee_recipient : Copies 20 m.proposer_fee_recipient t.proposer_fee_recipient
  pub value : k.u256_from_str m.value ≡ ok t.value
