-- ===== src/UseCase/GetHeader/Laws.antt =====
-- When a header is handed out, what it says, and that nothing is stored on the way.
use mev_relay_rs.Prelude.{
  tests, ℕ, ◌+◌, ◌%◌, ◌≡◌, ◌↔◌, ◌≢◌, refl, true, some, none, Result, ok, err, arith, inl, inr,
  Option-cases, Result-cases, bytes_eq_iff, ◌⊎◌,
}
use mev_relay_rs.Crypto.Blst.{Bls, BlsLaws}
use mev_relay_rs.Crypto.Keys.{BlsPublicKey}
use mev_relay_rs.Crypto.Fork.{ForkRoots}
use mev_relay_rs.Crypto.Signer.{BlsSigner, sign, verify, signer_public_key, verify-sign_message}
use mev_relay_rs.Entity.Types.{B256, u64_mod}
use mev_relay_rs.Entity.Bid.{Arc, BidSubmission, EntityRoots, SignedHeader, Versioned, build_header}
use mev_relay_rs.Entity.Validator.{ProposerDuty, ValidatorRegistration}
use mev_relay_rs.Entity.HeadSlot.{is_next_slot}
use mev_relay_rs.Datastore.Storage.{Storage}
use mev_relay_rs.Datastore.Auctioneer.{Auctioneer, AuctioneerError}
use mev_relay_rs.UseCase.Error.{
  UseCaseError, auctioneer_error, zero_bid, unauthorized_get_header, invalid_slot, no_bid_found,
  duty_not_found,
}
use mev_relay_rs.UseCase.Exec.{World}
use mev_relay_rs.UseCase.GetHeader.{execute}

module _ {b : Bls} (h : ForkRoots) (roots : EntityRoots b) (S : Storage b) (A : Auctioneer b)
    (signer : BlsSigner b) (slot : ℕ) (parent_hash : B256) (key : BlsPublicKey b) where
  abbrev pub best : World S A → Result AuctioneerError (Arc (BidSubmission b)) × A.State
  best w = A.get_best_bid slot w.auctioneer

  -- The caller is a registered validator with the duty of the slot, which is the next one.
  pub record IsEntitled (w : World S A) : Type 0 where
    pub registration : ValidatorRegistration b
    pub registered : S.read_validator_registration key w.storage ≡ some registration
    pub duty : ProposerDuty b
    pub found : S.find_duty_by_slot slot w.storage ≡ some duty
    pub owns : duty.pubkey ≡ key
    pub next : ((S.read_head_slot w.storage).slot + 1) % u64_mod ≡ slot

  -- The answer for a best bid: the header of its payload, signed by the relay.
  abbrev pub answer : BidSubmission b → Versioned (SignedHeader b)
  answer bid = record {
    version = signer.fork_name;
    contents = record {
      message = build_header roots bid;
      signature = sign b h roots.header_root signer (build_header roots bid);
    };
  }

  -- What is answered to whom, and what is left behind.
  abbrev pub Granted : World S A → Versioned (SignedHeader b) → World S A → Type 0
  Granted w v w' =
      IsEntitled w
      × ((bid : Arc (BidSubmission b)) × ((best w).0 ≡ ok bid)
          × (bid.value.message.parent_hash ≡ parent_hash)
          × (v ≡ answer bid.value))
      × (w' ≡ record w { auctioneer = (best w).1 })

  execute-Granted :
      (w w' : World S A) (v : Versioned (SignedHeader b))
      → execute h roots S A signer slot parent_hash key w ≡ (ok v, w')
      → Granted w v w'
  unfolding execute is_next_slot
  execute-Granted w w' v e = elim (Option-cases (S.read_validator_registration key w.storage)) [
    | inl p ↦ absurd (ground (arith, p))
    | inr (r, p) ↦ elim (Option-cases (S.find_duty_by_slot slot w.storage)) [
      | inl q ↦ absurd (ground (arith, p, q))
      | inr (d, q) ↦ elim (Result-cases (best w).0) [
        | inr (x, t) ↦ absurd (ground (arith, p, q, t))
        | inl (bid, t) ↦ (
          record {
            registration = r;
            registered = p;
            duty = d;
            found = q;
            owns = ground (arith, p, q, t, b.pk_eq.beq_iff d.pubkey key);
            next = ground (arith, p, q, t);
          },
          (bid, t, grind tests, ground (arith, p, q, t)),
          ground (arith, p, q, t),
        )
      ]
    ]
  ]

  Granted-execute :
      (w w' : World S A) (v : Versioned (SignedHeader b))
      → Granted w v w'
      → execute h roots S A signer slot parent_hash key w ≡ (ok v, w')
  unfolding execute is_next_slot
  Granted-execute w w' v (t, (bid, p, q, u), x) = ground (
    arith,
    t.registered,
    t.found,
    t.next,
    b.pk_eq.beq_iff t.duty.pubkey key,
    bytes_eq_iff bid.value.message.parent_hash parent_hash,
  )

  -- A header is returned exactly to an entitled caller whose parent hash is that of the best bid. It
  -- is the header of that bid's payload with the relay's signature, and only the read of the
  -- auctioneer is left behind.
  pub get_header_iff :
      (w w' : World S A) (v : Versioned (SignedHeader b))
      → (execute h roots S A signer slot parent_hash key w ≡ (ok v, w')) ↔ Granted w v w'
  get_header_iff w w' v = (execute-Granted w w' v, Granted-execute w w' v)

  -- Whether it succeeds or fails, the storage and the allocations stay as they were.
  pub storage-execute :
      (w : World S A)
      → ((execute h roots S A signer slot parent_hash key w).1.storage ≡ w.storage)
        × ((execute h roots S A signer slot parent_hash key w).1.heap ≡ w.heap)
  unfolding execute
  storage-execute w = ground arith

  -- A returned header carries a signature that verifies under the relay's public key.
  pub get_header_signed :
      (laws : BlsLaws b) (w w' : World S A) (v : Versioned (SignedHeader b))
      → execute h roots S A signer slot parent_hash key w ≡ (ok v, w')
      → verify b h roots.header_root signer v.contents.signature
          (signer_public_key b signer)
          v.contents.message
        ≡ true
  get_header_signed laws w w' v e =
      let (_, (bid, _, _, same), _) = execute-Granted w w' v e in
      rw same (verify-sign_message b laws h roots.header_root signer signer _ refl)

  -- Why no header was returned.
  abbrev pub Refused : World S A → UseCaseError → Type 0
  Refused w unauthorized_get_header =
      (S.read_validator_registration key w.storage ≡ none)
      ⊎ ((duty : ProposerDuty b) × (S.find_duty_by_slot slot w.storage ≡ some duty)
          × (duty.pubkey ≢ key))
  Refused w duty_not_found = S.find_duty_by_slot slot w.storage ≡ none
  Refused w invalid_slot = ((S.read_head_slot w.storage).slot + 1) % u64_mod ≢ slot
  Refused w (auctioneer_error x) = (best w).0 ≡ err x
  Refused w no_bid_found =
      (bid : Arc (BidSubmission b)) × ((best w).0 ≡ ok bid)
      × (bid.value.message.parent_hash ≢ parent_hash)
  Refused w _ = ⊥

  -- A refusal names its reason, and no other error is returned.
  pub get_header-Refused :
      (w w' : World S A) (e : UseCaseError)
      → execute h roots S A signer slot parent_hash key w ≡ (err e, w')
      → Refused w e
  unfolding execute is_next_slot
  get_header-Refused w w' zero_bid p = ground arith
  get_header-Refused w w' unauthorized_get_header p =
      elim (Option-cases (S.read_validator_registration key w.storage)) [
        | inl r ↦ inl r
        | inr (r, q) ↦ elim (Option-cases (S.find_duty_by_slot slot w.storage)) [
          | inl d ↦ absurd (ground (arith, q, d))
          | inr (d, t) ↦ inr (d, t, ground (arith, q, t, b.pk_eq.beq_iff d.pubkey key))
        ]
      ]
  get_header-Refused w w' no_bid_found p = elim (Result-cases (best w).0) [
    | inr (x, t) ↦ absurd (ground (arith, t))
    | inl (bid, t) ↦ (bid, t, grind tests)
  ]
  get_header-Refused w w' _ p = ground arith
