-- ===== src/Relay/Kept/Tasks.antt =====
-- Every action of every task keeps what the relay keeps, in any order, if the bid or the
-- registration that a request brings has the predicate once its checks have passed.
use mev_relay_rs.Prelude.{
  tests, ℕ, subst, Result, ◌≡◌, refl, sym, ◌∙◌, Bytes, List, arith, ok, some, true, false, not,
  bytes_eq, ap, ◌==◌,
}
use mev_relay_rs.Crypto.Blst.{Bls}
use mev_relay_rs.Crypto.Keys.{BlsPublicKey, BlsSignature}
use mev_relay_rs.Crypto.Fork.{ForkDatas, ForkRoots, compute_builder_domain}
use mev_relay_rs.Crypto.Signer.{BlsSigner, sign}
use mev_relay_rs.Entity.Types.{B256}
use mev_relay_rs.Entity.Bid.{
  BidSubmission, EntityRoots, BlindedBlockResponse, SignedHeader, Versioned, build_header,
  verify_bid, to_blinded_block_response,
}
use mev_relay_rs.Entity.Validator.{
  ValidatorRegistration, SignedValidatorRegistration, verify_registration,
}
use mev_relay_rs.Datastore.MemoryStorage.{memory_storage, is_whitelisted_builder}
use mev_relay_rs.Datastore.Cache.{Cache, CacheLaws}
use mev_relay_rs.Datastore.MemoryAuctioneer.{memory_auctioneer, get_best_bid}
use mev_relay_rs.Datastore.MemoryAuctioneer.Laws.{Bid, get_best_bid_lem}
use mev_relay_rs.UseCase.Task.Keeps.{
  Keeps, Keeps-raise_if, Keeps-or_raise, Keeps-reads, Keeps-writes, Keeps-write, Keeps-pure,
  Keeps-calls, Keeps-arc_new, run-Keeps,
}
use mev_relay_rs.UseCase.Task.Programs.{
  submit_task, header_task, register_task, unblind_task, task_of, Request, Answer, submit_bid,
  get_header, register_validator, unblind_block,
}
use mev_relay_rs.UseCase.Error.{UseCaseError}
use mev_relay_rs.UseCase.Task.Laws.{execute_of, run-task_of}
use mev_relay_rs.Relay.State.{RelayWorld}
use mev_relay_rs.Relay.Interleaving.Vetted.{IsVetted}
use mev_relay_rs.Relay.Kept.{
  IsKept, ReplyOf, HashOf, allocate-IsKept, bid-IsKept, payload-IsKept, read-IsKept,
  registration-IsKept, delivery-IsKept,
}

same_bytes : (x y : Bytes) → not (bytes_eq x y) ≡ false → x ≡ y
same_bytes x y e = grind tests

module _ {b : Bls} (h : ForkRoots) (roots : EntityRoots b) (keccak256 : Bytes → Bytes)
    (c : Cache (Bid b)) (signer : BlsSigner b) (fork_datas : ForkDatas) (laws : CacheLaws c)
    (whitelist : List (BlsPublicKey b)) (P : BidSubmission b → Type 0)
    (Q : BlsPublicKey b → ValidatorRegistration b → Type 0) where
  abbrev I : RelayWorld b c → Type 0
  I = IsKept whitelist P Q c

  -- The header of such a bid on a parent, with the relay's signature.
  abbrev pub HeaderOf : B256 → Versioned (SignedHeader b) → Type 0
  HeaderOf parent_hash v =
      (bid : BidSubmission b) × P bid
      × (bid.message.parent_hash ≡ parent_hash)
      × (v.contents.message ≡ build_header roots bid)
      × (v.contents.signature ≡ sign b h roots.header_root signer (build_header roots bid))

  abbrev pub IsVerified : SignedValidatorRegistration b → Type 0
  IsVerified s =
      verify_registration b h roots.registration_root s (compute_builder_domain h fork_datas) ≡ true

  -- What an answer means.
  abbrev pub Means : (r : Request b) → Answer r → Type 0
  Means (submit_bid bid) a = P bid
  Means (get_header slot parent_hash key) v = HeaderOf parent_hash v
  Means (register_validator s) a = IsVerified s
  Means (unblind_block slot index hash signature) r =
      ReplyOf P r × (r.execution_payload.block_hash ≡ hash)

  -- What the checks of a bid have shown, each in the state that it found.
  checks-IsVetted :
      (bid : BidSubmission b) (w : RelayWorld b c)
      → I w
      → bid.message.value == 0 ≡ false
      → not (is_whitelisted_builder b bid.message.builder_pubkey w.storage) ≡ false
      → not (verify_bid b h roots bid.message bid.signature (compute_builder_domain h fork_datas))
        ≡ false
      → IsVetted h roots fork_datas whitelist bid
  unfolding is_whitelisted_builder
  checks-IsVetted bid w i positive white signed = record {
    positive = λ e. ground arith;
    whitelisted = rw (← i.same_whitelist) (ground arith);
    signed = ground arith;
  }

  submit-Keeps :
      (bid : BidSubmission b)
      → (IsVetted h roots fork_datas whitelist bid → P bid)
      → Keeps I
          (λ _. P bid)
          (submit_task h roots keccak256
            (memory_storage b)
            (memory_auctioneer b c)
            signer
            fork_datas
            bid)
  unfolding submit_task
  submit-Keeps bid given = Keeps-raise_if _ _ _ λ positive. Keeps-reads _ _ λ w i.
      Keeps-raise_if _ _ _ λ white. Keeps-reads _ _ λ _ _. Keeps-raise_if _ _ _ λ _.
        Keeps-reads _ _ λ _ _. Keeps-raise_if _ _ _ λ _. Keeps-reads _ _ λ _ _.
          Keeps-or_raise _ _ _ λ duty _. Keeps-raise_if _ _ _ λ signed.
            let v = given (checks-IsVetted bid w i positive white signed) in
            Keeps-arc_new _ _ (λ w i. allocate-IsKept whitelist P Q c laws w i _)
              λ addr.
                Keeps-calls _ _ (λ w i. bid-IsKept whitelist P Q c laws w i bid.message.slot _ v)
                  λ _ _ _ _.
                    Keeps-write _
                      (λ w i. payload-IsKept whitelist P Q c laws w i duty.pubkey _ (bid, v, refl))
                      v

  best_held :
      (slot : ℕ) (best : Bid b) (a : c.State)
      → (get_best_bid b c slot a).0 ≡ ok best
      → c.peek a slot ≡ some best
  best_held slot best a e = ground (arith, (get_best_bid_lem b c laws slot slot a).0, e)

  header-Keeps :
      (slot : ℕ) (parent_hash : B256) (key : BlsPublicKey b)
      → Keeps I (HeaderOf parent_hash) (
          header_task h roots keccak256
            (memory_storage b)
            (memory_auctioneer b c)
            signer
            fork_datas
            slot
            parent_hash
            key)
  unfolding header_task
  header-Keeps slot parent_hash key = Keeps-reads _ _ λ _ _. Keeps-raise_if _ _ _ λ _.
      Keeps-reads _ _ λ _ _. Keeps-or_raise _ _ _ λ duty _. Keeps-raise_if _ _ _ λ _.
        Keeps-reads _ _ λ _ _. Keeps-raise_if _ _ _ λ _.
          Keeps-calls _ _ (λ w i. read-IsKept whitelist P Q c laws w i slot)
            λ w i best e. Keeps-raise_if _ _ _ λ same. Keeps-pure _ (
              best.value,
              i.bids slot best (best_held slot best w.auctioneer e),
              same_bytes _ _ same,
              refl,
              refl,
            )

  register-Keeps :
      (s : SignedValidatorRegistration b)
      → (IsVerified s → Q s.message.pubkey s.message)
      → Keeps I
          (λ _. IsVerified s)
          (register_task h roots keccak256
            (memory_storage b)
            (memory_auctioneer b c)
            signer
            fork_datas
            s)
  unfolding register_task
  register-Keeps s given = Keeps-raise_if _ _ _ λ unless.
      let signed : IsVerified s = ground arith in
      Keeps-write _
        (λ w i.
          registration-IsKept whitelist P Q c laws w i s.message.pubkey s.message (given signed))
        signed

  response-HashOf :
      (r : BlindedBlockResponse) (hash : B256)
      → ReplyOf P r
      → r.execution_payload.block_hash ≡ hash
      → HashOf P hash
  unfolding to_blinded_block_response
  response-HashOf r hash (bid, v, e) same =
      (bid, v, ap (λ (x : BlindedBlockResponse). x.execution_payload.block_hash) (sym e) ∙ same)

  unblind-Keeps :
      (slot index : ℕ) (hash : B256) (signature : BlsSignature b)
      → Keeps I
          (λ r. ReplyOf P r × (r.execution_payload.block_hash ≡ hash))
          (unblind_task h roots keccak256
            (memory_storage b)
            (memory_auctioneer b c)
            signer
            fork_datas
            slot
            index
            hash
            signature)
  unfolding unblind_task
  unblind-Keeps slot index hash signature = Keeps-reads _ _ λ _ _. Keeps-or_raise _ _ _ λ duty _.
      Keeps-raise_if _ _ _ λ _. Keeps-reads _ _ λ _ _. Keeps-raise_if _ _ _ λ _.
        Keeps-raise_if _ _ _ λ _. Keeps-reads _ _ λ w i. Keeps-or_raise _ _ _ λ r stored.
          Keeps-raise_if _ _ _ λ same.
            let from = i.payloads duty.pubkey r stored in
            let hash_same : r.execution_payload.block_hash ≡ hash = same_bytes _ _ same in
            Keeps-writes _ _
              (λ w i.
                delivery-IsKept whitelist P Q c laws w i hash (response-HashOf _ _ from hash_same))
              (Keeps-pure _ (from, hash_same))

  -- The bid or the registration that a request brings has its predicate, once the checks of the
  -- request have passed.
  abbrev pub Given : Request b → Type 0
  Given (submit_bid bid) = IsVetted h roots fork_datas whitelist bid → P bid
  Given (register_validator s) = IsVerified s → Q s.message.pubkey s.message
  Given _ = Unit

  pub task-Keeps :
      (r : Request b)
      → Given r
      → Keeps I
          (Means r)
          (task_of h roots keccak256 (memory_storage b) (memory_auctioneer b c) signer fork_datas r)
  unfolding task_of
  task-Keeps (submit_bid bid) given = submit-Keeps bid given
  task-Keeps (get_header slot parent_hash key) given = header-Keeps slot parent_hash key
  task-Keeps (register_validator s) given = register-Keeps s given
  task-Keeps (unblind_block slot index hash signature) given =
      unblind-Keeps slot index hash signature

  -- So a whole use case keeps what the relay keeps.
  pub execute-IsKept :
      (r : Request b) (w : RelayWorld b c)
      → Given r
      → I w
      → I
          (execute_of h roots keccak256
            (memory_storage b)
            (memory_auctioneer b c)
            signer
            fork_datas
            r
            w).1
  execute-IsKept r w given i =
      subst (λ (x : Result UseCaseError (Answer r) × RelayWorld b c). I x.1)
        (run-task_of h roots keccak256 (memory_storage b) (memory_auctioneer b c) signer fork_datas
          r w)
        (run-Keeps w (task-Keeps r given) i)
