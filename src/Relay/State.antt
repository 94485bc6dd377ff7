-- ===== src/Relay/State.antt =====
-- The shared state of the running relay, what keeps it sound, and the events that change it.
use mev_relay_rs.Prelude.{ℕ, ◌+◌, ◌%◌, ◌≡◌, none, some, Bytes, List}
use mev_relay_rs.Crypto.Blst.{Bls}
use mev_relay_rs.Crypto.Keys.{BlsPublicKey, BlsSignature}
use mev_relay_rs.Crypto.Fork.{ForkDatas, ForkRoots}
use mev_relay_rs.Crypto.Signer.{BlsSigner}
use mev_relay_rs.Entity.Types.{B256, u64_mod}
use mev_relay_rs.Entity.Bid.{BidSubmission, EntityRoots, to_blinded_block_response}
use mev_relay_rs.Entity.Validator.{ProposerDuty, PayloadAttributes, SignedValidatorRegistration}
use mev_relay_rs.Entity.HeadSlot.{HeadSlot}
use mev_relay_rs.Datastore.MemoryStorage.{
  memory_storage, new_storage, set_head_slot, set_payload_attributes, set_proposer_duties,
  read_head_slot, find_duty_by_slot, read_blinded_block_response,
}
use mev_relay_rs.Datastore.Cache.{Cache, Expires}
use mev_relay_rs.Datastore.MemoryAuctioneer.{memory_auctioneer, new_auctioneer}
use mev_relay_rs.Datastore.MemoryAuctioneer.Laws.{Bid}
use mev_relay_rs.Datastore.MemoryAuctioneer.Auction.{AddrBelow}
use mev_relay_rs.UseCase.Exec.{World}
use mev_relay_rs.UseCase.SubmitBid
use mev_relay_rs.UseCase.GetHeader
use mev_relay_rs.UseCase.RegisterValidator
use mev_relay_rs.UseCase.UnblindBlock

abbrev pub RelayWorld : (b : Bls) → Cache (Bid b) → Type 0
RelayWorld b c = World (memory_storage b) (memory_auctioneer b c)

abbrev pub next_slot : {b : Bls} (c : Cache (Bid b)) → RelayWorld b c → ℕ
next_slot {b} c w = ((read_head_slot b w.storage).slot + 1) % u64_mod

-- `run_with_listener` starts with an empty storage and an empty auctioneer.
abbrev pub initial : {b : Bls} (c : Cache (Bid b)) → List (BlsPublicKey b) → ℕ → RelayWorld b c
initial {b} c whitelist ttl = record {
  storage = new_storage whitelist;
  auctioneer = new_auctioneer b c ttl;
  heap = 0;
}

-- The best bid of the next slot is the one whose payload is stored for the slot's proposer; and the
-- allocator hands out addresses that no stored bid has.
pub record IsSound {b : Bls} (c : Cache (Bid b)) (w : RelayWorld b c) : Type 0 where
  pub fresh : AddrBelow c w.heap w.auctioneer
  pub in_sync :
      (duty : ProposerDuty b) (bid : Bid b)
      → find_duty_by_slot b (next_slot c w) w.storage ≡ some duty
      → c.peek w.auctioneer (next_slot c w) ≡ some bid
      → read_blinded_block_response b duty.pubkey w.storage
        ≡ some (to_blinded_block_response bid.value)

module _ {b : Bls} (h : ForkRoots) (roots : EntityRoots b) (keccak256 : Bytes → Bytes)
    (c : Cache (Bid b)) (signer : BlsSigner b) (fork_datas : ForkDatas) where
  abbrev pub submit : BidSubmission b → RelayWorld b c → RelayWorld b c
  submit bid w =
      let run = SubmitBid.execute h roots (memory_storage b) (memory_auctioneer b c) in
      (run fork_datas bid w).1

  abbrev pub retrieve : ℕ → B256 → BlsPublicKey b → RelayWorld b c → RelayWorld b c
  retrieve slot parent_hash key w =
      let run = GetHeader.execute h roots (memory_storage b) (memory_auctioneer b c) in
      (run signer slot parent_hash key w).1

  abbrev pub register : SignedValidatorRegistration b → RelayWorld b c → RelayWorld b c
  register r w =
      let run = RegisterValidator.execute h roots (memory_storage b) (memory_auctioneer b c) in
      (run fork_datas r w).1

  abbrev pub unblind : ℕ → ℕ → B256 → BlsSignature b → RelayWorld b c → RelayWorld b c
  unblind slot index hash signature w =
      let run = UnblindBlock.execute h keccak256 (memory_storage b) (memory_auctioneer b c) in
      (run fork_datas slot index hash signature w).1

  -- What may happen to the state, each use case running to its end before the next event. The head
  -- moves, and duties change, only while nobody has bid for the slot that is then next.
  pub data Step (w : RelayWorld b c) : RelayWorld b c → Type 0 where
    submits : (bid : BidSubmission b) → Step w (submit bid w)
    retrieves :
        (slot : ℕ) (parent_hash : B256) (key : BlsPublicKey b)
        → Step w (retrieve slot parent_hash key w)
    registers : (r : SignedValidatorRegistration b) → Step w (register r w)
    unblinds :
        (slot index : ℕ) (hash : B256) (signature : BlsSignature b)
        → Step w (unblind slot index hash signature w)
    expires : (a : c.State) → Expires c w.auctioneer a → Step w (record w { auctioneer = a })
    moves_head :
        (s : HeadSlot)
        → c.peek w.auctioneer ((s.slot + 1) % u64_mod) ≡ none
        → Step w (record w { storage = set_head_slot b s w.storage })
    gets_attributes :
        (attrs : PayloadAttributes)
        → Step w (record w { storage = set_payload_attributes b attrs w.storage })
    gets_duties :
        (duties : List (ProposerDuty b))
        → c.peek w.auctioneer (next_slot c w) ≡ none
        → Step w (record w { storage = set_proposer_duties b duties w.storage })

  pub data Reach (w : RelayWorld b c) : RelayWorld b c → Type 0 where
    here : Reach w w
    next : {u v : RelayWorld b c} → Reach w u → Step u v → Reach w v
