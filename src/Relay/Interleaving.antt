-- ===== src/Relay/Interleaving.antt =====
-- The relay with its requests in flight: the tasks of the use cases run action by action in any
-- order, and the head, the payload attributes, the duties and the cache change at any time.
pub mod Vetted
pub mod Safety
pub mod Rising
use mev_relay_rs.Prelude.{ℕ, ◌≡◌, Bytes, List, [], ◌∷◌, ◌++◌}
use mev_relay_rs.Crypto.Blst.{Bls}
use mev_relay_rs.Crypto.Keys.{BlsPublicKey}
use mev_relay_rs.Crypto.Fork.{ForkDatas, ForkRoots}
use mev_relay_rs.Crypto.Signer.{BlsSigner}
use mev_relay_rs.Entity.Bid.{EntityRoots}
use mev_relay_rs.Entity.Validator.{ProposerDuty, PayloadAttributes}
use mev_relay_rs.Entity.HeadSlot.{HeadSlot}
use mev_relay_rs.Datastore.MemoryStorage.{
  memory_storage, set_head_slot, set_payload_attributes, set_proposer_duties,
}
use mev_relay_rs.Datastore.Cache.{Cache, Expires}
use mev_relay_rs.Datastore.MemoryAuctioneer.{memory_auctioneer}
use mev_relay_rs.Datastore.MemoryAuctioneer.Laws.{Bid}
use mev_relay_rs.UseCase.Task.{Task, advance}
use mev_relay_rs.UseCase.Task.Programs.{Request, Answer, task_of}
use mev_relay_rs.Relay.State.{RelayWorld, initial}

module _ {b : Bls} (c : Cache (Bid b)) where
  -- A request that was made, and what is left to do for it.
  abbrev pub Running : Type 0
  Running = (r : Request b) × Task (RelayWorld b c) (Answer r)

  pub record System : Type 0 where
    pub world : RelayWorld b c
    pub running : List Running

  -- The system after one action of one of its tasks.
  abbrev pub moved : List Running → Running → List Running → RelayWorld b c → System
  moved before t after w = record {
    world = (advance t.1 w).1;
    running = before ++ (t.0, (advance t.1 w).0) ∷ after;
  }

  abbrev pub started : List (BlsPublicKey b) → ℕ → System
  started whitelist ttl = record { world = initial c whitelist ttl; running = [] }

module _ {b : Bls} (h : ForkRoots) (roots : EntityRoots b) (keccak256 : Bytes → Bytes)
    (c : Cache (Bid b)) (signer : BlsSigner b) (fork_datas : ForkDatas) where
  abbrev pub task : (r : Request b) → Task (RelayWorld b c) (Answer r)
  task = task_of h roots keccak256 (memory_storage b) (memory_auctioneer b c) signer fork_datas

  pub data Event (s : System c) : System c → Type 0 where
    starts : (r : Request b) → Event s (record s { running = s.running ++ (r, task r) ∷ [] })
    moves :
        (before : List (Running c)) (t : Running c) (after : List (Running c))
        → s.running ≡ before ++ t ∷ after
        → Event s (moved c before t after s.world)
    expires :
        (a : c.State)
        → Expires c s.world.auctioneer a
        → Event s (record s { world = record s.world { auctioneer = a } })
    moves_head :
        (slot : HeadSlot)
        → Event s
            (record s { world = record s.world { storage = set_head_slot b slot s.world.storage } })
    gets_attributes :
        (attrs : PayloadAttributes)
        → Event s (record s {
          world = record s.world { storage = set_payload_attributes b attrs s.world.storage };
        })
    gets_duties :
        (duties : List (ProposerDuty b))
        → Event s (record s {
          world = record s.world { storage = set_proposer_duties b duties s.world.storage };
        })

  pub data Reaches (s : System c) : System c → Type 0 where
    here : Reaches s s
    next : {t u : System c} → Reaches s t → Event t u → Reaches s u
