-- ===== src/Relay/Interleaving/Safety.antt =====
-- What the relay holds and answers, however its requests interleave.
use mev_relay_rs.Prelude.{ℕ, refl, Bytes, List, All, All-split, All-join, All-map}
use mev_relay_rs.Crypto.Blst.{Bls}
use mev_relay_rs.Crypto.Keys.{BlsPublicKey}
use mev_relay_rs.Crypto.Fork.{ForkDatas, ForkRoots}
use mev_relay_rs.Crypto.Signer.{BlsSigner}
use mev_relay_rs.Entity.Bid.{EntityRoots}
use mev_relay_rs.Datastore.Cache.{Cache, CacheLaws}
use mev_relay_rs.Datastore.MemoryAuctioneer.Laws.{Bid}
use mev_relay_rs.UseCase.Task.Keeps.{Keeps, Shown, ended-Keeps, advance-Keeps}
use mev_relay_rs.UseCase.Task.Programs.{
  Request, submit_bid, get_header, register_validator, unblind_block, Answer,
}
use mev_relay_rs.Relay.State.{RelayWorld}
use mev_relay_rs.Relay.Interleaving.{Running, System, Event, Reaches, started}
use mev_relay_rs.Relay.Interleaving.Vetted.{IsVetted, IsSigned, IsVettedWorld}
use mev_relay_rs.Relay.Kept.{
  head-IsKept, attributes-IsKept, duties-IsKept, expire-IsKept, initial-IsKept,
}
use mev_relay_rs.Relay.Kept.Tasks
use mev_relay_rs.Relay.Kept.Tasks.{task-Keeps}

module _ {b : Bls} (h : ForkRoots) (roots : EntityRoots b) (keccak256 : Bytes → Bytes)
    (c : Cache (Bid b)) (signer : BlsSigner b) (fork_datas : ForkDatas) (laws : CacheLaws c)
    (whitelist : List (BlsPublicKey b)) where
  abbrev I : RelayWorld b c → Type 0
  I = IsVettedWorld h roots fork_datas whitelist c

  abbrev pub Means : (r : Request b) → Answer r → Type 0
  Means =
      Tasks.Means h roots keccak256 c signer fork_datas laws whitelist
        (IsVetted h roots fork_datas whitelist) (IsSigned h roots fork_datas whitelist)

  brings :
      (r : Request b)
      → Tasks.Given h roots keccak256 c signer fork_datas laws whitelist
          (IsVetted h roots fork_datas whitelist)
          (IsSigned h roots fork_datas whitelist)
          r
  brings (submit_bid bid) = λ v. v
  brings (get_header slot parent_hash key) = tt
  brings (register_validator s) = λ v. (s, refl, refl, v)
  brings (unblind_block slot index hash signature) = tt

  abbrev Behaves : Running c → Type 0
  Behaves t = Keeps I (Means t.0) t.1

  record IsSafe (s : System c) : Type 0 where
    world : I s.world
    running : All Behaves s.running

  Event-IsSafe :
      {s t : System c} → Event h roots keccak256 c signer fork_datas s t → IsSafe s → IsSafe t
  Event-IsSafe {s} (Event.starts r) k = record {
    world = k.world;
    running =
        All-join Behaves s.running _ k.running
          (task-Keeps h roots keccak256 c signer fork_datas laws whitelist _ _ r (brings r), tt);
  }
  Event-IsSafe {s} (Event.moves before t after e) k =
      let (left, now, right) = All-split Behaves before t after (rw e at k.running) in
      let (rest, world) = advance-Keeps s.world now k.world in
      record { world = world; running = All-join Behaves before _ left (rest, right) }
  Event-IsSafe {s} (Event.expires a gone) k = record {
    world = expire-IsKept whitelist _ _ c laws s.world k.world a gone;
    running = k.running;
  }
  Event-IsSafe {s} (Event.moves_head slot) k = record {
    world = head-IsKept whitelist _ _ c laws s.world k.world slot;
    running = k.running;
  }
  Event-IsSafe {s} (Event.gets_attributes attrs) k = record {
    world = attributes-IsKept whitelist _ _ c laws s.world k.world attrs;
    running = k.running;
  }
  Event-IsSafe {s} (Event.gets_duties duties) k = record {
    world = duties-IsKept whitelist _ _ c laws s.world k.world duties;
    running = k.running;
  }

  Reaches-IsSafe :
      {s t : System c} → Reaches h roots keccak256 c signer fork_datas s t → IsSafe s → IsSafe t
  Reaches-IsSafe Reaches.here k = k
  Reaches-IsSafe (Reaches.next r e) k = Event-IsSafe e (Reaches-IsSafe r k)

  -- However the actions of any requests interleave, with the head, the duties, the payload attributes
  -- and the cache changing at any time: every bid and every payload that the relay holds is that of a
  -- bid of some value, of a whitelisted builder, with its signature; every registration was signed by
  -- its key; every hash delivered is that of such a payload; and a request that has succeeded answers
  -- with such a bid's payload under the hash that was asked for, with such a bid's header on the
  -- parent that was asked for and the relay's signature, or only after its own signature was checked.
  pub interleaved-IsVetted :
      (ttl : ℕ) {s : System c}
      → Reaches h roots keccak256 c signer fork_datas (started c whitelist ttl) s
      → IsVettedWorld h roots fork_datas whitelist c s.world
        × All (λ (t : Running c). Shown (Means t.0) t.1) s.running
  interleaved-IsVetted ttl {s} r =
      let k =
        Reaches-IsSafe r
          (record { world = initial-IsKept whitelist _ _ c laws ttl; running = tt }) in
      (k.world, All-map Behaves (λ t. ended-Keeps) s.running k.running)
