-- ===== src/Relay/Served/Steps.antt =====
-- A message to a service is at most a few events of the relay underneath.
use mev_relay_rs.Prelude.{inl, inr, Bytes}
use mev_relay_rs.Crypto.Blst.{Bls}
use mev_relay_rs.Crypto.Fork.{ForkDatas, ForkRoots}
use mev_relay_rs.Crypto.Signer.{BlsSigner}
use mev_relay_rs.Entity.Bid.{EntityRoots}
use mev_relay_rs.Datastore.Cache.{Cache, CacheLaws}
use mev_relay_rs.Datastore.MemoryAuctioneer.Laws.{Bid, get_best_bid_lem}
use mev_relay_rs.UseCase.Task.Programs.{
  Request, submit_bid, get_header, register_validator, unblind_block,
}
use mev_relay_rs.Api.Conversion.{Codecs}
use mev_relay_rs.Api.Retriever.{Json}
use mev_relay_rs.Relay.State.{RelayWorld, Step, Reach}
use mev_relay_rs.Relay.Served.{Event, Served, IsCalmEvent, IsCalm}
use mev_relay_rs.Relay.Served.Effects.{
  Effect, execute, bid-Effect, register-Effect, unblind-Effect, retrieve-Effect,
}

module _ {b : Bls} (h : ForkRoots) (roots : EntityRoots b) (keccak256 : Bytes → Bytes)
    (codecs : Codecs) (json : Json b) (c : Cache (Bid b)) (signer : BlsSigner b)
    (fork_datas : ForkDatas) (laws : CacheLaws c) where
  abbrev Steps : RelayWorld b c → RelayWorld b c → Type 0
  Steps = Reach h roots keccak256 c signer fork_datas

  execute-Step :
      (r : Request b) (w : RelayWorld b c)
      → Step h roots keccak256 c signer fork_datas w
          (execute h roots keccak256 codecs json c signer fork_datas r w).1
  execute-Step (submit_bid bid) w = Step.submits bid
  execute-Step (get_header slot parent_hash key) w = Step.retrieves slot parent_hash key
  execute-Step (register_validator s) w = Step.registers s
  execute-Step (unblind_block slot index hash signature) w = Step.unblinds slot index hash signature

  Effect-Reach :
      {o : RelayWorld b c} (w u : RelayWorld b c)
      → Effect h roots keccak256 codecs json c signer fork_datas w u
      → Steps o w
      → Steps o u
  Effect-Reach w u (inl same) before = rw same before
  Effect-Reach w u (inr (r, _, e)) before = rw e (Reach.next before (execute-Step r w))

  Event-Reach :
      {o w u : RelayWorld b c} (e : Event h roots keccak256 codecs json c signer fork_datas w u)
      → IsCalmEvent h roots keccak256 codecs json c signer fork_datas e
      → Steps o w
      → Steps o u
  Event-Reach {w = w} {u = u} (Event.bids m r e) calm before =
      Effect-Reach w u (bid-Effect h roots keccak256 codecs json c signer fork_datas m r w u e)
        before
  Event-Reach {w = w} {u = u} (Event.registers m r e) calm before =
      Effect-Reach w u (register-Effect h roots keccak256 codecs json c signer fork_datas m r w u e)
        before
  Event-Reach {w = w} {u = u} (Event.unblinds m r e) calm before =
      Effect-Reach w u (unblind-Effect h roots keccak256 codecs json c signer fork_datas m r w u e)
        before
  Event-Reach {w = w} {u = u} (Event.retrieves m r e) calm before =
      let (v, effect, again) =
        retrieve-Effect h roots keccak256 codecs json c signer fork_datas m r w u e in
      let found = Effect-Reach w v effect before in
      elim again [
        | inl same ↦ rw same found
        | inr read ↦ rw read (
            Reach.next found
              (Step.expires _ (λ j. inl (get_best_bid_lem b c laws m.slot j v.auctioneer).1)))
      ]
  Event-Reach (Event.expires a gone) calm before = Reach.next before (Step.expires a gone)
  Event-Reach (Event.moves_head s) calm before = Reach.next before (Step.moves_head s calm)
  Event-Reach (Event.gets_attributes attrs) calm before =
      Reach.next before (Step.gets_attributes attrs)
  Event-Reach (Event.gets_duties duties) calm before =
      Reach.next before (Step.gets_duties duties calm)

  -- The relay behind its services reaches only states that its use cases and events reach, as long as
  -- the head and the duties are calm.
  pub Served-Reach :
      {w u : RelayWorld b c} (served : Served h roots keccak256 codecs json c signer fork_datas w u)
      → IsCalm h roots keccak256 codecs json c signer fork_datas served
      → Steps w u
  Served-Reach Served.here calm = Reach.here
  Served-Reach (Served.next before e) calm = Event-Reach e calm.1 (Served-Reach before calm.0)
