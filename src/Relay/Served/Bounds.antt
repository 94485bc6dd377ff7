-- ===== src/Relay/Served/Bounds.antt =====
-- The bounds of the entity's types, in every state of the relay behind its services.
use mev_relay_rs.Prelude.{ℕ, inl, inr, Bytes, List}
use mev_relay_rs.Crypto.Blst.{Bls}
use mev_relay_rs.Crypto.Keys.{BlsPublicKey}
use mev_relay_rs.Crypto.Fork.{ForkDatas, ForkRoots}
use mev_relay_rs.Crypto.Signer.{BlsSigner}
use mev_relay_rs.Entity.Bid.{EntityRoots}
use mev_relay_rs.Entity.Validator.{ValidatorRegistration}
use mev_relay_rs.Entity.Sized.{IsSizedBid, IsSizedRegistration}
use mev_relay_rs.Datastore.Cache.{Cache, CacheLaws}
use mev_relay_rs.Datastore.MemoryAuctioneer.Laws.{Bid}
use mev_relay_rs.UseCase.Task.Programs.{
  Request, submit_bid, get_header, register_validator, unblind_block,
}
use mev_relay_rs.Api.Conversion.{Codecs, CodecLaws}
use mev_relay_rs.Api.Conversion.Sized.{try_from_bid-IsSized, try_from_registration-IsSized}
use mev_relay_rs.Api.Retriever.{Json}
use mev_relay_rs.Relay.State.{RelayWorld, initial}
use mev_relay_rs.Relay.Kept.{
  IsKept, head-IsKept, attributes-IsKept, duties-IsKept, expire-IsKept, read-IsKept, initial-IsKept,
}
use mev_relay_rs.Relay.Kept.Tasks.{Given, execute-IsKept}
use mev_relay_rs.Relay.Served.{Event, Served}
use mev_relay_rs.Relay.Served.Effects.{
  Comes, Effect, bid-Effect, register-Effect, unblind-Effect, retrieve-Effect,
}

module _ {b : Bls} (h : ForkRoots) (roots : EntityRoots b) (keccak256 : Bytes → Bytes)
    (codecs : Codecs) (json : Json b) (c : Cache (Bid b)) (signer : BlsSigner b)
    (fork_datas : ForkDatas) (laws : CacheLaws c) (codec_laws : CodecLaws codecs)
    (whitelist : List (BlsPublicKey b)) where
  abbrev SizedKey : BlsPublicKey b → ValidatorRegistration b → Type 0
  SizedKey key m = IsSizedRegistration m

  -- Every bid, payload, registration and hash that the relay holds keeps its bounds.
  abbrev pub IsSizedWorld : RelayWorld b c → Type 0
  IsSizedWorld w = IsKept whitelist IsSizedBid SizedKey c w

  brings :
      (r : Request b)
      → Comes h roots keccak256 codecs json c signer fork_datas r
      → Given h roots keccak256 c signer fork_datas laws whitelist IsSizedBid SizedKey r
  brings (submit_bid bid) (m, e) = λ _. try_from_bid-IsSized b codecs codec_laws m bid e
  brings (register_validator s) (m, e) = λ _. try_from_registration-IsSized b codecs m s e
  brings (get_header slot parent_hash key) _ = tt
  brings (unblind_block slot index hash signature) _ = tt

  Effect-IsSized :
      (w u : RelayWorld b c)
      → Effect h roots keccak256 codecs json c signer fork_datas w u
      → IsSizedWorld w
      → IsSizedWorld u
  Effect-IsSized w u (inl same) i = rw same i
  Effect-IsSized w u (inr (r, comes, e)) i = rw e (
      execute-IsKept h roots keccak256 c signer fork_datas laws whitelist IsSizedBid SizedKey r w
        (brings r comes) i)

  Event-IsSized :
      {w u : RelayWorld b c}
      → Event h roots keccak256 codecs json c signer fork_datas w u
      → IsSizedWorld w
      → IsSizedWorld u
  Event-IsSized {w} {u} (Event.bids m r e) i =
      Effect-IsSized w u (bid-Effect h roots keccak256 codecs json c signer fork_datas m r w u e) i
  Event-IsSized {w} {u} (Event.registers m r e) i =
      Effect-IsSized w u
        (register-Effect h roots keccak256 codecs json c signer fork_datas m r w u e) i
  Event-IsSized {w} {u} (Event.unblinds m r e) i =
      Effect-IsSized w u
        (unblind-Effect h roots keccak256 codecs json c signer fork_datas m r w u e) i
  Event-IsSized {w} {u} (Event.retrieves m r e) i =
      let (v, effect, again) =
        retrieve-Effect h roots keccak256 codecs json c signer fork_datas m r w u e in
      let k = Effect-IsSized w v effect i in
      elim again [
        | inl same ↦ rw same k
        | inr read ↦ rw read (read-IsKept whitelist IsSizedBid SizedKey c laws v k m.slot)
      ]
  Event-IsSized {w} (Event.expires a gone) i =
      expire-IsKept whitelist IsSizedBid SizedKey c laws w i a gone
  Event-IsSized {w} (Event.moves_head s) i = head-IsKept whitelist IsSizedBid SizedKey c laws w i s
  Event-IsSized {w} (Event.gets_attributes attrs) i =
      attributes-IsKept whitelist IsSizedBid SizedKey c laws w i attrs
  Event-IsSized {w} (Event.gets_duties duties) i =
      duties-IsKept whitelist IsSizedBid SizedKey c laws w i duties

  Served-IsSized :
      {w u : RelayWorld b c}
      → Served h roots keccak256 codecs json c signer fork_datas w u
      → IsSizedWorld w
      → IsSizedWorld u
  Served-IsSized Served.here i = i
  Served-IsSized (Served.next before e) i = Event-IsSized e (Served-IsSized before i)

  -- In every state that a new relay reaches by messages to its services, each handled to its end before the
  -- next, while the head, the duties, the payload attributes and the cache change at any time between: every bid and every payload that it holds has the
  -- sizes of the entity's types (hashes of 32 bytes, addresses of 20, a bloom filter of 256, and the
  -- bounds of the lists), every fee recipient that is registered has 20 bytes, and every hash that is
  -- recorded as delivered is that of such a payload; when the vectors of `ssz_types` check their
  -- length.
  pub Served-IsSizedWorld :
      (ttl : ℕ) {w : RelayWorld b c}
      → Served h roots keccak256 codecs json c signer fork_datas (initial c whitelist ttl) w
      → IsSizedWorld w
  Served-IsSizedWorld ttl served =
      Served-IsSized served (initial-IsKept whitelist IsSizedBid SizedKey c laws ttl)
