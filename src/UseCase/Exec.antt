-- ===== src/UseCase/Exec.antt =====
-- The use cases as actions: they read and write the shared state, and may return an error early
-- (`?` and `return Err(..)`), keeping what was written before.
use mev_relay_rs.Prelude.{ℕ, suc, Result, ok, err, Option, Bool, true, false, ok_or, map_err}
use mev_relay_rs.Crypto.Blst.{Bls}
use mev_relay_rs.Entity.Bid.{Arc}
use mev_relay_rs.Datastore.Storage.{Storage}
use mev_relay_rs.Datastore.Auctioneer.{Auctioneer, AuctioneerError}
use mev_relay_rs.UseCase.Error.{UseCaseError, auctioneer_error}

-- What the use cases share: the storage, the auctioneer, and the next address of an allocation.
pub record World {b : Bls} (S : Storage b) (A : Auctioneer b) : Type 0 where
  pub storage : S.State
  pub auctioneer : A.State
  pub heap : ℕ

abbrev pub Exec : Type 0 → Type 0 → Type 0
Exec W R = W → Result UseCaseError R × W

abbrev pub and_then :
    {W R T : Type 0} → Result UseCaseError R × W → (R → Exec W T) → Result UseCaseError T × W
and_then (ok a, w) f = f a w
and_then (err e, w) f = (err e, w)

infixl 5 ◌>>=◌ ◌>>◌
abbrev pub ◌>>=◌ : {W R T : Type 0} → Exec W R → (R → Exec W T) → Exec W T
◌>>=◌ m f w = and_then (m w) f

abbrev pub ◌>>◌ : {W T : Type 0} → Exec W (Unit {0}) → Exec W T → Exec W T
m >> k = m >>= λ _. k

abbrev pub pure : {W R : Type 0} → R → Exec W R
pure a w = (ok a, w)

abbrev pub gets : {W R : Type 0} → (W → R) → Exec W R
gets f w = (ok (f w), w)

abbrev pub raise_if : {W : Type 0} → Bool → UseCaseError → Exec W (Unit {0})
raise_if true e w = (err e, w)
raise_if false e w = (ok tt, w)

abbrev pub or_raise : {W R : Type 0} → Option R → UseCaseError → Exec W R
or_raise o e w = (ok_or o e, w)

module _ {b : Bls} {S : Storage b} {A : Auctioneer b} where
  -- A read of the storage, and a write.
  abbrev pub reads : {R : Type 0} → (S.State → R) → Exec (World S A) R
  reads f w = (ok (f w.storage), w)

  abbrev pub writes : (S.State → S.State) → Exec (World S A) (Unit {0})
  writes f w = (ok tt, record w { storage = f w.storage })

  -- A call of the auctioneer, whose error becomes an `AuctioneerError` of the use case.
  abbrev pub calls :
      {R : Type 0} → (A.State → Result AuctioneerError R × A.State) → Exec (World S A) R
  calls f w =
      let (r, a) = f w.auctioneer in (map_err r auctioneer_error, record w { auctioneer = a })

  -- `Arc::new`: a new allocation.
  abbrev pub arc_new : {R : Type 0} → R → Exec (World S A) (Arc R)
  arc_new v w = (ok (record { addr = w.heap; value = v }), record w { heap = suc w.heap })
