-- ===== src/UseCase/Task.antt =====
-- The use cases of crates/usecase at the grain of threads: a task is a row of actions on the shared
-- state, one for each lock that is taken, with anything that other tasks do in between.
pub mod Programs
pub mod Laws
pub mod Keeps
pub mod Moves
use mev_relay_rs.Prelude.{suc, Result, ok, err, Option, Bool, true, false, ok_or, map_err}
use mev_relay_rs.Crypto.Blst.{Bls}
use mev_relay_rs.Entity.Bid.{Arc}
use mev_relay_rs.Datastore.Storage.{Storage}
use mev_relay_rs.Datastore.Auctioneer.{Auctioneer, AuctioneerError}
use mev_relay_rs.UseCase.Error.{UseCaseError, auctioneer_error}
use mev_relay_rs.UseCase.Exec.{World, Exec}

-- An action changes the state that it finds, and that state decides how the task goes on.
pub data Task (W : Type 0) (R : Type 0) : Type 0 where
  done : Result UseCaseError R → Task W R
  act : (W → W) → (W → Task W R) → Task W R

infixl 5 ◌>>=◌ ◌>>◌
unfoldable pub ◌>>=◌ : {W R T : Type 0} → Task W R → (R → Task W T) → Task W T
done (ok a) >>= f = f a
done (err e) >>= f = done (err e)
act change next >>= f = act change (λ w. next w >>= f)

abbrev pub ◌>>◌ : {W T : Type 0} → Task W (Unit {0}) → Task W T → Task W T
m >> k = m >>= λ _. k

unfoldable pub pure : {W R : Type 0} → R → Task W R
pure a = done (ok a)

unfoldable pub raise_if : {W : Type 0} → Bool → UseCaseError → Task W (Unit {0})
raise_if true e = done (err e)
raise_if false e = done (ok tt)

unfoldable pub or_raise : {W R : Type 0} → Option R → UseCaseError → Task W R
or_raise o e = done (ok_or o e)

module _ {b : Bls} {S : Storage b} {A : Auctioneer b} where
  -- One method of the storage, which holds its lock once.
  unfoldable pub reads : {R : Type 0} → (S.State → R) → Task (World S A) R
  reads f = act (λ w. w) (λ w. done (ok (f w.storage)))

  unfoldable pub writes : (S.State → S.State) → Task (World S A) (Unit {0})
  writes f = act (λ w. record w { storage = f w.storage }) (λ w. done (ok tt))

  -- One call of the auctioneer, which the cache does at once for its key.
  unfoldable pub calls :
      {R : Type 0} → (A.State → Result AuctioneerError R × A.State) → Task (World S A) R
  calls f =
      act (λ w. record w { auctioneer = (f w.auctioneer).1 })
        (λ w. done (map_err (f w.auctioneer).0 auctioneer_error))

  unfoldable pub arc_new : {R : Type 0} → R → Task (World S A) (Arc R)
  arc_new v =
      act (λ w. record w { heap = suc w.heap })
        (λ w. done (ok (record { addr = w.heap; value = v })))

-- A task that is left alone until it ends.
unfoldable pub run : {W R : Type 0} → Task W R → Exec W R
run (done r) w = (r, w)
run (act change next) w = run (next w) (change w)

-- One action of a task, if any is left.
unfoldable pub advance : {W R : Type 0} → Task W R → W → Task W R × W
advance (done r) w = (done r, w)
advance (act change next) w = (next w, change w)
