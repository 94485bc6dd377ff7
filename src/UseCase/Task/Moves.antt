-- ===== src/UseCase/Task/Moves.antt =====
-- Rules for a relation between the states before and after each action of a task, whatever the state
-- is that the action finds.
use mev_relay_rs.Prelude.{suc, Result, ok, err, Bool, true, false, Option}
use mev_relay_rs.Crypto.Blst.{Bls}
use mev_relay_rs.Datastore.Storage.{Storage}
use mev_relay_rs.Datastore.Auctioneer.{Auctioneer, AuctioneerError}
use mev_relay_rs.UseCase.Error.{UseCaseError}
use mev_relay_rs.UseCase.Exec.{World}
use mev_relay_rs.UseCase.Task.{
  Task, done, act, ◌>>=◌, raise_if, or_raise, pure, reads, writes, calls, arc_new, advance,
}

pub data Moves {W R : Type 0} (Q : W → W → Type 0) : Task W R → Type 0 where
  ended : {r : Result UseCaseError R} → Moves Q (done r)
  acts :
      {change : W → W} {next : W → Task W R}
      → ((w : W) → Q w (change w))
      → ((w : W) → Moves Q (next w))
      → Moves Q (act change next)

module _ {W R : Type 0} {Q : W → W → Type 0} where
  pub Moves-bind :
      {T : Type 0} {m : Task W R} {f : R → Task W T}
      → Moves Q m
      → ((a : R) → Moves Q (f a))
      → Moves Q (m >>= f)
  unfolding ◌>>=◌
  Moves-bind (Moves.ended {r = ok a}) g = g a
  Moves-bind (Moves.ended {r = err e}) g = Moves.ended
  Moves-bind (Moves.acts moves rest) g = Moves.acts moves (λ w. Moves-bind (rest w) g)

  pub Moves-pure : (a : R) → Moves Q (pure a)
  unfolding pure
  Moves-pure a = Moves.ended

  pub Moves-or_raise : (o : Option R) (e : UseCaseError) → Moves Q (or_raise o e)
  unfolding or_raise
  Moves-or_raise o e = Moves.ended

  -- One action moves as the relation allows, if the task has one left, and so does the rest.
  pub advance-Moves :
      {t : Task W R} (w : W)
      → ((u : W) → Q u u)
      → Moves Q t
      → Moves Q (advance t w).0 × Q w (advance t w).1
  unfolding advance
  advance-Moves w stays Moves.ended = (Moves.ended, stays w)
  advance-Moves w stays (Moves.acts moves rest) = (rest w, moves w)

pub Moves-raise_if :
    {W : Type 0} {Q : W → W → Type 0} (test : Bool) (e : UseCaseError) → Moves Q (raise_if test e)
unfolding raise_if
Moves-raise_if true e = Moves.ended
Moves-raise_if false e = Moves.ended

module _ {b : Bls} {S : Storage b} {A : Auctioneer b} {Q : World S A → World S A → Type 0} where
  pub Moves-reads :
      {R : Type 0} (get : S.State → R) → ((w : World S A) → Q w w) → Moves Q (reads get)
  unfolding reads
  Moves-reads get stays = Moves.acts stays (λ w. Moves.ended)

  pub Moves-writes :
      (put : S.State → S.State)
      → ((w : World S A) → Q w (record w { storage = put w.storage }))
      → Moves Q (writes put)
  unfolding writes
  Moves-writes put moves = Moves.acts moves (λ w. Moves.ended)

  pub Moves-calls :
      {R : Type 0} (call : A.State → Result AuctioneerError R × A.State)
      → ((w : World S A) → Q w (record w { auctioneer = (call w.auctioneer).1 }))
      → Moves Q (calls call)
  unfolding calls
  Moves-calls call moves = Moves.acts moves (λ w. Moves.ended)

  pub Moves-arc_new :
      {R : Type 0} (v : R)
      → ((w : World S A) → Q w (record w { heap = suc w.heap }))
      → Moves Q (arc_new v)
  unfolding arc_new
  Moves-arc_new v moves = Moves.acts moves (λ w. Moves.ended)
