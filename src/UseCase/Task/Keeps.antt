-- ===== src/UseCase/Task/Keeps.antt =====
-- Rules for tasks that run among others: what every action keeps, from any state in which what is
-- kept holds, and what the task has shown when it succeeds.
use mev_relay_rs.Prelude.{
  ℕ, suc, map_err, Result, ok, err, Bool, true, false, Option, some, none, ◌≡◌, refl,
}
use mev_relay_rs.Datastore.Storage.{Storage}
use mev_relay_rs.Datastore.Auctioneer.{Auctioneer, AuctioneerError}
use mev_relay_rs.Crypto.Blst.{Bls}
use mev_relay_rs.UseCase.Error.{UseCaseError, auctioneer_error}
use mev_relay_rs.UseCase.Exec.{World}
use mev_relay_rs.UseCase.Task.{
  Task, done, act, ◌>>=◌, raise_if, or_raise, pure, reads, writes, calls, arc_new, advance, run,
}
use mev_relay_rs.Entity.Bid.{Arc}

pub data Keeps {W R : Type 0} (I : W → Type 0) (P : R → Type 0) : Task W R → Type 0 where
  ended : {a : R} → P a → Keeps I P (done (ok a))
  failed : {e : UseCaseError} → Keeps I P (done (err e))
  acts :
      {change : W → W} {next : W → Task W R}
      → ((w : W) → I w → I (change w))
      → ((w : W) → I w → Keeps I P (next w))
      → Keeps I P (act change next)

-- What a task has shown when it has ended well.
abbrev pub Shown : {W T : Type 0} → (T → Type 0) → Task W T → Type 0
Shown P (done (ok a)) = P a
Shown P _ = Unit

module _ {W R T : Type 0} {I : W → Type 0} {P : T → Type 0} where
  pub Keeps-bind :
      {Q : R → Type 0} {m : Task W R} {f : R → Task W T}
      → Keeps I Q m
      → ((a : R) → Q a → Keeps I P (f a))
      → Keeps I P (m >>= f)
  unfolding ◌>>=◌
  Keeps-bind (Keeps.ended q) g = g _ q
  Keeps-bind Keeps.failed g = Keeps.failed
  Keeps-bind (Keeps.acts kept rest) g = Keeps.acts kept (λ w i. Keeps-bind (rest w i) g)

  pub Keeps-or_raise :
      (o : Option R) (e : UseCaseError) (f : R → Task W T)
      → ((a : R) → o ≡ some a → Keeps I P (f a))
      → Keeps I P (or_raise o e >>= f)
  unfolding ◌>>=◌ or_raise
  Keeps-or_raise none e f g = Keeps.failed
  Keeps-or_raise (some a) e f g = g a refl

module _ {W T : Type 0} {I : W → Type 0} {P : T → Type 0} where
  pub Keeps-pure : (a : T) → P a → Keeps I P (pure a)
  unfolding pure
  Keeps-pure a p = Keeps.ended p

  pub Keeps-raise_if :
      (test : Bool) (e : UseCaseError) (f : Unit {0} → Task W T)
      → (test ≡ false → Keeps I P (f tt))
      → Keeps I P (raise_if test e >>= f)
  unfolding ◌>>=◌ raise_if
  Keeps-raise_if true e f g = Keeps.failed
  Keeps-raise_if false e f g = g refl

  pub ended-Keeps : {t : Task W T} → Keeps I P t → Shown P t
  ended-Keeps (Keeps.ended p) = p
  ended-Keeps Keeps.failed = tt
  ended-Keeps (Keeps.acts kept rest) = tt

  -- A whole run keeps what is kept.
  pub run-Keeps : {t : Task W T} (w : W) → Keeps I P t → I w → I (run t w).1
  unfolding run
  run-Keeps w (Keeps.ended p) i = i
  run-Keeps w Keeps.failed i = i
  run-Keeps w (Keeps.acts {change = change} kept rest) i =
      run-Keeps (change w) (rest w i) (kept w i)

  -- One action keeps what is kept, and the rest of the task goes on keeping it.
  pub advance-Keeps :
      {t : Task W T} (w : W) → Keeps I P t → I w → Keeps I P (advance t w).0 × I (advance t w).1
  unfolding advance
  advance-Keeps w (Keeps.ended p) i = (Keeps.ended p, i)
  advance-Keeps w Keeps.failed i = (Keeps.failed, i)
  advance-Keeps w (Keeps.acts kept rest) i = (rest w i, kept w i)

module _ {b : Bls} {S : Storage b} {A : Auctioneer b} {T : Type 0} {I : World S A → Type 0}
    {P : T → Type 0} where
  pub Keeps-reads :
      {R : Type 0} (get : S.State → R) (f : R → Task (World S A) T)
      → ((w : World S A) → I w → Keeps I P (f (get w.storage)))
      → Keeps I P (reads get >>= f)
  unfolding ◌>>=◌ reads
  Keeps-reads get f g = Keeps.acts (λ w i. i) g

  pub Keeps-writes :
      (put : S.State → S.State) (f : Unit {0} → Task (World S A) T)
      → ((w : World S A) → I w → I (record w { storage = put w.storage }))
      → Keeps I P (f tt)
      → Keeps I P (writes put >>= f)
  unfolding ◌>>=◌ writes
  Keeps-writes put f kept g = Keeps.acts kept (λ w i. g)

  pub Keeps-calls :
      {R : Type 0} (call : A.State → Result AuctioneerError R × A.State)
      (f : R → Task (World S A) T)
      → ((w : World S A) → I w → I (record w { auctioneer = (call w.auctioneer).1 }))
      → ((w : World S A) → I w → (a : R) → (call w.auctioneer).0 ≡ ok a → Keeps I P (f a))
      → Keeps I P (calls call >>= f)
  unfolding ◌>>=◌ calls
  Keeps-calls call f kept g = Keeps.acts kept (λ w i. go (call w.auctioneer).0 (g w i))
    where
      go :
          (r : Result AuctioneerError _)
          → ((a : _) → r ≡ ok a → Keeps I P (f a))
          → Keeps I P (done (map_err r auctioneer_error) >>= f)
      go (ok a) k = k a refl
      go (err e) k = Keeps.failed

  pub Keeps-arc_new :
      {R : Type 0} (v : R) (f : Arc R → Task (World S A) T)
      → ((w : World S A) → I w → I (record w { heap = suc w.heap }))
      → ((addr : ℕ) → Keeps I P (f (record { addr = addr; value = v })))
      → Keeps I P (arc_new v >>= f)
  unfolding ◌>>=◌ arc_new
  Keeps-arc_new v f kept g = Keeps.acts kept (λ w i. g w.heap)

-- A write that ends a task.
pub Keeps-write :
    {b : Bls} {S : Storage b} {A : Auctioneer b} {I : World S A → Type 0} {P : Unit {0} → Type 0}
    (put : S.State → S.State)
    → ((w : World S A) → I w → I (record w { storage = put w.storage }))
    → P tt
    → Keeps I P (writes put)
unfolding writes
Keeps-write put kept p = Keeps.acts kept (λ w i. Keeps.ended p)
