-- ===== src/UseCase/Task/Laws.antt =====
-- A task that is left alone does what its use case does in one go.
use mev_relay_rs.Prelude.{◌≡◌, Bytes, arith}
use mev_relay_rs.Crypto.Blst.{Bls}
use mev_relay_rs.Crypto.Fork.{ForkDatas, ForkRoots}
use mev_relay_rs.Crypto.Signer.{BlsSigner}
use mev_relay_rs.Entity.Bid.{EntityRoots}
use mev_relay_rs.Datastore.Storage.{Storage}
use mev_relay_rs.Datastore.Auctioneer.{Auctioneer}
use mev_relay_rs.UseCase.Exec.{World, Exec}
use mev_relay_rs.UseCase.SubmitBid
use mev_relay_rs.UseCase.SubmitBid.{check_bid}
use mev_relay_rs.UseCase.GetHeader
use mev_relay_rs.UseCase.RegisterValidator
use mev_relay_rs.UseCase.UnblindBlock
use mev_relay_rs.UseCase.Task.{run, ◌>>=◌, pure, raise_if, or_raise, reads, writes, calls, arc_new}
use mev_relay_rs.UseCase.Task.Programs.{
  Request, submit_bid, get_header, register_validator, unblind_block, Answer, task_of,
}

module _ {b : Bls} (h : ForkRoots) (roots : EntityRoots b) (keccak256 : Bytes → Bytes)
    (S : Storage b) (A : Auctioneer b) (signer : BlsSigner b) (fork_datas : ForkDatas) where
  -- The use case of a request, in one go.
  abbrev pub execute_of : (r : Request b) → Exec (World S A) (Answer r)
  execute_of (submit_bid bid) = SubmitBid.execute h roots S A fork_datas bid
  execute_of (get_header slot parent_hash key) =
      GetHeader.execute h roots S A signer slot parent_hash key
  execute_of (register_validator registration) =
      RegisterValidator.execute h roots S A fork_datas registration
  execute_of (unblind_block slot index hash signature) =
      UnblindBlock.execute h keccak256 S A fork_datas slot index hash signature

  -- Any use case, run action by action with nothing in between, gives the result and the state that
  -- it gives in one go.
  pub run-task_of :
      (r : Request b) (w : World S A)
      → run (task_of h roots keccak256 S A signer fork_datas r) w ≡ execute_of r w
  unfolding run task_of SubmitBid.execute check_bid GetHeader.execute RegisterValidator.execute
      UnblindBlock.execute ◌>>=◌ pure raise_if or_raise reads writes calls arc_new
  run-task_of (submit_bid bid) w = ground arith
  run-task_of (get_header slot parent_hash key) w = ground arith
  run-task_of (register_validator registration) w = ground arith
  run-task_of (unblind_block slot index hash signature) w = ground arith
