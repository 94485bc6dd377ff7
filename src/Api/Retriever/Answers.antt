-- ===== src/Api/Retriever/Answers.antt =====
-- The stream of header requests of crates/api/src/retriever_service.rs.
use mev_relay_rs.Prelude.{
  list_laws, ℕ, suc, ◌+◌, ◌≡◌, refl, ◌∙◌, List, [], ◌∷◌, ◌++◌, map, length, Bytes, some, Result, ok,
  err, arith, false,
}
use mev_relay_rs.Crypto.Blst.{Bls}
use mev_relay_rs.Crypto.Fork.{ForkDatas, ForkRoots}
use mev_relay_rs.Crypto.Signer.{BlsSigner}
use mev_relay_rs.Entity.Bid.{EntityRoots}
use mev_relay_rs.Datastore.Storage.{Storage}
use mev_relay_rs.Datastore.Auctioneer.{Auctioneer}
use mev_relay_rs.UseCase.Exec.{World}
use mev_relay_rs.Api.Proto
use mev_relay_rs.Api.Stream.{Status, Run}
use mev_relay_rs.Api.Retriever.{Json, answer_retrieve, handle_request}

module _ {b : Bls} (h : ForkRoots) (roots : EntityRoots b) (keccak256 : Bytes → Bytes)
    (json : Json b) (S : Storage b) (A : Auctioneer b) (signer : BlsSigner b)
    (fork_datas : ForkDatas) where
  -- What the requests are answered in order, with a response or with an error.
  pub data Answers
      : List Proto.RetrieveRequest
        → World S A
        → List (Result Status Proto.RetrieveResponse)
        → World S A
        → Type 0 where
    nothing : {w : World S A} → Answers [] w [] w
    one :
        {m : Proto.RetrieveRequest} {ms : List Proto.RetrieveRequest} {w u v : World S A}
        {r : Result Status Proto.RetrieveResponse}
        {rs : List (Result Status Proto.RetrieveResponse)}
        → answer_retrieve h roots keccak256 json S A signer fork_datas m w ≡ some (r, u)
        → Answers ms u rs v
        → Answers (m ∷ ms) w (r ∷ rs) v

  abbrev run :
      List Proto.RetrieveRequest
      → World S A
      → List (Result Status Proto.RetrieveResponse)
      → ℕ
      → Run (World S A) (Result Status Proto.RetrieveResponse)
  run ms w sent left =
      handle_request h roots keccak256 json S A signer fork_datas (map ok ms) w
        (record { sent = sent; left = left })

  -- One request more, whatever its answer, while the receiver stays.
  run-one :
      (m : Proto.RetrieveRequest) (ms : List Proto.RetrieveRequest) (w u : World S A)
      (r : Result Status Proto.RetrieveResponse)
      (sent : List (Result Status Proto.RetrieveResponse)) (left : ℕ)
      → answer_retrieve h roots keccak256 json S A signer fork_datas m w ≡ some (r, u)
      → run (m ∷ ms) w sent (suc left) ≡ run ms u (sent ++ r ∷ []) left
  unfolding handle_request
  run-one m ms w u (ok r) sent left e = rw (handle_request, e) refl
  run-one m ms w u (err x) sent left e = rw (handle_request, e) refl

  -- On a receiver that stays, a stream of header requests that are each answered without a panic
  -- gets one response or one error for each request, in their order, and the state is the one that
  -- they leave in turn: a request that fails does not end the stream.
  pub handle_retrievals-Answers :
      (ms : List Proto.RetrieveRequest) (rs : List (Result Status Proto.RetrieveResponse))
      (w v : World S A) (sent : List (Result Status Proto.RetrieveResponse)) (left n : ℕ)
      → Answers ms w rs v
      → left ≡ length ms + n
      → handle_request h roots keccak256 json S A signer fork_datas
          (map ok ms)
          w
          (record { sent = sent; left = left })
        ≡ record { panicked = false; world = v; sender = record { sent = sent ++ rs; left = n } }
  unfolding handle_request
  handle_retrievals-Answers [] [] w v sent left n Answers.nothing e =
      let all_left : left ≡ n = omega arith in rw all_left (simp list_laws)
  handle_retrievals-Answers [] (r ∷ rs) w v sent left n a e = elim a [ ]
  handle_retrievals-Answers (m ∷ ms) [] w v sent left n a e = elim a [ ]
  handle_retrievals-Answers (m ∷ ms) (r ∷ rs) w v sent left n (Answers.one {u = u} a rest) e =
      let one_less : left ≡ suc (length ms + n) = omega arith in
      rw one_less (
        run-one m ms w u r sent (length ms + n) a
        ∙ (handle_retrievals-Answers ms rs u v (sent ++ r ∷ []) (length ms + n) n rest refl
            ∙ simp list_laws))
