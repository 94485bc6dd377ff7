-- ===== src/Api/Bidder.antt =====
-- crates/api/src/bidder_service.rs: a stream of bids, answered one by one.
use mev_relay_rs.Prelude.{
  list_laws, ℕ, suc, ◌+◌, ◌≡◌, ◌↔◌, refl, sym, subst, ◌∙◌, true, false, List, [], ◌∷◌, ◌++◌, map,
  length, msg, text, Option, none, some, Result, ok, err, arith, Result-cases, inl, inr,
}
use mev_relay_rs.Crypto.Blst.{Bls}
use mev_relay_rs.Crypto.Fork.{ForkDatas, ForkRoots}
use mev_relay_rs.Entity.Bid.{BidSubmission, EntityRoots}
use mev_relay_rs.Datastore.Storage.{Storage}
use mev_relay_rs.Datastore.Auctioneer.{Auctioneer}
use mev_relay_rs.UseCase.Error.{UseCaseError, error_message}
use mev_relay_rs.UseCase.Exec.{World}
use mev_relay_rs.UseCase.SubmitBid
use mev_relay_rs.Api.Proto
use mev_relay_rs.Api.Conversion.{Codecs, refuses, panics, try_from_bid, conversion_message}
use mev_relay_rs.Api.Stream.{Status, Sender, send, Run}

-- The response to the result of the use case.
unfoldable pub bid_response : Result UseCaseError (Unit {0}) → Proto.BidResponse
bid_response (ok tt) = record { code = 0; message = msg "ok" }
bid_response (err e) = record { code = 1; message = error_message e }

module _ {b : Bls} (h : ForkRoots) (roots : EntityRoots b) (k : Codecs) (S : Storage b)
    (A : Auctioneer b) (fork_datas : ForkDatas) where
  -- The body of the loop of `handle_request`, up to the send; `none` is a panic of the conversion.
  unfoldable pub answer_bid : Proto.BidRequest → World S A → Option (Proto.BidResponse × World S A)
  unfolding bid_response
  answer_bid m w = elim (try_from_bid b k m) [
    | ok submission ↦
        let (result, w') = SubmitBid.execute h roots S A fork_datas submission w in
        some (bid_response result, w')
    | err (refuses e) ↦
        some (record { code = 1; message = text "conversion error: " ∷ conversion_message e }, w)
    | err panics ↦ none
  ]

  -- `BidderServiceImpl::handle_request`, which `bid` spawns on the stream that it is given
  unfoldable pub handle_request :
      List (Result Status Proto.BidRequest)
      → World S A
      → Sender (Result Status Proto.BidResponse)
      → Run (World S A) (Result Status Proto.BidResponse)
  unfolding answer_bid
  handle_request [] w tx = record { panicked = false; world = w; sender = tx }
  handle_request (err status ∷ stream) w tx = record {
    panicked = false;
    world = w;
    sender = (send (err status) tx).1;
  }
  handle_request (ok m ∷ stream) w tx = elim (answer_bid m w) [
    | none ↦ record { panicked = true; world = w; sender = tx }
    | some (response, w') ↦
        let (sent, tx') = send (ok response) tx in
        elim sent [
          | true ↦ handle_request stream w' tx'
          | false ↦ record { panicked = false; world = w'; sender = tx' }
        ]
  ]

  -- `BidderServiceImpl::bid`: what the spawned handler sends is the stream that is returned; `left` is
  -- how much of it the caller takes.
  unfoldable pub bid :
      ℕ
      → List (Result Status Proto.BidRequest)
      → World S A
      → Result Status (List (Result Status Proto.BidResponse)) × World S A
  unfolding handle_request
  bid left stream w =
      let run = handle_request stream w (record { sent = []; left = left }) in
      (ok run.sender.sent, run.world)

  -- What the requests are answered, in order.
  pub data Answers
      : List Proto.BidRequest → World S A → List Proto.BidResponse → World S A → Type 0 where
    nothing : {w : World S A} → Answers [] w [] w
    one :
        {m : Proto.BidRequest} {ms : List Proto.BidRequest} {w u v : World S A}
        {r : Proto.BidResponse} {rs : List Proto.BidResponse}
        → answer_bid m w ≡ some (r, u)
        → Answers ms u rs v
        → Answers (m ∷ ms) w (r ∷ rs) v

  -- On a receiver that stays, a stream of requests that are each answered without a panic gets one
  -- response for each request, in their order, and the state is the one that they leave in turn.
  pub handle_request-Answers :
      (ms : List Proto.BidRequest) (rs : List Proto.BidResponse) (w v : World S A)
      (sent : List (Result Status Proto.BidResponse)) (left n : ℕ)
      → Answers ms w rs v
      → left ≡ length ms + n
      → handle_request (map ok ms) w (record { sent = sent; left = left }) ≡ record {
        panicked = false;
        world = v;
        sender = record { sent = sent ++ map ok rs; left = n };
      }
  unfolding handle_request
  handle_request-Answers [] [] w v sent left n Answers.nothing e =
      let all_left : left ≡ n = omega arith in rw all_left (simp list_laws)
  handle_request-Answers [] (r ∷ rs) w v sent left n a e = elim a [ ]
  handle_request-Answers (m ∷ ms) [] w v sent left n a e = elim a [ ]
  handle_request-Answers (m ∷ ms) (r ∷ rs) w v sent left n (Answers.one {u = u} a rest) e =
      let one_less : left ≡ suc (length ms + n) = omega arith in
      subst
        (λ (z : ℕ). handle_request (map ok (m ∷ ms)) w (record { sent = sent; left = z }) ≡ record {
          panicked = false;
          world = v;
          sender = record { sent = sent ++ map ok (r ∷ rs); left = n };
        })
        (sym one_less)
        (rw (handle_request, a)
          (handle_request-Answers ms rs u v (sent ++ ok r ∷ []) (length ms + n) n rest refl
            ∙ simp list_laws))

  -- A request is answered with code 0 exactly when it converts to a bid that is accepted.
  pub answer_bid_iff :
      (m : Proto.BidRequest) (r : Proto.BidResponse) (w w' : World S A)
      → answer_bid m w ≡ some (r, w')
      → (r.code ≡ 0) ↔ (
          (bid : BidSubmission b) × (try_from_bid b k m ≡ ok bid)
          × (SubmitBid.execute h roots S A fork_datas bid w ≡ (ok tt, w')))
  unfolding answer_bid bid_response
  answer_bid_iff m r w w' e = elim (Result-cases (try_from_bid b k m)) [
    | inl (bid, p) ↦ elim (Result-cases (SubmitBid.execute h roots S A fork_datas bid w).0) [
      | inl (tt, q) ↦ (λ z. (bid, p, ground (arith, p, q)), λ z. ground (arith, p, q))
      | inr (x, q) ↦
          (λ z. absurd (ground (arith, p, q)), λ (bid', p', q'). absurd (ground (arith, p, q)))
    ]
    | inr (refuses x, p) ↦ (λ z. absurd (ground (arith, p)), λ (bid', p', q'). absurd (cc (p, p')))
    | inr (panics, p) ↦ absurd (ground (arith, p))
  ]
