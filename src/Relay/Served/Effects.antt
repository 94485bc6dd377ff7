-- ===== src/Relay/Served/Effects.antt =====
-- What a message to a service changes: nothing, or what one run of its use case does.
use mev_relay_rs.Prelude.{
  ℕ, ◌≡◌, refl, ◌⊎◌, inl, inr, some, Result, ok, arith, Bool-cases, Result-cases, Option-cases,
  length, ◌==◌, Bytes,
}
use mev_relay_rs.Crypto.Blst.{Bls}
use mev_relay_rs.Crypto.Keys.{pk_deserialize, sig_deserialize}
use mev_relay_rs.Crypto.Fork.{ForkDatas, ForkRoots}
use mev_relay_rs.Crypto.Signer.{BlsSigner}
use mev_relay_rs.Entity.Bid.{EntityRoots}
use mev_relay_rs.Datastore.MemoryStorage.{memory_storage}
use mev_relay_rs.Datastore.Cache.{Cache}
use mev_relay_rs.Datastore.MemoryAuctioneer.{memory_auctioneer, get_best_bid}
use mev_relay_rs.Datastore.MemoryAuctioneer.Laws.{Bid}
use mev_relay_rs.UseCase.Task.Programs.{
  Request, Answer, submit_bid, get_header, register_validator, unblind_block,
}
use mev_relay_rs.UseCase.Task.Laws.{execute_of}
use mev_relay_rs.UseCase.Exec.{Exec}
use mev_relay_rs.Api.Proto
use mev_relay_rs.Api.Conversion.{Codecs, refuses, panics, try_from_bid, try_from_registration}
use mev_relay_rs.Api.Stream.{Status}
use mev_relay_rs.Api.Bidder
use mev_relay_rs.Api.Retriever
use mev_relay_rs.Api.Retriever.{Json, answer_retrieve_while}
use mev_relay_rs.Api.Validator
use mev_relay_rs.Relay.State.{RelayWorld}
use mev_relay_rs.Relay.Served.{answer_bid, answer_retrieve, submit_blinded_block}
use mev_relay_rs.Relay.Served

module _ {b : Bls} (h : ForkRoots) (roots : EntityRoots b) (keccak256 : Bytes → Bytes)
    (codecs : Codecs) (json : Json b) (c : Cache (Bid b)) (signer : BlsSigner b)
    (fork_datas : ForkDatas) where
  -- The bid or the registration of a request was converted from a message.
  abbrev pub Comes : Request b → Type 0
  Comes (submit_bid bid) = (m : Proto.BidRequest) × (try_from_bid b codecs m ≡ ok bid)
  Comes (register_validator s) =
      (m : Proto.SignedValidatorRegistration) × (try_from_registration b codecs m ≡ ok s)
  Comes _ = Unit

  abbrev pub execute : (r : Request b) → Exec (RelayWorld b c) (Answer r)
  execute =
      execute_of h roots keccak256 (memory_storage b) (memory_auctioneer b c) signer fork_datas

  abbrev pub Effect : RelayWorld b c → RelayWorld b c → Type 0
  Effect w u = (u ≡ w) ⊎ ((r : Request b) × Comes r × (u ≡ (execute r w).1))

  abbrev pub read_again : ℕ → RelayWorld b c → RelayWorld b c
  read_again slot w = record w { auctioneer = (get_best_bid b c slot w.auctioneer).1 }

  pub bid-Effect :
      (m : Proto.BidRequest) (r : Proto.BidResponse) (w u : RelayWorld b c)
      → answer_bid h roots keccak256 codecs json c signer fork_datas m w ≡ some (r, u)
      → Effect w u
  unfolding Bidder.answer_bid
  bid-Effect m r w u e = elim (Result-cases (try_from_bid b codecs m)) [
    | inl (bid, p) ↦ inr (submit_bid bid, (m, p), ground (arith, p))
    | inr (refuses x, p) ↦ inl (ground (arith, p))
    | inr (panics, p) ↦ absurd (ground (arith, p))
  ]

  pub register-Effect :
      (m : Proto.RegisterValidatorRequest) (r : Result Status Proto.RegisterValidatorResponse)
      (w u : RelayWorld b c)
      → Served.register_validator h roots keccak256 codecs json c signer fork_datas m w
        ≡ some (r, u)
      → Effect w u
  unfolding Validator.register_validator
  register-Effect m r w u e = elim (Option-cases m.registration) [
    | inl p ↦ inl (ground (arith, p))
    | inr (x, p) ↦ elim (Result-cases (try_from_registration b codecs x)) [
      | inl (s, q) ↦ inr (
        register_validator s,
        (x, q),
        elim (Result-cases (execute (register_validator s) w).0) [
          | inl (tt, t) ↦ ground (arith, p, q, t)
          | inr (y, t) ↦ ground (arith, p, q, t)
        ],
      )
      | inr (refuses y, q) ↦ inl (ground (arith, p, q))
      | inr (panics, q) ↦ absurd (ground (arith, p, q))
    ]
  ]

  pub unblind-Effect :
      (m : Proto.SubmitBlindedBlockRequest) (r : Result Status Proto.BlindedBlockResponse)
      (w u : RelayWorld b c)
      → submit_blinded_block h roots keccak256 codecs json c signer fork_datas m w ≡ some (r, u)
      → Effect w u
  unfolding Retriever.submit_blinded_block
  unblind-Effect m r w u e = elim (Bool-cases (length m.block_hash == 32)) [
    | inr l ↦ absurd (ground (arith, l))
    | inl l ↦ elim (Result-cases (sig_deserialize b m.signature)) [
      | inr (x, q) ↦ inl (ground (arith, l, q))
      | inl (g, q) ↦
          let request : Request b = unblind_block m.slot m.proposer_index m.block_hash g in
          inr (
            request,
            tt,
            elim (Result-cases (execute request w).0) [
              | inr (y, t) ↦ ground (arith, l, q, t)
              | inl (resp, t) ↦ elim (Result-cases (json.payload_to_vec resp.execution_payload)) [
                | inl (v, j) ↦ ground (arith, l, q, t, j)
                | inr (x, j) ↦ ground (arith, l, q, t, j)
              ]
            ],
          )
    ]
  ]

  -- A header that is found is followed by a second read of the best bid.
  pub retrieve-Effect :
      (m : Proto.RetrieveRequest) (r : Result Status Proto.RetrieveResponse) (w u : RelayWorld b c)
      → answer_retrieve h roots keccak256 codecs json c signer fork_datas m w ≡ some (r, u)
      → (v : RelayWorld b c) × Effect w v × ((u ≡ v) ⊎ (u ≡ read_again m.slot v))
  unfolding Retriever.answer_retrieve
  retrieve-Effect m r w u e = elim (Bool-cases (length m.parent_hash == 32)) [
    | inr l ↦ absurd (ground (arith, l))
    | inl l ↦ elim (Result-cases (pk_deserialize b m.proposer_pubkey)) [
      | inr (x, q) ↦ (w, inl refl, inl (ground (arith, l, q)))
      | inl (key, q) ↦
          let request : Request b = get_header m.slot m.parent_hash key in
          (
            (execute request w).1,
            inr (request, tt, refl),
            elim (Result-cases (execute request w).0) [
              | inr (y, t) ↦ inl (ground (arith, l, q, t))
              | inl (v, t) ↦ inr (ground (arith, l, q, t))
            ],
          )
    ]
  ]
