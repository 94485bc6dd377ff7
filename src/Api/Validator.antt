-- ===== src/Api/Validator.antt =====
-- crates/api/src/validator_service.rs: registrations.
use mev_relay_rs.Prelude.{
  ◌≡◌, ◌↔◌, true, msg, text, ◌∷◌, Option, none, some, Result, ok, err, arith, Bool-cases,
  Result-cases, Option-cases, inl, inr,
}
use mev_relay_rs.Crypto.Blst.{Bls}
use mev_relay_rs.Crypto.Fork.{ForkDatas, ForkRoots, compute_builder_domain}
use mev_relay_rs.Entity.Bid.{EntityRoots}
use mev_relay_rs.Entity.Validator.{SignedValidatorRegistration, verify_registration}
use mev_relay_rs.Datastore.Storage.{Storage}
use mev_relay_rs.Datastore.Auctioneer.{Auctioneer}
use mev_relay_rs.UseCase.Error.{error_message}
use mev_relay_rs.UseCase.Exec.{World}
use mev_relay_rs.UseCase.RegisterValidator
use mev_relay_rs.UseCase.RegisterValidator.Laws.{register_validator_lem}
use mev_relay_rs.Api.Proto
use mev_relay_rs.Api.Conversion.{Codecs, refuses, panics, try_from_registration, conversion_message}
use mev_relay_rs.Api.Stream.{Status, invalid_argument, internal}

module _ {b : Bls} (h : ForkRoots) (roots : EntityRoots b) (k : Codecs) (S : Storage b)
    (A : Auctioneer b) (fork_datas : ForkDatas) where
  -- `ValidatorServiceImpl::register_validator`; `none` is a panic of the conversion.
  unfoldable pub register_validator :
      Proto.RegisterValidatorRequest
      → World S A
      → Option (Result Status Proto.RegisterValidatorResponse × World S A)
  register_validator req w = elim req.registration [
    | none ↦ some (err (invalid_argument (msg "missing registration")), w)
    | some proto_reg ↦ elim (try_from_registration b k proto_reg) [
      | err (refuses e) ↦
          some (err (invalid_argument (text "invalid registration: " ∷ conversion_message e)), w)
      | err panics ↦ none
      | ok registration ↦
          let (result, w') = RegisterValidator.execute h roots S A fork_datas registration w in
          elim result [
            | ok tt ↦ some (ok (record { code = 0; message = msg "ok" }), w')
            | err e ↦ some (err (internal (error_message e)), w')
          ]
    ]
  ]

  abbrev stored : SignedValidatorRegistration b → World S A → World S A
  stored s w = record w {
    storage = S.set_validator_registration s.message.pubkey s.message w.storage;
  }

  -- A registration is answered with success exactly when it is present, converts, and is signed by
  -- its own key; then it is stored under that key, and nothing else changes.
  pub register_validator_iff :
      (req : Proto.RegisterValidatorRequest) (w w' : World S A)
      → ((r : Proto.RegisterValidatorResponse) × (register_validator req w ≡ some (ok r, w'))) ↔ (
          (m : Proto.SignedValidatorRegistration) × (req.registration ≡ some m)
          × ((s : SignedValidatorRegistration b) × (try_from_registration b k m ≡ ok s)
              × (verify_registration b h roots.registration_root s
                    (compute_builder_domain h fork_datas)
                  ≡ true)
              × (w' ≡ stored s w)))
  unfolding register_validator
  register_validator_iff req w w' = (forward, backward)
    where
      forward :
          ((r : Proto.RegisterValidatorResponse) × (register_validator req w ≡ some (ok r, w')))
          → (m : Proto.SignedValidatorRegistration) × (req.registration ≡ some m)
            × ((s : SignedValidatorRegistration b) × (try_from_registration b k m ≡ ok s)
                × (verify_registration b h roots.registration_root s
                      (compute_builder_domain h fork_datas)
                    ≡ true)
                × (w' ≡ stored s w))
      forward (r, e) = elim (Option-cases req.registration) [
        | inl p ↦ absurd (ground (arith, p))
        | inr (m, p) ↦ elim (Result-cases (try_from_registration b k m)) [
          | inr (refuses x, q) ↦ absurd (ground (arith, p, q))
          | inr (panics, q) ↦ absurd (ground (arith, p, q))
          | inl (s, q) ↦
              elim (Bool-cases (
                verify_registration b h roots.registration_root s
                  (compute_builder_domain h fork_datas))) [
                    | inl v ↦ (
                      m,
                      p,
                      (
                        s,
                        q,
                        v,
                        ground (arith, p, q, v, register_validator_lem h roots S A fork_datas s w),
                      ),
                    )
                    | inr v ↦
                        absurd (
                          ground
                            (arith, p, q, v, register_validator_lem h roots S A fork_datas s w))
                  ]
        ]
      ]

      backward :
          ((m : Proto.SignedValidatorRegistration) × (req.registration ≡ some m)
            × ((s : SignedValidatorRegistration b) × (try_from_registration b k m ≡ ok s)
                × (verify_registration b h roots.registration_root s
                      (compute_builder_domain h fork_datas)
                    ≡ true)
                × (w' ≡ stored s w)))
          → (r : Proto.RegisterValidatorResponse) × (register_validator req w ≡ some (ok r, w'))
      backward (m, p, (s, q, v, e)) = (
        record { code = 0; message = msg "ok" },
        ground (arith, p, q, v, register_validator_lem h roots S A fork_datas s w),
      )
