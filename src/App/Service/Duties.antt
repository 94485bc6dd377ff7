-- ===== src/App/Service/Duties.antt =====
-- Which duties the service stores: only those of registered validators.
use mev_relay_rs.Prelude.{
  ℕ, ◌+◌, ◌*◌, ◌%◌, ◌≤◌, ◌≡◌, refl, sym, Bool, true, false, List, [], ◌∷◌, ◌++◌, filter, is_some,
  is_empty, some, ok, err, Message, All, Bool-cases, Option-cases, Result-cases, inl, inr, arith,
  lookup-is_empty,
}
use mev_relay_rs.Crypto.Blst.{Bls}
use mev_relay_rs.Entity.Types.{u64_mod}
use mev_relay_rs.Entity.Validator.{ProposerDuty}
use mev_relay_rs.Entity.HeadSlot.{HeadSlot, is_duty_refresh_slot, is_duty_refresh_slot_iff, epoch}
use mev_relay_rs.Entity.BeaconEvent.{BeaconEvent, HeadEvent, head, payload_attributes}
use mev_relay_rs.Datastore.MemoryStorage.{
  MemoryStorage, memory_storage, read_validator_registration, empty_validator_regs, set_head_slot,
  set_proposer_duties, set_payload_attributes,
}
use mev_relay_rs.App.Service.{
  Calls, filter_duties, sync_duties, handle_head_event, handle_payload_attributes_event,
  handle_event,
}

module _ {b : Bls} (k : Calls b) (slots_per_epoch : ℕ) where
  abbrev pub is_registered : MemoryStorage b → ProposerDuty b → Bool
  is_registered s d = is_some (read_validator_registration b d.pubkey s)

  filter_nothing :
      (p : ProposerDuty b → Bool) (ds : List (ProposerDuty b))
      → ((d : ProposerDuty b) → p d ≡ false)
      → filter p ds ≡ []
  filter_nothing p [] h = refl
  filter_nothing p (d ∷ ds) h = rw (h d) (filter_nothing p ds h)

  unregistered :
      (s : MemoryStorage b) (d : ProposerDuty b)
      → is_empty s.validator_registrations ≡ true
      → is_registered s d ≡ false
  unfolding read_validator_registration
  unregistered s d e = rw (lookup-is_empty b.pk_eq d.pubkey s.validator_registrations e) refl

  -- The early return without registrations changes nothing: the duties kept are those of registered
  -- validators, in their order.
  pub filter_duties_lem :
      (ds : List (ProposerDuty b)) (s : MemoryStorage b)
      → filter_duties (memory_storage b) k slots_per_epoch ds s ≡ filter (is_registered s) ds
  unfolding filter_duties empty_validator_regs
  filter_duties_lem ds s = elim (Bool-cases (is_empty s.validator_registrations)) [
    | inr e ↦ rw e refl
    | inl e ↦ rw e (sym (filter_nothing (is_registered s) ds (λ d. unregistered s d e)))
  ]

  abbrev kept : List (ProposerDuty b) → MemoryStorage b → List (ProposerDuty b)
  kept = filter_duties (memory_storage b) k slots_per_epoch

  -- Every stored duty is one of a registered validator.
  abbrev pub AllRegistered : MemoryStorage b → Type 0
  AllRegistered s = All (λ d. is_registered s d ≡ true) s.proposer_duties

  All-filter :
      (p : ProposerDuty b → Bool) (ds : List (ProposerDuty b)) → All (λ d. p d ≡ true) (filter p ds)
  All-filter p [] = tt
  All-filter p (d ∷ ds) = elim (Bool-cases (p d)) [
    | inl e ↦ rw e (e, All-filter p ds)
    | inr e ↦ rw e (All-filter p ds)
  ]

  All-append :
      (P : ProposerDuty b → Type 0) (xs ys : List (ProposerDuty b))
      → All P xs
      → All P ys
      → All P (xs ++ ys)
  All-append P [] ys h g = g
  All-append P (x ∷ xs) ys h g = (h.0, All-append P xs ys h.1 g)

  filter_duties-registered :
      (ds : List (ProposerDuty b)) (s : MemoryStorage b)
      → All
          (λ d. is_registered s d ≡ true)
          (filter_duties (memory_storage b) k slots_per_epoch ds s)
  filter_duties-registered ds s = rw (filter_duties_lem ds s) (All-filter (is_registered s) ds)

  sync_duties-err :
      (e : ℕ) (x : Message) (s : MemoryStorage b)
      → k.proposer_duties e ≡ err x
      → sync_duties (memory_storage b) k slots_per_epoch e s ≡ (err x, s)
  unfolding sync_duties
  sync_duties-err e x s p = rw (sync_duties, p) refl

  sync_duties-one :
      (e : ℕ) (now : List (ProposerDuty b)) (x : Message) (s : MemoryStorage b)
      → k.proposer_duties e ≡ ok now
      → k.proposer_duties ((e + 1) % u64_mod) ≡ err x
      → sync_duties (memory_storage b) k slots_per_epoch e s
        ≡ (ok tt, set_proposer_duties b (kept now s) s)
  unfolding sync_duties
  sync_duties-one e now x s p q = rw (sync_duties, p, q) refl

  sync_duties-both :
      (e : ℕ) (now later : List (ProposerDuty b)) (s : MemoryStorage b)
      → k.proposer_duties e ≡ ok now
      → k.proposer_duties ((e + 1) % u64_mod) ≡ ok later
      → sync_duties (memory_storage b) k slots_per_epoch e s
        ≡ (ok tt, set_proposer_duties b (kept now s ++ kept later s) s)
  unfolding sync_duties
  sync_duties-both e now later s p q = rw (sync_duties, p, q) refl

  sync_duties-AllRegistered :
      (e : ℕ) (s : MemoryStorage b)
      → AllRegistered s
      → AllRegistered (sync_duties (memory_storage b) k slots_per_epoch e s).1
  unfolding set_proposer_duties read_validator_registration
  sync_duties-AllRegistered e s h = elim (Result-cases (k.proposer_duties e)) [
    | inr (x, p) ↦ rw (sync_duties-err e x s p) h
    | inl (ds, p) ↦ elim (Result-cases (k.proposer_duties ((e + 1) % u64_mod))) [
      | inr (x, q) ↦ rw (sync_duties-one e ds x s p q) (filter_duties-registered ds s)
      | inl (next, q) ↦ rw (sync_duties-both e ds next s p q) (
          All-append _ (kept ds s) _ (filter_duties-registered ds s)
            (filter_duties-registered next s))
    ]
  ]

  handle_head_event-AllRegistered :
      (event : HeadEvent) (s s' : MemoryStorage b)
      → handle_head_event (memory_storage b) k slots_per_epoch event s ≡ some s'
      → AllRegistered s
      → AllRegistered s'
  unfolding handle_head_event set_head_slot read_validator_registration
  handle_head_event-AllRegistered event s s' e h =
      let slot : HeadSlot = record { slot = event.slot } in
      let moved : MemoryStorage b = set_head_slot b slot s in
      elim (Option-cases (is_duty_refresh_slot slot slots_per_epoch)) [
        | inl p ↦ absurd (ground (arith, p))
        | inr (false, p) ↦ let same : s' ≡ moved = ground (arith, p) in rw same h
        | inr (true, p) ↦ elim (Option-cases (epoch slot slots_per_epoch)) [
          | inl q ↦ absurd (ground (arith, p, q))
          | inr (n, q) ↦
              let same : s' ≡ (sync_duties (memory_storage b) k slots_per_epoch n moved).1 =
                ground (arith, p, q) in
              rw same (sync_duties-AllRegistered n moved h)
        ]
      ]

  -- An event of the beacon node that is handled without a panic keeps every stored duty one of a
  -- registered validator.
  pub handle_event-AllRegistered :
      (event : BeaconEvent) (s s' : MemoryStorage b)
      → handle_event (memory_storage b) k slots_per_epoch event s ≡ some s'
      → AllRegistered s
      → AllRegistered s'
  unfolding handle_event handle_payload_attributes_event set_payload_attributes
      read_validator_registration
  handle_event-AllRegistered (head event) s s' e h = handle_head_event-AllRegistered event s s' e h
  handle_event-AllRegistered (payload_attributes event) s s' e h =
      elim (Option-cases (k.parse_b256 event.contents.payload_attributes.prev_randao)) [
        | inl p ↦ let same : s' ≡ s = ground (arith, p) in rw same h
        | inr (r, p) ↦
            elim (Option-cases
              (k.parse_address event.contents.payload_attributes.suggested_fee_recipient)) [
                | inl q ↦ let same : s' ≡ s = ground (arith, p, q) in rw same h
                | inr (a, q) ↦
                    let same : s' ≡ record s {
                      payload_attributes = record {
                        timestamp = event.contents.payload_attributes.timestamp;
                        prev_randao = r;
                        suggested_fee_recipient = a;
                      };
                    } =
                      ground (arith, p, q) in
                    rw same h
              ]
      ]

  -- At the second slot of an epoch, when the node gives the duties of that epoch and of the next one,
  -- a head event stores the head and exactly the duties of registered validators among them.
  pub handle_head_event_lem :
      (event : HeadEvent) (e : ℕ) (now later : List (ProposerDuty b)) (s : MemoryStorage b)
      → 2 ≤ slots_per_epoch
      → epoch (record { slot = event.slot }) slots_per_epoch ≡ some e
      → event.slot ≡ e * slots_per_epoch + 1
      → k.proposer_duties e ≡ ok now
      → k.proposer_duties ((e + 1) % u64_mod) ≡ ok later
      → handle_head_event (memory_storage b) k slots_per_epoch event s
        ≡ some (record s {
          head_slot = record { slot = event.slot };
          proposer_duties = filter (is_registered s) now ++ filter (is_registered s) later;
        })
  unfolding handle_head_event set_head_slot set_proposer_duties read_validator_registration
  handle_head_event_lem event e now later s two in_epoch second p q =
      let slot : HeadSlot = record { slot = event.slot } in
      let moved : MemoryStorage b = set_head_slot b slot s in
      let refresh : is_duty_refresh_slot slot slots_per_epoch ≡ some true =
        (is_duty_refresh_slot_iff slot slots_per_epoch e two in_epoch).1 second in
      let same : kept now moved ++ kept later moved
          ≡ filter (is_registered s) now ++ filter (is_registered s) later =
        rw (filter_duties_lem now moved, filter_duties_lem later moved) refl in
      rw (handle_head_event, refresh, in_epoch, sync_duties-both e now later moved p q, same) refl
