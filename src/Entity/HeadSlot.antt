-- ===== src/Entity/HeadSlot.antt =====
-- crates/entity/src/head_slot.rs. A slot is a `u64`; sums wrap, as in a release build, and a
-- division by zero panics, which is `none`.
use native.Mathlib.Nat.{div-add-mod}
use mev_relay_rs.Prelude.{
  ℕ, ◌+◌, ◌/◌, ◌%◌, ◌*◌, ◌≤◌, Bool, true, Option, none, some, ◌≡◌, ◌↔◌, ◌==◌, arith, if◌then◌else◌,
}
use mev_relay_rs.Entity.Types.{u64_mod}

pub record HeadSlot : Type 0 where
  pub slot : ℕ

-- `HeadSlot::is_next_slot`
unfoldable pub is_next_slot : HeadSlot → ℕ → Bool
is_next_slot s proposal_slot = (s.slot + 1) % u64_mod == proposal_slot

-- `HeadSlot::is_duty_refresh_slot`
unfoldable pub is_duty_refresh_slot : HeadSlot → ℕ → Option Bool
is_duty_refresh_slot s slots_per_epoch =
    if slots_per_epoch == 0 then none else some (s.slot % slots_per_epoch == 1)

-- `HeadSlot::epoch`
unfoldable pub epoch : HeadSlot → ℕ → Option ℕ
epoch s slots_per_epoch = if slots_per_epoch == 0 then none else some (s.slot / slots_per_epoch)

-- With epochs of at least two slots, a slot asks for a duty refresh exactly when it is the second
-- slot of its epoch.
pub is_duty_refresh_slot_iff :
    (s : HeadSlot) (n e : ℕ)
    → 2 ≤ n
    → epoch s n ≡ some e
    → (is_duty_refresh_slot s n ≡ some true) ↔ (s.slot ≡ e * n + 1)
unfolding is_duty_refresh_slot epoch
is_duty_refresh_slot_iff s n e h p =
    (λ q. grind (arith, div-add-mod s.slot n), λ q. grind (arith, div-add-mod s.slot n))

-- Epochs of no slots make both divisions panic, and no other length does.
pub slots_per_epoch_panics :
    (s : HeadSlot) (n : ℕ)
    → ((is_duty_refresh_slot s n ≡ none) ↔ (n ≡ 0)) × ((epoch s n ≡ none) ↔ (n ≡ 0))
unfolding is_duty_refresh_slot epoch
slots_per_epoch_panics s n =
    ((λ e. ground arith, λ e. ground arith), (λ e. ground arith, λ e. ground arith))
