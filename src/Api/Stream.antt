-- ===== src/Api/Stream.antt =====
-- What the services use of `tonic` and `tokio`: statuses, and the sending half of a channel.
use mev_relay_rs.Prelude.{ℕ, suc, zero, Bool, true, false, List, [], ◌∷◌, ◌++◌, Message}

-- `tonic::Status`; the last is one that the transport reports.
pub data Status : Type 0 where
  invalid_argument : Message → Status
  internal : Message → Status
  transport : ℕ → Message → Status

-- A `Sender`: what was sent, and how many more sends succeed before the receiver is dropped.
pub record Sender (T : Type 0) : Type 0 where
  pub sent : List T
  pub left : ℕ

-- `send(..).await`: it fails exactly when the receiver is gone. The task waits while the buffer is
-- full.
abbrev pub send : {T : Type 0} → T → Sender T → Bool × Sender T
send m tx = elim tx.left [
  | zero ↦ (false, tx)
  | suc n ↦ (true, record { sent = tx.sent ++ m ∷ []; left = n })
]

-- How a spawned handler ends, and with which state.
pub record Run (W T : Type 0) : Type 0 where
  pub panicked : Bool
  pub world : W
  pub sender : Sender T
