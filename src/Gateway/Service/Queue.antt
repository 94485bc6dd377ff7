-- ===== src/Gateway/Service/Queue.antt =====
-- The queue of crates/gateway/src/beacon/service/mod.rs: when a queued command is answered.
use mev_relay_rs.Prelude.{
  ℕ, zero, suc, ◌+◌, ◌-◌, ◌<◌, ltb, ◌≡◌, refl, ◌∙◌, true, false, Bool-cases, List, [], ◌∷◌, ◌++◌,
  Option, none, some, Result, ok, err, length, ◌==◌, arith, inl, inr,
}
use mev_relay_rs.Crypto.Blst.{Bls}
use mev_relay_rs.Gateway.Api.{BeaconApi}
use mev_relay_rs.Gateway.Events.{BeaconError}
use mev_relay_rs.Gateway.Service.{
  BeaconCommands, Reply, Sender, Channels, sender, answer, poll, poll_loop, drop_service,
}
use mev_relay_rs.Gateway.Service.Handle.{send, receive, lookup_sent, has_sender, channel_closed}
use mev_relay_rs.Gateway.Service.Events.{
  Event, Fate, answered, failed, waiting, other_call, polled, dropped, fate, command, happen,
  happens, lookup_sent-append,
}

-- What the receiver of a call gets in each case.
abbrev pub received :
    {b : Bls} {W : Type 0}
    → BeaconApi b W
    → BeaconCommands b W
    → Fate
    → Option (Result BeaconError (Reply b W))
received api cmd answered = some (ok (answer api cmd))
received api cmd failed = some (err channel_closed)
received api cmd waiting = none

module _ {b : Bls} {W : Type 0} (api : BeaconApi b W) (tx : Sender) where
  -- The future stands in the channel.
  abbrev Holds : Reply b W → Channels b W → Type 0
  Holds r c = lookup_sent tx c.sent ≡ some r

  -- The sender is gone, and nothing was sent.
  abbrev IsLost : Channels b W → Type 0
  IsLost c = (c.open_receiver ≡ false) × (c.queue ≡ []) × (lookup_sent tx c.sent ≡ none)

  -- The command is the first in the queue with this sender, after `ahead` others.
  abbrev pub At : BeaconCommands b W → ℕ → List (BeaconCommands b W) → Type 0
  At cmd ahead [] = ⊥
  At cmd zero (c ∷ queue) = c ≡ cmd
  At cmd (suc ahead) (c ∷ queue) = ((sender c == tx) ≡ false) × At cmd ahead queue

  abbrev pub Waits : BeaconCommands b W → ℕ → Channels b W → Type 0
  Waits cmd ahead c =
      (c.open_receiver ≡ true) × (lookup_sent tx c.sent ≡ none) × At cmd ahead c.queue

  poll_loop-Holds :
      (r : Reply b W) (budget : ℕ) (queue : List (BeaconCommands b W)) (c : Channels b W)
      → c.queue ≡ queue
      → Holds r c
      → Holds r (poll_loop api budget c)
  unfolding poll_loop
  poll_loop-Holds r zero queue c e h = h
  poll_loop-Holds r (suc budget) [] c e h = rw (e, poll_loop) h
  poll_loop-Holds r (suc budget) (cmd ∷ queue) c e h =
      rw (e, poll_loop)
        (poll_loop-Holds r budget queue _ refl
          (rw (lookup_sent-append tx (sender cmd) (answer api cmd) c.sent, h) refl))

  happen-Holds :
      (r : Reply b W) (e : Event b) (c : Channels b W) → Holds r c → Holds r (happen api e c)
  unfolding happen send drop_service poll
  happen-Holds r (other_call request) c h = ground arith
  happen-Holds r (polled budget) c h = ground (arith, poll_loop-Holds r budget c.queue c refl h)
  happen-Holds r dropped c h = h

  happen-IsLost : (e : Event b) (c : Channels b W) → IsLost c → IsLost (happen api e c)
  unfolding happen send drop_service poll
  happen-IsLost (other_call request) c h = ground arith
  happen-IsLost (polled budget) c h = ground arith
  happen-IsLost dropped c h = ground arith

  module _ (cmd : BeaconCommands b W) (own : sender cmd ≡ tx) where
    poll_loop-answers :
        (budget ahead : ℕ) (queue : List (BeaconCommands b W)) (c : Channels b W)
        → c.queue ≡ queue
        → lookup_sent tx c.sent ≡ none
        → At cmd ahead queue
        → ahead < budget
        → Holds (answer api cmd) (poll_loop api budget c)
    unfolding poll_loop
    poll_loop-answers zero ahead queue c e u h lt = absurd (omega arith)
    poll_loop-answers (suc budget) ahead [] c e u h lt = absurd h
    poll_loop-answers (suc budget) zero (x ∷ queue) c e u h lt =
        rw (e, poll_loop)
          (poll_loop-Holds (answer api cmd) budget queue _ refl
            (ground (arith, lookup_sent-append tx (sender x) (answer api x) c.sent, u, h, own)))
    poll_loop-answers (suc budget) (suc ahead) (x ∷ queue) c e u h lt =
        rw (e, poll_loop)
          (poll_loop-answers budget ahead queue _ refl
            (ground (arith, lookup_sent-append tx (sender x) (answer api x) c.sent, u, h)) h.1
            (omega arith))

    poll_loop-Waits :
        (budget ahead rest : ℕ) (queue : List (BeaconCommands b W)) (c : Channels b W)
        → c.queue ≡ queue
        → lookup_sent tx c.sent ≡ none
        → At cmd ahead queue
        → ahead ≡ rest + budget
        → (lookup_sent tx (poll_loop api budget c).sent ≡ none)
          × At cmd rest (poll_loop api budget c).queue
    unfolding poll_loop
    poll_loop-Waits zero ahead rest queue c e u h le =
        let q : ahead ≡ rest = omega arith in (u, rw (e, ← q) h)
    poll_loop-Waits (suc budget) ahead rest [] c e u h le = absurd h
    poll_loop-Waits (suc budget) zero rest (x ∷ queue) c e u h le = absurd (omega arith)
    poll_loop-Waits (suc budget) (suc ahead) rest (x ∷ queue) c e u h le =
        rw (e, poll_loop)
          (poll_loop-Waits budget ahead rest queue _ refl
            (ground (arith, lookup_sent-append tx (sender x) (answer api x) c.sent, u, h)) h.1
            (omega arith))

    poll_loop-open_receiver :
        (budget : ℕ) (queue : List (BeaconCommands b W)) (c : Channels b W)
        → c.queue ≡ queue
        → (poll_loop api budget c).open_receiver ≡ c.open_receiver
    unfolding poll_loop
    poll_loop-open_receiver zero queue c e = refl
    poll_loop-open_receiver (suc budget) [] c e = rw (e, poll_loop) refl
    poll_loop-open_receiver (suc budget) (x ∷ queue) c e =
        rw (e, poll_loop) (poll_loop-open_receiver budget queue _ refl)

    poll-open :
        (budget : ℕ) (c : Channels b W)
        → c.open_receiver ≡ true
        → poll api budget c ≡ poll_loop api budget c
    unfolding poll
    poll-open budget c o = ground arith

    At-append :
        (ahead : ℕ) (queue : List (BeaconCommands b W)) (x : BeaconCommands b W)
        → At cmd ahead queue
        → At cmd ahead (queue ++ x ∷ [])
    At-append ahead [] x h = absurd h
    At-append zero (c ∷ queue) x h = h
    At-append (suc ahead) (c ∷ queue) x h = (h.0, At-append ahead queue x h.1)

    At-has_sender :
        (ahead : ℕ) (queue : List (BeaconCommands b W))
        → At cmd ahead queue
        → has_sender tx queue ≡ true
    At-has_sender ahead [] h = absurd h
    At-has_sender zero (c ∷ queue) h = ground (arith, h, own)
    At-has_sender (suc ahead) (c ∷ queue) h = ground (arith, At-has_sender ahead queue h.1)

    -- The command of a new sender goes behind all the others.
    pub At-last :
        (queue : List (BeaconCommands b W))
        → has_sender tx queue ≡ false
        → At cmd (length queue) (queue ++ cmd ∷ [])
    At-last [] h = refl
    At-last (c ∷ queue) h = (ground arith, At-last queue (ground arith))

    receive-Holds :
        (es : List (Event b)) (c : Channels b W)
        → Holds (answer api cmd) c
        → receive tx (happens api es c) ≡ received api cmd answered
    unfolding happens receive
    receive-Holds [] c h = rw (receive, h) refl
    receive-Holds (e ∷ es) c h =
        receive-Holds es (happen api e c) (happen-Holds (answer api cmd) e c h)

    receive-IsLost :
        (es : List (Event b)) (c : Channels b W)
        → IsLost c
        → receive tx (happens api es c) ≡ received api cmd failed
    unfolding happens receive
    receive-IsLost [] c h = ground (arith, h)
    receive-IsLost (e ∷ es) c h = receive-IsLost es (happen api e c) (happen-IsLost e c h)

    pub receive_lem :
        (es : List (Event b)) (ahead : ℕ) (c : Channels b W)
        → Waits cmd ahead c
        → receive tx (happens api es c) ≡ received api cmd (fate ahead es)
    unfolding happens happen receive fate send drop_service
    receive_lem [] ahead c (o, u, h) = ground (arith, u, At-has_sender ahead c.queue h)
    receive_lem (other_call request ∷ es) ahead c (o, u, h) = receive_lem es ahead _ (
      ground arith,
      ground arith,
      rw o (At-append ahead c.queue (command request c.next_sender) h),
    )
    receive_lem (dropped ∷ es) ahead c (o, u, h) = receive-IsLost es _ (refl, refl, u)
    receive_lem (polled budget ∷ es) ahead c (o, u, h) = elim (Bool-cases (ltb ahead budget)) [
      | inl lt ↦
          rw (lt, poll-open budget c o)
            (receive-Holds es _ (poll_loop-answers budget ahead c.queue c refl u h (ground arith)))
      | inr ge ↦
          let (u', h') =
            poll_loop-Waits budget ahead (ahead - budget) c.queue c refl u h (ground arith) in
          rw (ge, poll-open budget c o)
            (receive_lem es (ahead - budget) _
              (poll_loop-open_receiver budget c.queue c refl ∙ o, u', h'))
    ]
