-- ===== src/App/Service/Run/Laws.antt =====
-- What crates/app/src/relay_service.rs leaves in the storage, whatever the beacon node sends.
use mev_relay_rs.Prelude.{
  ℕ, ◌≡◌, refl, sym, ◌∙◌, Bool, true, false, List, [], ◌∷◌, ◌++◌, Bytes, Option, none, some,
  Message, Result, ok, err, Bool-cases, Option-cases, Result-cases, inl, inr, ◌==◌, if◌then◌else◌,
  arith,
}
use mev_relay_rs.Crypto.Blst.{Bls}
use mev_relay_rs.Datastore.Storage.{Storage}
use mev_relay_rs.Gateway.Head.{subscribe_events}
use mev_relay_rs.Gateway.Node.{Response}
use mev_relay_rs.App.Service.{Calls, Sse, take_chunk, take_line, take_lines}
use mev_relay_rs.App.Service.Lines.{
  NoNewline, NoNewline-append, take_lines_in, take_lines_panic, take_lines_end, take_lines_skip,
  take_chunk-append,
}
use mev_relay_rs.App.Service.Run.{
  BeaconClient, Connection, Progress, panicked, connected, returned, read_chunks, new_sse,
  connect_sse, polling_loop, run,
}

module _ {b : Bls} (S : Storage b) (k : Calls b) (slots_per_epoch : ℕ) where
  -- What is kept after a chunk is a line without its end.
  take_lines-NoNewline :
      (line x : Bytes) (current : Option Bytes) (s : S.State) (t : Sse S k slots_per_epoch)
      → NoNewline S k slots_per_epoch line
      → take_lines S k slots_per_epoch line x current s ≡ some t
      → NoNewline S k slots_per_epoch t.line_buf
  unfolding take_lines
  take_lines-NoNewline line [] current s t h e =
      let same : line ≡ t.line_buf = ground (arith, e) in rw (← same) h
  take_lines-NoNewline line (c ∷ x) current s t h e = elim (Bool-cases (c == 10)) [
    | inr p ↦
        take_lines-NoNewline (line ++ c ∷ []) x current s t
          (NoNewline-append S k slots_per_epoch line c h p)
          (sym (take_lines_in S k slots_per_epoch line c x current s p) ∙ e)
    | inl p ↦ elim (Option-cases (take_line S k slots_per_epoch line current s)) [
      | inl q ↦
          let no_rest = take_lines_panic S k slots_per_epoch line c x current s p q in
          absurd (ground (arith, no_rest, e))
      | inr ((current', s'), q) ↦
          take_lines-NoNewline [] x current' s' t tt
            (sym (take_lines_end S k slots_per_epoch line c x current current' s s' p q) ∙ e)
    ]
  ]

  take_chunk_nothing :
      (t : Sse S k slots_per_epoch)
      → NoNewline S k slots_per_epoch t.line_buf
      → take_chunk S k slots_per_epoch [] t ≡ some t
  unfolding take_chunk take_lines
  take_chunk_nothing t h =
      take_lines_skip S k slots_per_epoch [] t.line_buf [] t.current_event t.storage h

  take_chunk-NoNewline :
      (x : Bytes) (t t' : Sse S k slots_per_epoch)
      → take_chunk S k slots_per_epoch x t ≡ some t'
      → NoNewline S k slots_per_epoch t'.line_buf
  unfolding take_chunk
  take_chunk-NoNewline x t t' =
      take_lines-NoNewline [] (t.line_buf ++ x) t.current_event t.storage t' tt

  module _ (n : BeaconClient) where
    -- The text that a connection brings before its first error.
    abbrev pub text_of : List (Result Message Bytes) → Bytes
    text_of [] = []
    text_of (err e ∷ chunks) = []
    text_of (ok bytes ∷ chunks) = n.from_utf8_lossy bytes ++ text_of chunks

    -- The connection is over: its body has ended, or one of its chunks is an error.
    abbrev pub is_over : List (Result Message Bytes) → Bool → Bool
    is_over [] ended = ended
    is_over (err e ∷ chunks) ended = true
    is_over (ok bytes ∷ chunks) ended = is_over chunks ended

    -- What `run` does after the chunks of a connection.
    abbrev pub continue_with :
        List (Bytes → Result Message Response)
        → Bool
        → Option (Sse S k slots_per_epoch)
        → Option S.State
    continue_with ticks over none = none
    continue_with ticks over (some t) =
        if over then polling_loop S k slots_per_epoch n ticks t.storage else some t.storage

    abbrev settle :
        List Connection
        → List (Bytes → Result Message Response)
        → Progress S k slots_per_epoch n
        → Option S.State
    settle connections ticks panicked = none
    settle connections ticks (connected t) = some t.storage
    settle connections ticks (returned (ok u) s) = run S k slots_per_epoch n connections ticks s
    settle connections ticks (returned (err e) s) = polling_loop S k slots_per_epoch n ticks s

    settle-read_chunks :
        (connections : List Connection) (ticks : List (Bytes → Result Message Response))
        (chunks : List (Result Message Bytes)) (ended : Bool) (t : Sse S k slots_per_epoch)
        → NoNewline S k slots_per_epoch t.line_buf
        → settle connections ticks (read_chunks S k slots_per_epoch n chunks ended t)
          ≡ continue_with ticks
              (is_over chunks ended)
              (take_chunk S k slots_per_epoch (text_of chunks) t)
    unfolding read_chunks
    settle-read_chunks connections ticks [] true t h = rw (take_chunk_nothing t h) refl
    settle-read_chunks connections ticks [] false t h = rw (take_chunk_nothing t h) refl
    settle-read_chunks connections ticks (err e ∷ chunks) ended t h =
        rw (take_chunk_nothing t h) refl
    settle-read_chunks connections ticks (ok bytes ∷ chunks) ended t h =
        let x = n.from_utf8_lossy bytes in
        rw (take_chunk-append S k slots_per_epoch x (text_of chunks) t)
          elim (Option-cases (take_chunk S k slots_per_epoch x t)) [
            | inl p ↦ rw (read_chunks, p) refl
            | inr (t', p) ↦
                rw (read_chunks, p)
                  (settle-read_chunks connections ticks chunks ended t'
                    (take_chunk-NoNewline x t t' p))
          ]

    run-settle :
        (c : Connection) (connections : List Connection)
        (ticks : List (Bytes → Result Message Response)) (s : S.State)
        → run S k slots_per_epoch n (c ∷ connections) ticks s
          ≡ settle connections ticks (connect_sse S k slots_per_epoch n c s)
    unfolding run
    run-settle c connections ticks s = ground (arith)

    -- Whatever connections could follow, the relay's task makes only one. It leaves in the storage
    -- what the text received makes of it, taken as one chunk; once that connection is over, or if the
    -- node refuses it, the task polls the head slot from there on and never connects again. It
    -- panics exactly when one of these two steps does.
    pub run_lem :
        (c : Connection) (connections : List Connection)
        (ticks : List (Bytes → Result Message Response)) (s : S.State)
        → run S k slots_per_epoch n (c ∷ connections) ticks s
          ≡ (elim (subscribe_events c.answer n.url) [
            | err e ↦ polling_loop S k slots_per_epoch n ticks s
            | ok response ↦ continue_with ticks (is_over c.chunks c.ended) (
                take_chunk S k slots_per_epoch (text_of c.chunks) (new_sse S k slots_per_epoch n s))
          ])
    unfolding connect_sse
    run_lem c connections ticks s =
        run-settle c connections ticks s ∙ elim (Result-cases (subscribe_events c.answer n.url)) [
          | inr (e, p) ↦ rw (connect_sse, p) refl
          | inl (r, p) ↦
              rw (connect_sse, p)
                (settle-read_chunks connections ticks c.chunks c.ended
                  (new_sse S k slots_per_epoch n s) tt)
        ]
