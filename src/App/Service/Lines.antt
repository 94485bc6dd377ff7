-- ===== src/App/Service/Lines.antt =====
-- Lines of the event stream, in chunks of decoded text.
use mev_relay_rs.Prelude.{
  list_laws, append_assoc, ℕ, ◌≡◌, refl, sym, ap, ◌∙◌, true, false, [], ◌∷◌, ◌++◌, Bytes, Option,
  none, some, All, Bool-cases, Option-cases, inl, inr, ◌==◌,
}
use mev_relay_rs.Crypto.Blst.{Bls}
use mev_relay_rs.Datastore.Storage.{Storage}
use mev_relay_rs.App.Service.{Calls, Sse, take_line, take_lines, take_chunk}

module _ {b : Bls} (S : Storage b) (k : Calls b) (slots_per_epoch : ℕ) where
  abbrev pub NoNewline : Bytes → Type 0
  NoNewline = All (λ c. (c == 10) ≡ false)

  pub NoNewline-append :
      (x : Bytes) (c : ℕ) → NoNewline x → (c == 10) ≡ false → NoNewline (x ++ c ∷ [])
  NoNewline-append [] c h e = (e, tt)
  NoNewline-append (a ∷ x) c h e = (h.0, NoNewline-append x c h.1 e)

  pub take_lines_in :
      (line : Bytes) (c : ℕ) (rest : Bytes) (current : Option Bytes) (s : S.State)
      → (c == 10) ≡ false
      → take_lines S k slots_per_epoch line (c ∷ rest) current s
        ≡ take_lines S k slots_per_epoch (line ++ c ∷ []) rest current s
  unfolding take_lines
  take_lines_in line c rest current s e = rw (take_lines, e) refl

  pub take_lines_panic :
      (line : Bytes) (c : ℕ) (rest : Bytes) (current : Option Bytes) (s : S.State)
      → (c == 10) ≡ true
      → take_line S k slots_per_epoch line current s ≡ none
      → take_lines S k slots_per_epoch line (c ∷ rest) current s ≡ none
  unfolding take_lines
  take_lines_panic line c rest current s e p = rw (take_lines, e, p) refl

  pub take_lines_end :
      (line : Bytes) (c : ℕ) (rest : Bytes) (current current' : Option Bytes) (s s' : S.State)
      → (c == 10) ≡ true
      → take_line S k slots_per_epoch line current s ≡ some (current', s')
      → take_lines S k slots_per_epoch line (c ∷ rest) current s
        ≡ take_lines S k slots_per_epoch [] rest current' s'
  unfolding take_lines
  take_lines_end line c rest current current' s s' e p = rw (take_lines, e, p) refl

  -- A part without a newline is added to the line.
  pub take_lines_skip :
      (line x rest : Bytes) (current : Option Bytes) (s : S.State)
      → NoNewline x
      → take_lines S k slots_per_epoch line (x ++ rest) current s
        ≡ take_lines S k slots_per_epoch (line ++ x) rest current s
  unfolding take_lines
  take_lines_skip line [] rest current s h = simp list_laws
  take_lines_skip line (c ∷ x) rest current s h =
      rw (take_lines_in line c (x ++ rest) current s h.0) (
        take_lines_skip (line ++ c ∷ []) x rest current s h.1
        ∙ ap (λ z. take_lines S k slots_per_epoch z rest current s) (append_assoc line (c ∷ []) x))

  abbrev pub after : Option (Sse S k slots_per_epoch) → Bytes → Option (Sse S k slots_per_epoch)
  after none chunk = none
  after (some s) chunk = take_chunk S k slots_per_epoch chunk s

  take_lines-append :
      (line x y : Bytes) (current : Option Bytes) (s : S.State)
      → NoNewline line
      → take_lines S k slots_per_epoch line (x ++ y) current s
        ≡ after (take_lines S k slots_per_epoch line x current s) y
  unfolding take_lines take_chunk
  take_lines-append line [] y current s h = sym (take_lines_skip [] line y current s h)
  take_lines-append line (c ∷ x) y current s h = elim (Bool-cases (c == 10)) [
    | inr e ↦
        rw (take_lines_in line c (x ++ y) current s e, take_lines_in line c x current s e)
          (take_lines-append (line ++ c ∷ []) x y current s (NoNewline-append line c h e))
    | inl e ↦ elim (Option-cases (take_line S k slots_per_epoch line current s)) [
      | inl p ↦
          rw
            (
              take_lines_panic line c (x ++ y) current s e p,
              take_lines_panic line c x current s e p,
            )
            refl
      | inr ((current', s'), p) ↦
          rw
            (
              take_lines_end line c (x ++ y) current current' s s' e p,
              take_lines_end line c x current current' s s' e p,
            )
            (take_lines-append [] x y current' s' tt)
    ]
  ]

  -- Two chunks whose texts are already decoded are handled as the one text that they make together: the
  -- same lines, the same events in the same order, the same rest, and a panic in the one case exactly
  -- when in the other. It says nothing of a character whose bytes are in two chunks, each of which is
  -- decoded by itself.
  pub take_chunk-append :
      (x y : Bytes) (s : Sse S k slots_per_epoch)
      → take_chunk S k slots_per_epoch (x ++ y) s ≡ after (take_chunk S k slots_per_epoch x s) y
  unfolding take_chunk
  take_chunk-append x y s =
      ap (λ z. take_lines S k slots_per_epoch [] z s.current_event s.storage)
        (sym (append_assoc s.line_buf x y))
      ∙ take_lines-append [] (s.line_buf ++ x) y s.current_event s.storage tt
