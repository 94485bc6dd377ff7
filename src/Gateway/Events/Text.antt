-- ===== src/Gateway/Events/Text.antt =====
-- What the parsing of events uses of slices, iterators and strings.
use mev_relay_rs.Prelude.{
  ℕ, suc, Bool, List, [], ◌∷◌, Bytes, length, take, Option, none, some, bytes_eq, ltb,
  if◌then◌else◌,
}

-- `[T]::windows`
unfoldable pub windows : ℕ → Bytes → List Bytes
windows n [] = []
windows n (x ∷ xs) = if ltb (suc (length xs)) n then [] else take n (x ∷ xs) ∷ windows n xs

-- `Iterator::position`
unfoldable pub position : (Bytes → Bool) → List Bytes → Option ℕ
position p [] = none
position p (x ∷ xs) =
    if p x then some 0 else (elim (position p xs) [ none ↦ none | some n ↦ some (suc n) ])

-- `str::strip_prefix`
unfoldable pub strip_prefix : Bytes → Bytes → Option Bytes
strip_prefix [] s = some s
strip_prefix (p ∷ ps) [] = none
strip_prefix (p ∷ ps) (c ∷ cs) = if bytes_eq (p ∷ []) (c ∷ []) then strip_prefix ps cs else none

-- Adds a character to the first of some lines.
abbrev pub to_first : ℕ → List Bytes → List Bytes
to_first c [] = (c ∷ []) ∷ []
to_first c (l ∷ ls) = (c ∷ l) ∷ ls

unfoldable pub without_cr : Bytes → Bytes
without_cr [] = []
without_cr (c ∷ []) = if bytes_eq (c ∷ []) (13 ∷ []) then [] else c ∷ []
without_cr (c ∷ d ∷ s) = c ∷ without_cr (d ∷ s)

unfoldable pub split_lines : Bytes → List Bytes
split_lines [] = []
split_lines (c ∷ s) =
    let rest = split_lines s in if bytes_eq (c ∷ []) (10 ∷ []) then [] ∷ rest else to_first c rest

unfoldable pub each_without_cr : List Bytes → List Bytes
each_without_cr [] = []
each_without_cr (l ∷ ls) = without_cr l ∷ each_without_cr ls

-- `str::lines`
unfoldable pub lines : Bytes → List Bytes
unfolding split_lines each_without_cr without_cr
lines s = each_without_cr (split_lines s)
