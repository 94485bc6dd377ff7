-- ===== src/Gateway/Events/Parsing.antt =====
-- How crates/gateway/src/beacon/events/mod.rs parses the text of one event.
use mev_relay_rs.Prelude.{
  ◌≡◌, refl, ap, ◌∙◌, false, List, [], ◌∷◌, ◌++◌, map, Bytes, codes, Option, none, some, Result,
  All, bytes_eq, is_empty, if◌then◌else◌, arith,
}
use mev_relay_rs.Entity.BeaconEvent.{BeaconEvent, head, payload_attributes}
use mev_relay_rs.Gateway.Events.Text.{lines, split_lines, each_without_cr, without_cr, strip_prefix}
use mev_relay_rs.Gateway.Events.{BeaconError, EventCodec, parse_lines, parse_event, as_event}

-- A line as it stands in a text: not empty, without a newline, and not ending in a carriage return.
abbrev pub IsLine : Bytes → Type 0
IsLine l =
    (is_empty l ≡ false) × All (λ c. bytes_eq (c ∷ []) (10 ∷ []) ≡ false) l × (without_cr l ≡ l)

-- Lines with newlines between them.
pub join_lines : Bytes → List Bytes → Bytes
join_lines l [] = l
join_lines l (m ∷ ls) = l ++ 10 ∷ join_lines m ls

split_lines-one :
    (l : Bytes)
    → is_empty l ≡ false
    → All (λ c. bytes_eq (c ∷ []) (10 ∷ []) ≡ false) l
    → split_lines l ≡ l ∷ []
unfolding split_lines
split_lines-one [] h a = absurd (ground arith)
split_lines-one (c ∷ []) h a = rw a.0 refl
split_lines-one (c ∷ d ∷ l) h a = rw (a.0, split_lines-one (d ∷ l) refl a.1) refl

split_lines-more :
    (l rest : Bytes)
    → All (λ c. bytes_eq (c ∷ []) (10 ∷ []) ≡ false) l
    → split_lines (l ++ 10 ∷ rest) ≡ l ∷ split_lines rest
unfolding split_lines
split_lines-more [] rest a = refl
split_lines-more (c ∷ l) rest a = rw (a.0, split_lines-more l rest a.1) refl

lines-join_lines :
    (l : Bytes) (ls : List Bytes) → IsLine l → All IsLine ls → lines (join_lines l ls) ≡ l ∷ ls
unfolding lines join_lines each_without_cr
lines-join_lines l [] (full, inner, kept) hs = rw (split_lines-one l full inner, kept) refl
lines-join_lines l (m ∷ ls) (full, inner, kept) (h, hs) =
    rw (split_lines-more l (join_lines m ls) inner, kept, lines-join_lines m ls h hs) refl

module _ (k : EventCodec) where
  -- Data that comes on several lines is joined with spaces.
  pub with_spaces : Bytes → List Bytes → Bytes
  with_spaces d [] = d
  with_spaces d (e ∷ ds) = with_spaces ((d ++ 32 ∷ []) ++ e) ds

  abbrev pub data_line : Bytes → Bytes
  data_line d = codes "data: " ++ d

  -- The text of an event of a type, with its data on one line or more.
  abbrev pub event_text : Bytes → Bytes → List Bytes → Bytes
  event_text type_name d ds = join_lines (codes "event: " ++ type_name) (map data_line (d ∷ ds))

  is_empty-append : (x y : Bytes) → is_empty x ≡ false → is_empty (x ++ y) ≡ false
  is_empty-append [] y h = absurd (ground arith)
  is_empty-append (c ∷ x) y h = refl

  parse_lines-data :
      (ds : List Bytes) (found : Option Bytes) (d : Bytes)
      → is_empty d ≡ false
      → All (λ x. k.trim x ≡ x) ds
      → parse_lines k (map data_line ds) found d ≡ (found, with_spaces d ds)
  unfolding parse_lines with_spaces strip_prefix
  parse_lines-data [] found d h t = refl
  parse_lines-data (e ∷ ds) found d h t =
      rw (h, t.0)
        (parse_lines-data ds found ((d ++ 32 ∷ []) ++ e)
          (is_empty-append (d ++ 32 ∷ []) e (is_empty-append d (32 ∷ []) h)) t.1)

  parse_lines-event :
      (type_name d : Bytes) (ds : List Bytes)
      → k.trim type_name ≡ type_name
      → is_empty d ≡ false
      → All (λ x. k.trim x ≡ x) (d ∷ ds)
      → parse_lines k ((codes "event: " ++ type_name) ∷ map data_line (d ∷ ds)) none []
        ≡ (some type_name, with_spaces d ds)
  unfolding parse_lines strip_prefix
  parse_lines-event type_name d ds n h t =
      rw (n, t.0) (parse_lines-data ds (some type_name) d h t.1)

  with_spaces-full :
      (ds : List Bytes) (d : Bytes) → is_empty d ≡ false → is_empty (with_spaces d ds) ≡ false
  unfolding with_spaces
  with_spaces-full [] d h = h
  with_spaces-full (e ∷ ds) d h =
      with_spaces-full ds ((d ++ 32 ∷ []) ++ e)
        (is_empty-append (d ++ 32 ∷ []) e (is_empty-append d (32 ∷ []) h))

  -- What an event's type makes of its data.
  abbrev pub read_as : Bytes → Bytes → Option (Result BeaconError BeaconEvent)
  read_as type_name d =
      if bytes_eq type_name (codes "head")
      then some (as_event k (k.head_event d) head)
      else if bytes_eq type_name (codes "payload_attributes")
      then some (as_event k (k.payload_attributes_event d) payload_attributes)
      else none

  -- The text of an event that is valid UTF-8, with its type on a line and its data on one line or
  -- more, which trimming leaves as they are, is parsed to the event of that type that is read from the
  -- data, the lines joined with spaces, or to the error of that reading; a text with another type
  -- than the two that the relay knows is no event.
  pub parse_event-event_text :
      (type_name d : Bytes) (ds : List Bytes)
      → k.from_utf8 (event_text type_name d ds) ≡ some (event_text type_name d ds)
      → All IsLine ((codes "event: " ++ type_name) ∷ map data_line (d ∷ ds))
      → All (λ x. k.trim x ≡ x) (type_name ∷ d ∷ ds)
      → is_empty d ≡ false
      → parse_event k (event_text type_name d ds) ≡ read_as type_name (with_spaces d ds)
  unfolding parse_event
  parse_event-event_text type_name d ds u (l, ls) (n, t) h =
      let parsed : parse_lines k (lines (event_text type_name d ds)) none []
          ≡ (some type_name, with_spaces d ds) =
        ap (λ z. parse_lines k z none [])
          (lines-join_lines (codes "event: " ++ type_name) (map data_line (d ∷ ds)) l ls)
        ∙ parse_lines-event type_name d ds n h t in
      rw (parse_event, u, ap (λ z. z.0) parsed, ap (λ z. z.1) parsed, with_spaces-full ds d h) refl
