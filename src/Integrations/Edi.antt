-- ===== src/Integrations/Edi.antt =====
-- packages/integrations/edi_parser.py. Documents are lists of code points; which characters
-- str.strip() takes away is `is_space`, and datetime.strptime with isoformat() is `strptime`.
pub mod Segments
pub mod Events
pub mod EdiTests
use operational_intelligence.Prelude.{
  ℕ, zero, suc, ◌+◌, String, Bool, true, false, ◌&&◌, ◌||◌, not, Option, some, none, List, [], ◌∷◌,
  ◌++◌, ◌==◌, map, codes, codes_eq, filter_by, reversed, get_elem?, if◌then◌else◌,
}
use operational_intelligence.Prelude.Dict.{Dict}

abbrev pub Text : Type 0
Text = List ℕ

abbrev pub Segment : Type 0
Segment = List Text

-- s.split(c) for one character
abbrev pub split_rest : ℕ → Text → Text × List Text
split_rest c [] = ([], [])
split_rest c (d ∷ s) =
    let (first, rest) = split_rest c s in if d == c then ([], first ∷ rest) else (d ∷ first, rest)

abbrev pub split_on : ℕ → Text → List Text
split_on c s = let (first, rest) = split_rest c s in first ∷ rest

module _ (is_space : ℕ → Bool) where
  abbrev pub lstrip : Text → Text
  lstrip [] = []
  lstrip (c ∷ s) = let rest = lstrip s in if is_space c then rest else c ∷ s

  abbrev pub strip : Text → Text
  strip s = reversed (lstrip (reversed (lstrip s)))

  -- if seg: segments.append(seg.split("*"))
  abbrev pub keep_segment : Text → List Segment → List Segment
  keep_segment [] rest = rest
  keep_segment (c ∷ seg) rest = split_on 42 (c ∷ seg) ∷ rest

  abbrev pub keep_segments : List Text → List Segment
  keep_segments [] = []
  keep_segments (raw ∷ raws) = keep_segment (strip raw) (keep_segments raws)

  -- "\n" and "\r" are 10 and 13, "~" is 126 and "*" is 42.
  unfoldable pub split_segments : Text → List Segment
  split_segments content =
      keep_segments (split_on 126 (filter_by (λ c. not ((c == 10) || (c == 13))) content))

-- s and s[0] == segment_id
abbrev pub has_id : String → Segment → Bool
has_id segment_id [] = false
has_id segment_id (id ∷ elements) = codes_eq id (codes segment_id)

unfoldable pub find_segments : List Segment → String → List Segment
find_segments segments segment_id = filter_by (has_id segment_id) segments

unfoldable pub safe_get : Segment → ℕ → Text
safe_get segment index = elim (get_elem? segment index) [ none ↦ [] | some s ↦ s ]

-- _safe_get(segs[0], index) if segs else ""
abbrev pub first_get : List Segment → ℕ → Text
first_get [] index = []
first_get (s ∷ segs) index = safe_get s index

-- A value of an event's payload.
pub data Item : Type 0 where
  text : Text → Item
  flag : Bool → Item
  null : Item

-- An event's dict, with the keys beside `source_system`, which is "edi".
pub record EdiEvent : Type 0 where
  pub event_type : String
  pub entity_type : String
  pub entity_id : Text
  pub payload : Dict Item
  pub occurred_at : Option Text

-- x or y
abbrev pub or_else : Text → Text → Text
or_else [] other = other
or_else (c ∷ s) other = c ∷ s

-- The one event of a document that gave no other.
abbrev pub or_single : List EdiEvent → EdiEvent → List EdiEvent
or_single [] event = event ∷ []
or_single (e ∷ events) event = e ∷ events

abbrev pub shipment : (event_type : String) (entity_id : Text) → Dict Item → Option Text → EdiEvent
shipment event_type entity_id payload occurred_at = record {
  event_type = event_type;
  entity_type = "shipment";
  entity_id = entity_id;
  payload = payload;
  occurred_at = occurred_at;
}

-- An event of a stop of a load tender.
abbrev pub stop_event : (reference scac : Text) → Segment → EdiEvent
stop_event reference scac s5 =
    shipment "order_created" (or_else reference (codes "204-" ++ safe_get s5 1))
      (("edi_type", text (codes "204"))
        ∷ ("scac", text scac)
        ∷ ("reference", text reference)
        ∷ ("stop_number", text (safe_get s5 1))
        ∷ ("stop_reason", text (safe_get s5 2))
        ∷ ("weight", text (safe_get s5 3))
        ∷ ("weight_unit", text (safe_get s5 4))
        ∷ [])
      none

-- occurred_at of a status: `none` where the date is missing or no date
abbrev pub status_time :
    (strptime : Text → (format : String) → Option Text) → (date time : Text) → Option Text
status_time strptime [] time = none
status_time strptime (d ∷ date) [] = strptime (d ∷ date) "%Y%m%d"
status_time strptime (d ∷ date) (t ∷ time) = strptime ((d ∷ date) ++ t ∷ time) "%Y%m%d%H%M"

-- An event of a shipment status. `if occurred_at` holds for every time, as its text is not empty.
abbrev pub status_event :
    (strptime : Text → (format : String) → Option Text)
    → (shipment_id scac : Text) → Segment
    → EdiEvent
status_event strptime shipment_id scac at7 =
    shipment "shipment_dispatched" (or_else shipment_id (codes "unknown"))
      (("edi_type", text (codes "214"))
        ∷ ("scac", text scac)
        ∷ ("status_code", text (safe_get at7 1))
        ∷ ("reason_code", text (safe_get at7 2))
        ∷ [])
      (status_time strptime (safe_get at7 5) (safe_get at7 6))

-- response_code.upper() == "A" if response_code else None
abbrev pub acceptance : Text → Item
acceptance [] = null
acceptance (c ∷ []) = flag ((c == 65) || (c == 97))
acceptance (c ∷ d ∷ s) = flag false

module _ (is_space : ℕ → Bool) (strptime : Text → (format : String) → Option Text) where
  unfoldable pub parse_204 : Text → List EdiEvent
  unfolding split_segments find_segments safe_get
  parse_204 content =
      let segments = split_segments is_space content in
      let b2_segs = find_segments segments "B2" in
      let reference = first_get b2_segs 4 in
      let scac = first_get b2_segs 2 in
      or_single (map (stop_event reference scac) (find_segments segments "S5")) (
        shipment "order_created" (or_else reference (codes "unknown"))
          (("edi_type", text (codes "204"))
            ∷ ("scac", text scac)
            ∷ ("reference", text reference)
            ∷ [])
          none)

  unfoldable pub parse_214 : Text → List EdiEvent
  unfolding split_segments find_segments safe_get
  parse_214 content =
      let segments = split_segments is_space content in
      let b10_segs = find_segments segments "B10" in
      let shipment_id = first_get b10_segs 1 in
      let scac = first_get b10_segs 3 in
      or_single (map (status_event strptime shipment_id scac) (find_segments segments "AT7")) (
        shipment "shipment_dispatched" (or_else shipment_id (codes "unknown"))
          (("edi_type", text (codes "214")) ∷ ("scac", text scac) ∷ []) none)

  unfoldable pub parse_990 : Text → List EdiEvent
  unfolding split_segments find_segments safe_get
  parse_990 content =
      let b1_segs = find_segments (split_segments is_space content) "B1" in
      let scac = first_get b1_segs 1 in
      let reference = first_get b1_segs 2 in
      let response_code = first_get b1_segs 4 in
      shipment "order_updated" (or_else reference (codes "unknown"))
        (("edi_type", text (codes "990"))
          ∷ ("scac", text scac)
          ∷ ("reference", text reference)
          ∷ ("response_code", text response_code)
          ∷ ("accepted", acceptance response_code)
          ∷ [])
        none
      ∷ []
