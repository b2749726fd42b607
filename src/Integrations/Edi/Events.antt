-- ===== src/Integrations/Edi/Events.antt =====
-- packages/integrations/edi_parser.py: the events of a load tender and of a status message.
use operational_intelligence.Prelude.{
  ℕ, zero, suc, ◌≡◌, ◌≢◌, refl, ap, ◌∙◌, Bool, List, [], ◌∷◌, map, length, length-map, All, String,
  Option,
}
use operational_intelligence.Integrations.Edi.{
  Text, Segment, EdiEvent, find_segments, first_get, or_single, or_else, stop_event, status_event,
  parse_204, parse_214,
}
use operational_intelligence.Integrations.Edi.Segments.{
  write_segments, IsWritable, split_segments-write,
}

-- max(n, 1)
abbrev pub at_least_one : ℕ → ℕ
at_least_one zero = 1
at_least_one (suc n) = suc n

length-or_single :
    (events : List EdiEvent) (e : EdiEvent)
    → length (or_single events e) ≡ at_least_one (length events)
length-or_single [] e = refl
length-or_single (x ∷ events) e = refl

names_all : (reference other : Text) → reference ≢ [] → or_else reference other ≡ reference
names_all [] other h = elim (h refl) [ ]
names_all (c ∷ s) other h = refl

stops-named :
    (reference scac : Text) (stops : List Segment)
    → reference ≢ []
    → All (λ (e : EdiEvent). e.entity_id ≡ reference) (map (stop_event reference scac) stops)
stops-named reference scac [] h = tt
stops-named reference scac (s ∷ stops) h =
    (names_all reference _ h, stops-named reference scac stops h)

single-named :
    (reference : Text) (events : List EdiEvent) (e : EdiEvent)
    → All (λ (x : EdiEvent). x.entity_id ≡ reference) events
    → e.entity_id ≡ reference
    → All (λ (x : EdiEvent). x.entity_id ≡ reference) (or_single events e)
single-named reference [] e h k = (k, tt)
single-named reference (x ∷ events) e h k = h

module _ (is_space : ℕ → Bool) (strptime : Text → (format : String) → Option Text) where
  -- A written load tender whose first B2 segment has a reference number gives an event for each S5
  -- segment, or one where it has none, and every event is about that reference number.
  pub parse_204-write :
      (segments : List Segment)
      → All (IsWritable is_space) segments
      → first_get (find_segments segments "B2") 4 ≢ []
      → (length (parse_204 is_space strptime (write_segments segments))
          ≡ at_least_one (length (find_segments segments "S5")))
        × All
            (λ (e : EdiEvent). e.entity_id ≡ first_get (find_segments segments "B2") 4)
            (parse_204 is_space strptime (write_segments segments))
  unfolding parse_204
  parse_204-write segments h named =
      let read = split_segments-write is_space segments h in
      let reference = first_get (find_segments segments "B2") 4 in
      let scac = first_get (find_segments segments "B2") 2 in
      let stops = find_segments segments "S5" in
      rw read (
        length-or_single (map (stop_event reference scac) stops) _
            ∙ ap at_least_one (length-map (stop_event reference scac) stops),
        single-named reference (map (stop_event reference scac) stops) _
            (stops-named reference scac stops named) (names_all reference _ named),
      )

  -- A written status message gives an event for each AT7 segment, or one where it has none.
  pub parse_214-write :
      (segments : List Segment)
      → All (IsWritable is_space) segments
      → length (parse_214 is_space strptime (write_segments segments))
        ≡ at_least_one (length (find_segments segments "AT7"))
  unfolding parse_214
  parse_214-write segments h =
      let read = split_segments-write is_space segments h in
      let id = first_get (find_segments segments "B10") 1 in
      let scac = first_get (find_segments segments "B10") 3 in
      let statuses = find_segments segments "AT7" in
      rw read (
        length-or_single (map (status_event strptime id scac) statuses) _
        ∙ ap at_least_one (length-map (status_event strptime id scac) statuses))
