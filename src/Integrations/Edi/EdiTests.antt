-- ===== src/Integrations/Edi/EdiTests.antt =====
-- A load tender with two stops.
use operational_intelligence.Prelude.{
  ℕ, ◌≡◌, refl, String, Bool, false, ◌==◌, Option, none, [], ◌∷◌, length, codes, any_of, All, arith,
}
use operational_intelligence.Integrations.Edi.{
  Text, Segment, EdiEvent, split_segments, find_segments, safe_get, parse_204,
}
use operational_intelligence.Integrations.Edi.Segments.{
  IsWritable, is_break, write_segments, split_segments-write,
}
use operational_intelligence.Integrations.Edi.Events.{parse_204-write}

All-false : (p : ℕ → Bool) (s : Text) → any_of p s ≡ false → All (λ c. p c ≡ false) s
All-false p [] h = tt
All-false p (c ∷ s) h = (ground (arith, h), All-false p s (ground (arith, h)))

abbrev is_star : ℕ → Bool
is_star c = c == 42

abbrev is_tilde : ℕ → Bool
is_tilde c = c == 126

abbrev is_blank : ℕ → Bool
is_blank c = c == 32

abbrev tender : Segment
tender = codes "B2" ∷ [] ∷ codes "ABCD" ∷ [] ∷ codes "L7" ∷ []

abbrev stop : Segment
stop = codes "S5" ∷ codes "1" ∷ codes "CL" ∷ []

abbrev status : Segment
status = codes "AT7" ∷ codes "X3" ∷ []

tender-IsWritable : IsWritable is_blank tender
tender-IsWritable = (
  (
    All-false is_star (codes "B2") refl,
    (tt, (All-false is_star (codes "ABCD") refl, (tt, (All-false is_star (codes "L7") refl, tt)))),
  ),
  All-false is_tilde (codes "B2**ABCD**L7") refl,
  All-false is_break (codes "B2**ABCD**L7") refl,
  refl,
  λ e. cc e,
)

stop-IsWritable : IsWritable is_blank stop
stop-IsWritable = (
  (
    All-false is_star (codes "S5") refl,
    (All-false is_star (codes "1") refl, (All-false is_star (codes "CL") refl, tt)),
  ),
  All-false is_tilde (codes "S5*1*CL") refl,
  All-false is_break (codes "S5*1*CL") refl,
  refl,
  λ e. cc e,
)

status-IsWritable : IsWritable is_blank status
status-IsWritable = (
  (All-false is_star (codes "AT7") refl, (All-false is_star (codes "X3") refl, tt)),
  All-false is_tilde (codes "AT7*X3") refl,
  All-false is_break (codes "AT7*X3") refl,
  refl,
  λ e. cc e,
)

split_segments-write_example :
    split_segments is_blank (codes "B2**ABCD**L7~S5*1*CL~") ≡ tender ∷ stop ∷ []
unfolding write_segments
split_segments-write_example =
    split_segments-write is_blank (tender ∷ stop ∷ []) (tender-IsWritable, (stop-IsWritable, tt))

abbrev no_time : Text → String → Option Text
no_time s format = none

parse_204-write_example :
    (length (parse_204 is_blank no_time (codes "B2**ABCD**L7~S5*1*CL~S5*1*CL~")) ≡ 2)
    × All
        (λ (e : EdiEvent). e.entity_id ≡ codes "L7")
        (parse_204 is_blank no_time (codes "B2**ABCD**L7~S5*1*CL~S5*1*CL~"))
unfolding write_segments find_segments safe_get
parse_204-write_example =
    parse_204-write is_blank no_time (tender ∷ stop ∷ stop ∷ [])
      (tender-IsWritable, (stop-IsWritable, (stop-IsWritable, tt))) (λ e. cc e)
