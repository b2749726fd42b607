-- ===== src/Integrations/Edi/Segments.antt =====
-- packages/integrations/edi_parser.py, `_split_segments`, against a writer of documents.
use operational_intelligence.Prelude.{
  ℕ, ◌≡◌, refl, ap, ◌∙◌, Bool, true, false, ◌||◌, not, List, [], ◌∷◌, ◌++◌, ◌==◌, filter_by, All,
  All-append, arith, ◌≢◌,
}
use operational_intelligence.Integrations.Edi.{
  Text, Segment, split_rest, split_on, strip, keep_segment, keep_segments, split_segments,
}

-- "*".join(elements)
abbrev pub join_elements : Segment → Text
join_elements [] = []
join_elements (e ∷ []) = e
join_elements (e ∷ f ∷ es) = e ++ 42 ∷ join_elements (f ∷ es)

-- The document of segments, each ended by "~".
unfoldable pub write_segments : List Segment → Text
write_segments [] = []
write_segments (s ∷ segments) = join_elements s ++ 126 ∷ write_segments segments

abbrev pub Lacks : ℕ → Text → Type 0
Lacks c s = All (λ d. (d == c) ≡ false) s

-- A part up to the separator.
split_rest-append : (c : ℕ) (s t : Text) → Lacks c s → split_rest c (s ++ c ∷ t) ≡ (s, split_on c t)
split_rest-append c [] t h = let self : (c == c) ≡ true = ground arith in rw self refl
split_rest-append c (d ∷ s) t h = rw (h.0, split_rest-append c s t h.1) refl

split_rest-Lacks : (c : ℕ) (s : Text) → Lacks c s → split_rest c s ≡ (s, [])
split_rest-Lacks c [] h = refl
split_rest-Lacks c (d ∷ s) h = rw (h.0, split_rest-Lacks c s h.1) refl

split_on-join :
    (e : Text) (es : Segment)
    → All (Lacks 42) (e ∷ es)
    → split_on 42 (join_elements (e ∷ es)) ≡ e ∷ es
split_on-join e [] h = rw (split_rest-Lacks 42 e h.0) refl
split_on-join e (f ∷ es) h =
    rw (split_rest-append 42 e (join_elements (f ∷ es)) h.0)
      (ap (λ r. e ∷ r) (split_on-join f es h.1))

-- "\n" or "\r"
abbrev pub is_break : ℕ → Bool
is_break c = (c == 10) || (c == 13)

filter-unbroken :
    (s : Text) → All (λ c. is_break c ≡ false) s → filter_by (λ c. not (is_break c)) s ≡ s
filter-unbroken [] h = refl
filter-unbroken (c ∷ s) h = rw (h.0, filter-unbroken s h.1) refl

module _ (is_space : ℕ → Bool) where
  -- A segment that a document can hold: no separator in an element, no line break, a text that is
  -- not empty and has no space at either end.
  abbrev pub IsWritable : Segment → Type 0
  IsWritable s =
      All (Lacks 42) s
      × (Lacks 126 (join_elements s))
      × (All (λ c. is_break c ≡ false) (join_elements s))
      × (strip is_space (join_elements s) ≡ join_elements s)
      × (join_elements s ≢ [])

  keep-full :
      (s : Text) (rest : List Segment)
      → s ≢ []
      → keep_segment is_space s rest ≡ split_on 42 s ∷ rest
  keep-full [] rest full = elim (full refl) [ ]
  keep-full (c ∷ s) rest full = refl

  keep-join :
      (s : Segment) (rest : List Segment)
      → All (Lacks 42) s
      → join_elements s ≢ []
      → keep_segment is_space (join_elements s) rest ≡ s ∷ rest
  keep-join [] rest h full = elim (full refl) [ ]
  keep-join (e ∷ es) rest h full =
      keep-full (join_elements (e ∷ es)) rest full ∙ ap (λ x. x ∷ rest) (split_on-join e es h)

  write-unbroken :
      (segments : List Segment)
      → All IsWritable segments
      → All (λ c. is_break c ≡ false) (write_segments segments)
  unfolding write_segments
  write-unbroken [] h = tt
  write-unbroken (s ∷ segments) h =
      All-append (λ c. is_break c ≡ false) (join_elements s) (126 ∷ write_segments segments) h.0.2
        (refl, write-unbroken segments h.1)

  keep-write :
      (segments : List Segment)
      → All IsWritable segments
      → keep_segments is_space (split_on 126 (write_segments segments)) ≡ segments
  unfolding write_segments
  keep-write [] h = refl
  keep-write (s ∷ segments) h =
      let (parts, one_line, unbroken, trimmed, full) = h.0 in
      let tail = write_segments segments in
      let cut = split_rest-append 126 (join_elements s) tail one_line in
      ap (λ r. keep_segments is_space (r.0 ∷ r.1)) cut
      ∙ ap (λ x. keep_segment is_space x (keep_segments is_space (split_on 126 tail))) trimmed
      ∙ ap (λ r. keep_segment is_space (join_elements s) r) (keep-write segments h.1)
      ∙ keep-join s segments parts full

  -- Reading a document that was written from segments gives these segments, where no element has a
  -- separator or a line break and no segment is empty or has spaces at its ends.
  pub split_segments-write :
      (segments : List Segment)
      → All IsWritable segments
      → split_segments is_space (write_segments segments) ≡ segments
  unfolding split_segments
  split_segments-write segments h =
      rw (filter-unbroken (write_segments segments) (write-unbroken segments h))
        (keep-write segments h)
