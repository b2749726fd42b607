-- ===== src/Documents/Chunks.antt =====
-- packages/domain/document_processor.py: the chunks of a text against its overlapping windows.
use operational_intelligence.Prelude.{
  ℕ, zero, suc, ◌+◌, ◌-◌, ◌≤◌, ◌<◌, ◌≡◌, refl, ap, ◌∙◌, Bool, not, some, List, [], ◌∷◌, ◌++◌, map,
  take, drop, length, length-drop, filter_by, Bool-cases, inl, inr, arith,
}
use operational_intelligence.Documents.{Text, Chunk, chunk_of, chunk_loop, split_into_chunks}

-- The pieces of `size` characters that start every `step` characters, up to the end of the text.
unfoldable pub windows : (fuel size step : ℕ) → Text → List Text
windows fuel size step [] = []
windows zero size step (c ∷ text) = []
windows (suc fuel) size step (c ∷ text) =
    take size (c ∷ text) ∷ windows fuel size step (drop step (c ∷ text))

abbrev pub concat : List Text → Text
concat [] = []
concat (s ∷ rest) = s ++ concat rest

-- Texts with their places from `i` on, as chunks.
abbrev pub numbered : ℕ → List Text → List Chunk
numbered i [] = []
numbered i (s ∷ rest) = chunk_of i s ∷ numbered (i + 1) rest

take-drop : (n : ℕ) (text : Text) → take n text ++ drop n text ≡ text
take-drop zero text = refl
take-drop (suc n) [] = refl
take-drop (suc n) (c ∷ text) = ap (λ s. c ∷ s) (take-drop n text)

take-take : (n m : ℕ) (text : Text) → n ≤ m → take n (take m text) ≡ take n text
take-take zero m text h = refl
take-take (suc n) zero text h = elim (no_room h) [ ]
  where
    no_room : suc n ≤ 0 → ⊥
    no_room k = omega (arith, k)
take-take (suc n) (suc m) [] h = refl
take-take (suc n) (suc m) (c ∷ text) h = ap (λ s. c ∷ s) (take-take n m text (omega (arith, h)))

not_empty : (n : ℕ) → suc n ≤ 0 → ⊥
not_empty n h = omega (arith, h)

shorter :
    (step fuel : ℕ) (c : ℕ) (text : Text)
    → 0 < step
    → suc (length text) ≤ suc fuel
    → length (drop step (c ∷ text)) ≤ fuel
shorter step fuel c text pos enough = omega (arith, length-drop step (c ∷ text), pos, enough)

-- The first `step` characters of the windows, one after the other, are the text.
concat-windows :
    (fuel size step : ℕ) (text : Text)
    → 0 < step
    → step ≤ size
    → length text ≤ fuel
    → concat (map (take step) (windows fuel size step text)) ≡ text
unfolding windows
concat-windows fuel size step [] pos small enough = refl
concat-windows zero size step (c ∷ text) pos small enough =
    elim (not_empty (length text) enough) [ ]
concat-windows (suc fuel) size step (c ∷ text) pos small enough =
    let later = drop step (c ∷ text) in
    let rest =
      concat-windows fuel size step later pos small (shorter step fuel c text pos enough) in
    ap (λ s. s ++ concat (map (take step) (windows fuel size step later)))
      (take-take step size (c ∷ text) small)
    ∙ ap (λ s. take step (c ∷ text) ++ s) rest
    ∙ take-drop step (c ∷ text)

module _ (is_blank : Text → Bool) (chunk_size overlap : ℕ) where
  chunk_loop-windows :
      (fuel i : ℕ) (text : Text)
      → overlap < chunk_size
      → length text ≤ fuel
      → chunk_loop is_blank chunk_size overlap fuel i text
        ≡ some (
            numbered i (
              filter_by
                (λ s. not (is_blank s))
                (windows fuel chunk_size (chunk_size - overlap) text)))
  unfolding chunk_loop windows
  chunk_loop-windows fuel i [] small enough = refl
  chunk_loop-windows zero i (c ∷ text) small enough = elim (not_empty (length text) enough) [ ]
  chunk_loop-windows (suc fuel) i (c ∷ text) small enough =
      let step = chunk_size - overlap in
      let later = drop step (c ∷ text) in
      let fits = shorter step fuel c text (omega (arith, small)) enough in
      elim (Bool-cases (is_blank (take chunk_size (c ∷ text)))) [
        | inl blank ↦ rw (blank, chunk_loop-windows fuel i later small fits) refl
        | inr full ↦ rw (full, chunk_loop-windows fuel (i + 1) later small fits) refl
      ]

  -- Where chunks overlap by less than their size, the loop ends on every text. Its chunks are the
  -- windows of the text that are not blank, numbered in their order, and the parts of the windows
  -- before the next one starts give the whole text.
  pub split_into_chunks-windows :
      (text : Text)
      → overlap < chunk_size
      → let parts = windows (length text) chunk_size (chunk_size - overlap) text in
        (split_into_chunks is_blank chunk_size overlap text
          ≡ some (numbered 0 (filter_by (λ s. not (is_blank s)) parts)))
        × (concat (map (take (chunk_size - overlap)) parts) ≡ text)
  unfolding split_into_chunks
  split_into_chunks-windows text small = (
    chunk_loop-windows (length text) 0 text small (omega arith),
    concat-windows (length text) chunk_size (chunk_size - overlap) text (omega (arith, small))
        (omega arith) (omega arith),
  )
