-- ===== src/Prompts/Scores.antt =====
-- packages/ai/prompt_registry.py, `evaluate_prompt`: every example scores 1.0.
use operational_intelligence.Prelude.{
  ℕ, ◌*◌, ◌≤◌, ◌≡◌, refl, ◌∙◌, String, Bool, true, false, List, [], ◌∷◌, ◌==◌, str_eq, le→leb,
  filter_by, any_of, length, Bool-cases, inl, inr, arith, All,
}
use operational_intelligence.Prelude.Dict.{Dict, insert}
use operational_intelligence.Prompts.{
  PromptEvaluation, score_all, total, reaches_threshold, score_result, evaluate_prompt,
}

insert-full :
    (key : String) (scores : Dict ℕ)
    → All (λ (e : String × ℕ). e.1 ≡ 100) scores
    → All (λ (e : String × ℕ). e.1 ≡ 100) (insert key 100 scores)
unfolding insert
insert-full key [] h = (refl, tt)
insert-full key ((k, v) ∷ scores) h = elim (Bool-cases (str_eq k key)) [
  | inl e ↦ rw e (refl, h.1)
  | inr e ↦ rw e (h.0, insert-full key scores h.1)
]

length-insert :
    (key : String) (scores : Dict ℕ)
    → (1 ≤ length (insert key 100 scores)) × (length scores ≤ length (insert key 100 scores))
unfolding insert
length-insert key [] = (omega arith, omega arith)
length-insert key ((k, v) ∷ scores) =
    let (low, rest) = length-insert key scores in ground (arith, low, rest)

module _ (score_key : PromptEvaluation → String) where
  All-full :
      (evaluations : List PromptEvaluation) (scores : Dict ℕ)
      → All (λ (e : String × ℕ). e.1 ≡ 100) scores
      → All (λ (e : String × ℕ). e.1 ≡ 100) (score_all score_key evaluations scores)
  unfolding score_all
  All-full [] scores h = h
  All-full (ev ∷ evaluations) scores h =
      All-full evaluations (insert (score_key ev) 100 scores) (insert-full (score_key ev) scores h)

  length-score_all :
      (evaluations : List PromptEvaluation) (scores : Dict ℕ)
      → length scores ≤ length (score_all score_key evaluations scores)
  unfolding score_all
  length-score_all [] scores = omega arith
  length-score_all (ev ∷ evaluations) scores =
      let rest = length-score_all evaluations (insert (score_key ev) 100 scores) in
      omega (arith, rest, (length-insert (score_key ev) scores).1)

total-full :
    (scores : Dict ℕ)
    → All (λ (e : String × ℕ). e.1 ≡ 100) scores
    → total scores ≡ 100 * length scores
total-full [] h = refl
total-full ((k, v) ∷ scores) h = omega (arith, h.0, total-full scores h.1)

reaches-full :
    (scores : Dict ℕ)
    → 1 ≤ length scores
    → total scores ≡ 100 * length scores
    → reaches_threshold scores ≡ true
reaches-full [] low full = elim (not_one low) [ ]
  where
    not_one : 1 ≤ 0 → ⊥
    not_one h = omega (arith, h)
reaches-full (s ∷ scores) low full = le→leb _ _ (omega (arith, full))

abbrev some_left : List PromptEvaluation → Bool
some_left [] = false
some_left (x ∷ xs) = true

filter-any :
    (p : PromptEvaluation → Bool) (xs : List PromptEvaluation)
    → some_left (filter_by p xs) ≡ any_of p xs
filter-any p [] = refl
filter-any p (x ∷ xs) = elim (Bool-cases (p x)) [
  | inl e ↦ rw e refl
  | inr e ↦ rw e (filter-any p xs)
]

module _ (score_key : PromptEvaluation → String) (show_average : Dict ℕ → String) where
  result-passed :
      (evaluations : List PromptEvaluation)
      → (score_result score_key show_average evaluations).passed ≡ some_left evaluations
  unfolding score_all
  result-passed [] = refl
  result-passed (ev ∷ evaluations) =
      let first = insert (score_key ev) 100 [] in
      let scores = score_all score_key evaluations first in
      reaches-full scores
        (omega (
          arith,
          length-score_all score_key evaluations first,
          (length-insert (score_key ev) []).0,
        ))
        (total-full scores
          (All-full score_key evaluations first (insert-full (score_key ev) [] tt)))

  -- An evaluation passes exactly when the prompt has an example at all, whatever the examples
  -- expect.
  pub evaluate_prompt-passed :
      (id : ℕ) (evaluations : List PromptEvaluation)
      → (evaluate_prompt score_key show_average id evaluations).passed
        ≡ any_of (λ ev. ev.prompt_template_id == id) evaluations
  unfolding evaluate_prompt
  evaluate_prompt-passed id evaluations =
      result-passed (filter_by (λ ev. ev.prompt_template_id == id) evaluations)
      ∙ filter-any (λ ev. ev.prompt_template_id == id) evaluations
