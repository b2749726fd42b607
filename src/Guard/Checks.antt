-- ===== src/Guard/Checks.antt =====
-- packages/ai/policy_guard.py: the score and the verdict of both guards, from the violations.
use operational_intelligence.Prelude.{
  ℕ, suc, ◌+◌, ◌*◌, ◌≡◌, ◌<◌, refl, ap, ◌∙◌, String, Bool, true, false, not, some, none, List, [],
  ◌∷◌, ◌++◌, ◌==◌, length, length-append, length-map, filter_by, str_in, Bool-cases, Option-cases,
  inl, inr, arith, if◌then◌else◌, sym, subst,
}
use operational_intelligence.Guard.{
  Text, Violation, Pattern, injection_patterns, pii_patterns, Context, Classification, cap,
  Findings, no_findings, add_violation, add_violations, result_of, model_permitted, check_model,
  check_tools, check_allowed_tools, is_secret, check_documents, check_patterns, check_input,
  check_policy_keywords, check_unsupported_claims, check_output, tool_denied, document_violation,
}

-- The score of findings is the sum of the weights, capped, and there are none where it is 0.
abbrev Weighs : ℕ → Findings → Type 0
Weighs total f = (f.risk ≡ cap total) × ((length f.found == 0) ≡ (total == 0))

add_violation-Weighs :
    (weight total : ℕ) (v : Violation) (f : Findings)
    → 0 < weight
    → Weighs total f
    → Weighs (total + weight) (add_violation weight v f)
add_violation-Weighs weight total v f pos h =
    (rw h.0 (ground arith), ground (arith, pos, length-append f.found (v ∷ [])))

cap_add : (n m : ℕ) → cap (cap n + m) ≡ cap (n + m)
cap_add n m = ground arith

some_found :
    (xs : List Violation) (v : Violation) (vs : List Violation)
    → (length (xs ++ v ∷ vs) == 0) ≡ false
some_found [] v vs = ground arith
some_found (x ∷ xs) v vs = ground arith

moved : (m n : ℕ) (f : Findings) → m ≡ n → Weighs m f → Weighs n f
moved m n f same h = subst (λ k. Weighs k f) same h

not_zero : (n w k : ℕ) → 0 < w → (n + w * suc k == 0) ≡ false
not_zero n w k pos = ground (arith, pos)

add_violations-Weighs :
    (weight total : ℕ) (vs : List Violation) (f : Findings)
    → 0 < weight
    → Weighs total f
    → Weighs (total + weight * length vs) (add_violations weight vs f)
add_violations-Weighs weight total [] f pos h = moved total (total + weight * 0) f (omega arith) h
add_violations-Weighs weight total (v ∷ vs) f pos h = (
  rw h.0 (cap_add total (weight * suc (length vs))),
  some_found f.found v vs ∙ sym (not_zero total weight (length vs) pos),
)

abbrev one_if : Bool → ℕ
one_if b = if b then 1 else 0

filter_cons {ℓ} :
    {A : Type ℓ} (p : A → Bool) (x : A) (xs : List A)
    → length (filter_by p (x ∷ xs)) ≡ one_if (p x) + length (filter_by p xs)
filter_cons p x xs = elim (Bool-cases (p x)) [
  | inl e ↦ rw e (omega arith)
  | inr e ↦ rw e (omega arith)
]

-- One round of a loop that adds a violation where its test says so.
round-Weighs :
    (weight total : ℕ) (b : Bool) (v : Violation) (f : Findings)
    → 0 < weight
    → Weighs total f
    → Weighs (total + weight * one_if b) (if b then add_violation weight v f else f)
round-Weighs weight total true v f pos h =
    moved (total + weight) (total + weight * 1) (add_violation weight v f) (omega arith)
      (add_violation-Weighs weight total v f pos h)
round-Weighs weight total false v f pos h = moved total (total + weight * 0) f (omega arith) h

check_tools-Weighs :
    (allowed tools : List String) (total : ℕ) (f : Findings)
    → Weighs total f
    → Weighs
        (total + 20 * length (filter_by (λ t. not (str_in t allowed)) tools))
        (check_tools allowed tools f)
check_tools-Weighs allowed [] total f h = moved total (total + 20 * 0) f (omega arith) h
check_tools-Weighs allowed (t ∷ tools) total f h =
    let denied = not (str_in t allowed) in
    moved (total + 20 * one_if denied + 20 * length (filter_by (λ t. not (str_in t allowed)) tools))
      _ (check_tools allowed (t ∷ tools) f)
      (omega (arith, filter_cons (λ t. not (str_in t allowed)) t tools))
      (check_tools-Weighs allowed tools (total + 20 * one_if denied)
        (if denied then add_violation 20 (tool_denied t) f else f)
        (round-Weighs 20 total denied (tool_denied t) f (omega arith) h))

check_documents-Weighs :
    (documents : List Classification) (total : ℕ) (f : Findings)
    → Weighs total f
    → Weighs (total + 50 * length (filter_by is_secret documents)) (check_documents documents f)
check_documents-Weighs [] total f h = moved total (total + 50 * 0) f (omega arith) h
check_documents-Weighs (c ∷ documents) total f h =
    moved (total + 50 * one_if (is_secret c) + 50 * length (filter_by is_secret documents)) _
      (check_documents (c ∷ documents) f) (omega (arith, filter_cons is_secret c documents))
      (check_documents-Weighs documents (total + 50 * one_if (is_secret c))
        (if is_secret c then add_violation 50 (document_violation c) f else f)
        (round-Weighs 50 total (is_secret c) (document_violation c) f (omega arith) h))

-- The tools that are requested and not allowed.
abbrev pub denied_tools : Context → List String
denied_tools ctx = elim ctx.tenant_allowed_tools [
  | none ↦ []
  | some allowed_tools ↦ filter_by (λ t. not (str_in t allowed_tools)) ctx.requested_tools
]

check_allowed_tools-Weighs :
    (ctx : Context) (total : ℕ) (f : Findings)
    → Weighs total f
    → Weighs (total + 20 * length (denied_tools ctx)) (check_allowed_tools ctx f)
check_allowed_tools-Weighs ctx total f h = elim (Option-cases ctx.tenant_allowed_tools) [
  | inl e ↦ rw e (moved total (total + 20 * 0) f (omega arith) h)
  | inr (allowed, e) ↦ rw e (check_tools-Weighs allowed ctx.requested_tools total f h)
]

check_model-Weighs :
    (ctx : Context) (total : ℕ) (f : Findings)
    → Weighs total f
    → Weighs
        (total + (if model_permitted ctx.requested_model ctx.tenant_allowed_models then 0 else 40))
        (check_model ctx f)
check_model-Weighs ctx total f h =
    elim (Bool-cases (model_permitted ctx.requested_model ctx.tenant_allowed_models)) [
      | inl e ↦ rw e (moved total (total + 0) f (omega arith) h)
      | inr e ↦ rw e (add_violation-Weighs 40 total _ f (omega arith) h)
    ]

no_findings-Weighs : Weighs 0 no_findings
no_findings-Weighs = (refl, refl)

cap_twice : (n : ℕ) → cap (cap n) ≡ cap n
cap_twice n = ground arith

result-Weighs :
    (total : ℕ) (f : Findings)
    → Weighs total f
    → ((result_of f).risk_score ≡ cap total) × ((result_of f).allowed ≡ (total == 0))
result-Weighs total f h = (ap cap h.0 ∙ cap_twice total, h.1)

module _ (search : String → Text → Bool) (lower : Text → Text) where
  -- What a query weighs: 30 for each pattern, 40 for a model that is not permitted, 20 for each tool
  -- and 50 for each secret document.
  abbrev pub input_weight : Text → Context → ℕ
  input_weight query ctx =
      30 * length (filter_by (λ (p : Pattern). search p.0 query) injection_patterns)
      + (if model_permitted ctx.requested_model ctx.tenant_allowed_models then 0 else 40)
      + 20 * length (denied_tools ctx)
      + 50 * length (filter_by is_secret ctx.document_classifications)

  -- The input guard's score is what the query weighs, capped at 100, and it lets the query pass
  -- exactly when no injection pattern is found in it, the model is permitted, every requested tool
  -- is allowed and no document is secret.
  pub check_input-weight :
      (query : Text) (ctx : Context)
      → ((check_input search lower query ctx).risk_score ≡ cap (input_weight query ctx))
        × ((check_input search lower query ctx).allowed ≡ (input_weight query ctx == 0))
  unfolding check_input
  check_input-weight query ctx =
      let hits = check_patterns search lower injection_patterns query in
      let f1 = add_violations 30 hits no_findings in
      let w1 = add_violations-Weighs 30 0 hits no_findings (omega arith) no_findings-Weighs in
      let w2 = check_model-Weighs ctx (0 + 30 * length hits) f1 w1 in
      let w3 = check_allowed_tools-Weighs ctx _ (check_model ctx f1) w2 in
      let w4 =
        check_documents-Weighs ctx.document_classifications _
          (check_allowed_tools ctx (check_model ctx f1)) w3 in
      result-Weighs (input_weight query ctx) _ (
        moved _ (input_weight query ctx) _
          (omega (
            arith,
            length-map (λ (p : Pattern). Violation.pattern_found p.1)
                (filter_by (λ (p : Pattern). search p.0 query) injection_patterns),
          ))
          w4)

  -- What a response weighs: 40 for each pattern of personal data, 30 for each prohibited phrase
  -- and 15 for each unsupported claim.
  abbrev pub output_weight : Text → ℕ
  output_weight response =
      40 * length (filter_by (λ (p : Pattern). search p.0 response) pii_patterns)
      + 30 * length (check_policy_keywords search lower response)
      + 15 * length (check_unsupported_claims search lower response)

  -- The output guard's score is what the response weighs, capped at 100, and it lets the response
  -- pass exactly when it has no personal data, no prohibited phrase and no unsupported claim.
  pub check_output-weight :
      (response : Text)
      → ((check_output search lower response).risk_score ≡ cap (output_weight response))
        × ((check_output search lower response).allowed ≡ (output_weight response == 0))
  unfolding check_output
  check_output-weight response =
      let hits = check_patterns search lower pii_patterns response in
      let phrases = check_policy_keywords search lower response in
      let claims = check_unsupported_claims search lower response in
      let f1 = add_violations 40 hits no_findings in
      let w1 = add_violations-Weighs 40 0 hits no_findings (omega arith) no_findings-Weighs in
      let w2 = add_violations-Weighs 30 _ phrases f1 (omega arith) w1 in
      let w3 = add_violations-Weighs 15 _ claims (add_violations 30 phrases f1) (omega arith) w2 in
      result-Weighs (output_weight response) _ (
        moved _ (output_weight response) _
          (omega (
            arith,
            length-map (λ (p : Pattern). Violation.pattern_found p.1)
                (filter_by (λ (p : Pattern). search p.0 response) pii_patterns),
          ))
          w3)
