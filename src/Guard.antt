-- ===== src/Guard.antt =====
-- packages/ai/policy_guard.py: the checks before and behind a model. Scores are hundredths, and a
-- float score is off by less than the rounding to two places takes away. Texts are lists of code
-- points; `search` is re.search with the flags of the source's pattern, and `lower` is str.lower().
pub mod Checks
pub mod GuardTests
use operational_intelligence.Prelude.{
  ℕ, zero, suc, ◌+◌, ◌*◌, String, Bool, true, false, ◌&&◌, ◌||◌, not, Option, some, none, List, [],
  ◌∷◌, ◌++◌, ◌==◌, leb, map, codes, length, filter_by, str_in, if◌then◌else◌,
}

abbrev pub Text : Type 0
Text = List ℕ

-- A message of a guard, by what it is about.
pub data Violation : Type 0 where
  pattern_found : (message : String) → Violation
  model_denied : (requested_model : String) → Violation
  tool_denied : (tool : String) → Violation
  sensitive_document : (document_id sensitivity : String) → Violation
  prohibited_phrase : (phrase : String) → Violation
  unsupported_claim : (marker : String) → Violation

pub record PolicyResult : Type 0 where
  pub allowed : Bool
  pub violations : List Violation
  pub risk_score : ℕ

-- A regular expression of the source, with its message.
abbrev pub Pattern : Type 0
Pattern = String × String

abbrev pub injection_patterns : List Pattern
injection_patterns =
    (
      "ignore\\s+(all\\s+)?previous\\s+instructions",
      "Prompt injection: 'ignore previous instructions' pattern detected.",
    )
    ∷ (
      "disregard\\s+(all\\s+)?(prior|previous|above)\\s+",
      "Prompt injection: 'disregard prior' pattern detected.",
    )
    ∷ (
      "(reveal|show|print|output)\\s+(your\\s+)?(system\\s+prompt|instructions)",
      "Prompt injection: attempt to extract system prompt.",
    )
    ∷ (
      "you\\s+are\\s+now\\s+(a|an|in)\\s+", "Prompt injection: role reassignment pattern detected.",
    )
    ∷ (
      "(act|behave|pretend)\\s+as\\s+(if\\s+)?(you\\s+)?(are|were)\\s+",
      "Prompt injection: persona override pattern detected.",
    )
    ∷ ("\\bDAN\\b.*\\bjailbreak\\b", "Prompt injection: DAN / jailbreak pattern detected.")
    ∷ (
      "forget\\s+(everything|all)\\s+(you|about)",
      "Prompt injection: memory wipe pattern detected.",
    )
    ∷ ("<\\s*/?\\s*system\\s*>", "Prompt injection: raw <system> tag detected.")
    ∷ []

abbrev pub pii_patterns : List Pattern
pii_patterns =
    ("\\b\\d{3}-\\d{2}-\\d{4}\\b", "PII: Social Security Number pattern detected.")
    ∷ ("\\b\\d{9}\\b", "PII: Possible SSN (9 consecutive digits) detected.")
    ∷ ("\\b(?:\\d[ -]*?){13,19}\\b", "PII: Credit card number pattern detected.")
    ∷ (
      "\\b[A-Za-z0-9._%+-]+@[A-Za-z0-9.-]+\\.[A-Z|a-z]{2,}\\b",
      "PII: Email address detected in generated output.",
    )
    ∷ (
      "\\b(?:\\+?1[-.\\s]?)?\\(?\\d{3}\\)?[-.\\s]?\\d{3}[-.\\s]?\\d{4}\\b",
      "PII: Phone number pattern detected.",
    )
    ∷ []

abbrev pub policy_violation_keywords : List String
policy_violation_keywords =
    "bypass security" ∷ "hack into" ∷ "exploit vulnerability" ∷ "unauthorized access" ∷ []

abbrev pub unsupported_claim_markers : List String
unsupported_claim_markers =
    "I guarantee" ∷ "this is guaranteed" ∷ "100% certain" ∷ "absolutely certain" ∷ "I promise"
    ∷ "legally binding" ∷ []

-- The keys of a document's classification.
pub record Classification : Type 0 where
  pub document_id : Option String
  pub sensitivity : Option String

-- The keys of the context that the input guard reads.
pub record Context : Type 0 where
  pub requested_model : Option String
  pub tenant_allowed_models : Option (List String)
  pub requested_tools : List String
  pub tenant_allowed_tools : Option (List String)
  pub document_classifications : List Classification

-- s.startswith(prefix), and `part in s`
abbrev pub starts_with : Text → Text → Bool
starts_with [] s = true
starts_with (c ∷ prefix) [] = false
starts_with (c ∷ prefix) (d ∷ s) = (c == d) && starts_with prefix s

abbrev pub contains : Text → Text → Bool
contains part [] = starts_with part []
contains part (c ∷ s) = starts_with part (c ∷ s) || contains part s

-- min(1.0, risk)
abbrev pub cap : ℕ → ℕ
cap risk = if leb 100 risk then 100 else risk

-- What the checks of a guard have found so far.
pub record Findings : Type 0 where
  pub found : List Violation
  pub risk : ℕ

abbrev pub no_findings : Findings
no_findings = record { found = []; risk = 0 }

-- violations.append(v); risk_score = min(1.0, risk_score + weight)
abbrev pub add_violation : (weight : ℕ) → Violation → Findings → Findings
add_violation weight v f = record { found = f.found ++ v ∷ []; risk = cap (f.risk + weight) }

-- if vs: violations.extend(vs); risk_score = min(1.0, risk_score + weight * len(vs))
abbrev pub add_violations : (weight : ℕ) → List Violation → Findings → Findings
add_violations weight [] f = f
add_violations weight (v ∷ vs) f = record {
  found = f.found ++ v ∷ vs;
  risk = cap (f.risk + weight * length (v ∷ vs));
}

abbrev pub result_of : Findings → PolicyResult
result_of f = record {
  allowed = length f.found == 0;
  violations = f.found;
  risk_score = cap f.risk;
}

-- if requested_model: … if allowed_models is not None and requested_model not in allowed_models
abbrev pub model_permitted : Option String → Option (List String) → Bool
model_permitted none models = true
model_permitted (some model) none = true
model_permitted (some model) (some models) =
    if length (codes model) == 0 then true else str_in model models

abbrev pub check_model : Context → Findings → Findings
check_model ctx f =
    if model_permitted ctx.requested_model ctx.tenant_allowed_models
    then f
    else add_violation 40 (model_denied (elim ctx.requested_model [ none ↦ "" | some m ↦ m ])) f

-- The loop over the requested tools.
abbrev pub check_tools : (allowed_tools : List String) → List String → Findings → Findings
check_tools allowed_tools [] f = f
check_tools allowed_tools (tool ∷ tools) f =
    check_tools allowed_tools tools
      (if not (str_in tool allowed_tools) then add_violation 20 (tool_denied tool) f else f)

abbrev pub check_allowed_tools : Context → Findings → Findings
check_allowed_tools ctx f = elim ctx.tenant_allowed_tools [
  | none ↦ f
  | some allowed_tools ↦ check_tools allowed_tools ctx.requested_tools f
]

abbrev pub is_secret : Classification → Bool
is_secret c = elim c.sensitivity [ none ↦ false | some s ↦ str_in s ("SECRET" ∷ "TOP_SECRET" ∷ []) ]

abbrev pub document_violation : Classification → Violation
document_violation c =
    sensitive_document (elim c.document_id [ none ↦ "unknown" | some d ↦ d ])
      (elim c.sensitivity [ none ↦ "" | some s ↦ s ])

-- The loop over the classifications.
abbrev pub check_documents : List Classification → Findings → Findings
check_documents [] f = f
check_documents (c ∷ classifications) f =
    check_documents classifications
      (if is_secret c then add_violation 50 (document_violation c) f else f)

module _ (search : String → Text → Bool) (lower : Text → Text) where
  -- `_check_injection` and `_check_pii`
  abbrev pub check_patterns : List Pattern → Text → List Violation
  check_patterns patterns text =
      map (λ (p : Pattern). pattern_found p.1)
        (filter_by (λ (p : Pattern). search p.0 text) patterns)

  unfoldable pub check_input : (query : Text) → Context → PolicyResult
  check_input query ctx = result_of (
      check_documents ctx.document_classifications (
        check_allowed_tools ctx (
          check_model ctx
            (add_violations 30 (check_patterns injection_patterns query) no_findings))))

  abbrev pub check_policy_keywords : Text → List Violation
  check_policy_keywords text =
      map prohibited_phrase
        (filter_by (λ kw. contains (codes kw) (lower text)) policy_violation_keywords)

  abbrev pub check_unsupported_claims : Text → List Violation
  check_unsupported_claims text =
      map unsupported_claim (
        filter_by (λ marker. contains (lower (codes marker)) (lower text))
          unsupported_claim_markers)

  unfoldable pub check_output : (response : Text) → PolicyResult
  check_output response = result_of (
      add_violations 15 (check_unsupported_claims response) (
        add_violations 30 (check_policy_keywords response)
          (add_violations 40 (check_patterns pii_patterns response) no_findings)))
