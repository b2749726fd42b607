-- ===== src/Prompts/PromptsTests.antt =====
-- Two prompts of one slot and one of another.
use operational_intelligence.Prelude.{◌<◌, ◌≡◌, refl, true, false, some, none, [], ◌∷◌, filter_by}
use operational_intelligence.Prompts.{
  PromptTemplate, PromptEvaluation, Table, PromptData, found, multiple_results, register_prompt,
  promote_prompt, evaluate_prompt, find_prompt, get_active_prompt, get_prompt_by_version,
  max_version, is_active_in,
}
use operational_intelligence.Prompts.Versions.{register_prompt-get}
use operational_intelligence.Prompts.Promotion.{promote_prompt-active}

abbrev old : PromptTemplate
old = record {
  id = 1;
  name = "triage";
  version = 3;
  task_type = "triage";
  model_family = "claude";
  system_prompt = "s";
  user_template = "u";
  is_active = true;
}

abbrev foreign : PromptTemplate
foreign = record old { id = 2; name = "report"; task_type = "report" }

abbrev next : PromptTemplate
next = record old { id = 3; version = 4; is_active = false }

abbrev new_data : PromptData
new_data = record {
  name = some "triage";
  version = none;
  task_type = some "triage";
  model_family = some "claude";
  system_prompt = some "s";
  user_template = some "u";
}

register_prompt-get_example :
    (get_prompt_by_version "triage" 4 (old ∷ foreign ∷ next ∷ []) ≡ found next)
    × (max_version "triage" (old ∷ foreign ∷ []) < 4)
unfolding register_prompt
register_prompt-get_example =
    register_prompt-get 3 new_data next (old ∷ foreign ∷ []) (old ∷ foreign ∷ next ∷ []) refl refl

-- A version that is given twice can no longer be read.
same_version :
    get_prompt_by_version "triage" 3 (old ∷ record old { id = 9 } ∷ []) ≡ multiple_results
unfolding get_prompt_by_version
same_version = refl

abbrev example : PromptEvaluation
example = record { id = 1; prompt_template_id = 3; evaluation_type = "exact_match" }

abbrev rows : Table
rows = old ∷ foreign ∷ next ∷ []

abbrev promoted : Table
promoted = record old { is_active = false } ∷ foreign ∷ record next { is_active = true } ∷ []

promote_prompt-active_example :
    (filter_by (is_active_in "triage" "claude") promoted ≡ record next { is_active = true } ∷ [])
    × (get_active_prompt "triage" "claude" promoted ≡ found (record next { is_active = true }))
unfolding promote_prompt evaluate_prompt find_prompt
promote_prompt-active_example =
    promote_prompt-active (λ ev. "key") (λ scores. "low") 3 (example ∷ []) next rows promoted
      (refl, (refl, (refl, tt))) refl refl
