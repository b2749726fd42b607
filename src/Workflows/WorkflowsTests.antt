-- ===== src/Workflows/WorkflowsTests.antt =====
-- Runs of workflows at concrete steps.
use operational_intelligence.Prelude.{
  ℕ, String, Bool, true, false, ◌≡◌, refl, Option, some, none, List, [], ◌∷◌, map, codes, take, ◌≤◌,
  ◌⊎◌,
}
use operational_intelligence.Workflows.{
  Config, WorkflowStep, Trigger, completed, failed, World, Formatted, Response, execute_workflow,
}
use operational_intelligence.Workflows.Runs.{type_of_result, type_of_step, execute_workflow-Ran}

abbrev config : ℕ → Bool → Config
config minutes abort = record {
  channel = "email";
  target = "ops";
  message = "hello";
  url = "http://example.com";
  method = "POST";
  approver = "manager";
  analysis_type = "general";
  seconds = 0;
  minutes = minutes;
  abort_on_failure = abort;
}

abbrev step : String → ℕ → Bool → Option (List ℕ) → WorkflowStep
step name minutes abort condition = record {
  step_type = name;
  config = config minutes abort;
  condition = condition;
  timeout_seconds = 300;
}

abbrev world : World
world = record {
  format = λ text trigger. Formatted.formatted text;
  request = λ c. Response.responded 500 "error";
}

abbrev trigger : Trigger
trigger = (codes "severity", some (codes "High")) ∷ []

abbrev steps : List WorkflowStep
steps =
    step "notify" 0 true (some (codes "severity == high"))
    ∷ step "approve" 0 true (some (codes "severity == low"))
    ∷ step "delay" 10 false none
    ∷ step "unheard_of" 0 false none
    ∷ []

execute_workflow-Ran_example :
    let e = execute_workflow world steps trigger in
    (e.steps_completed ≤ e.steps_total)
    × (map type_of_result e.results ≡ take e.steps_completed (map type_of_step steps))
    × ((e.status ≡ completed) × (e.steps_completed ≡ e.steps_total) ⊎ (e.status ≡ failed))
execute_workflow-Ran_example = execute_workflow-Ran world steps trigger

aborting_run :
    (execute_workflow world (step "unheard_of" 0 true none ∷ steps) trigger).status ≡ failed
unfolding execute_workflow
aborting_run = refl

abbrev lenient : List WorkflowStep
lenient =
    step "delay" 10 false none
    ∷ step "unheard_of" 0 false (some (codes "steps[-1].success == false"))
    ∷ []
