-- ===== src/Workflows.antt =====
-- packages/workflows/engine.py, class `WorkflowEngine`.
-- A text is the list of its code points. The config of a step holds what the handlers read of the
-- dict, with their defaults put in. `World` is what lies outside: str.format and the HTTP request.
pub mod Runs
pub mod WorkflowsTests
use operational_intelligence.Prelude.{
  ℕ, zero, suc, ◌+◌, ◌*◌, String, Bool, true, false, ◌&&◌, not, Option, some, none, List, [], ◌∷◌,
  ◌++◌, map, length, ltb, ◌==◌, if◌then◌else◌, codes, codes_eq, lower, str_eq,
}

abbrev pub Text : Type 0
Text = List ℕ

pub record Config : Type 0 where
  pub channel : String
  pub target : String
  pub message : String
  pub url : String
  pub method : String
  pub approver : String
  pub analysis_type : String
  pub seconds : ℕ
  pub minutes : ℕ
  pub abort_on_failure : Bool

pub record WorkflowStep : Type 0 where
  pub step_type : String
  pub config : Config
  pub condition : Option Text
  pub timeout_seconds : ℕ

-- `str(v)` for each value of the trigger's dict; `none` is None
abbrev pub Trigger : Type 0
Trigger = List (Text × Option Text)

-- the dict that a handler returns
pub data Output : Type 0 where
  skipped : Output
  notified : (channel target message : String) → Output
  called : (url method : String) → (status_code : ℕ) → (response_body : String) → Output
  approved : (approver : String) → Output
  delayed : (seconds : ℕ) → Output
  analyzed : (analysis_type : String) → Output

pub data StepError : Type 0 where
  unknown_step_type : String → StepError
  timed_out : (seconds : ℕ) → StepError
  raised : String → StepError

pub record StepResult : Type 0 where
  pub step_type : String
  pub success : Bool
  pub result : Option Output
  pub error : Option StepError

pub data Status : Type 0 where
  running completed failed : Status

pub record WorkflowExecution : Type 0 where
  pub steps_completed : ℕ
  pub steps_total : ℕ
  pub status : Status
  pub results : List StepResult
  -- context["step_results"]
  pub step_results : List StepResult

-- How a handler ends under `asyncio.wait_for`.
pub data Ended : Type 0 where
  returned : Output → Ended
  too_late : Ended
  threw : String → Ended

pub data Formatted : Type 0 where
  formatted : String → Formatted
  -- KeyError or IndexError
  missing : Formatted
  threw : String → Formatted

pub data Response : Type 0 where
  responded : (status_code : ℕ) → (text : String) → Response
  too_late : Response
  threw : String → Response

pub record World : Type 0 where
  pub format : String → Trigger → Formatted
  pub request : Config → Response

-- A handler that sleeps: `wait_for` cancels it once the timeout is reached.
abbrev pub sleeps : ℕ → WorkflowStep → Output → Ended
sleeps seconds step output =
    if ltb seconds step.timeout_seconds then Ended.returned output else Ended.too_late

unfoldable pub handle_notify : World → WorkflowStep → Trigger → Ended
handle_notify world step trigger = elim (world.format step.config.message trigger) [
  | Formatted.formatted message ↦
      Ended.returned (notified step.config.channel step.config.target message)
  | Formatted.missing ↦
      Ended.returned (notified step.config.channel step.config.target step.config.message)
  | Formatted.threw e ↦ Ended.threw e
]

unfoldable pub handle_api_call : World → WorkflowStep → Trigger → Ended
handle_api_call world step trigger = elim (world.request step.config) [
  | Response.responded code text ↦
      Ended.returned (called step.config.url step.config.method code text)
  | Response.too_late ↦ Ended.too_late
  | Response.threw e ↦ Ended.threw e
]

unfoldable pub handle_approve : World → WorkflowStep → Trigger → Ended
handle_approve world step trigger = sleeps 1 step (approved step.config.approver)

unfoldable pub handle_delay : World → WorkflowStep → Trigger → Ended
handle_delay world step trigger =
    let total_seconds = step.config.seconds + step.config.minutes * 60 in
    sleeps total_seconds step (delayed total_seconds)

unfoldable pub handle_ai_analyze : World → WorkflowStep → Trigger → Ended
handle_ai_analyze world step trigger = Ended.returned (analyzed step.config.analysis_type)

-- self._handlers
unfoldable pub handler_of : String → Option (World → WorkflowStep → Trigger → Ended)
unfolding handle_notify handle_api_call handle_approve handle_delay handle_ai_analyze
handler_of step_type =
    if str_eq step_type "notify"
    then some handle_notify
    else if str_eq step_type "api_call"
    then some handle_api_call
    else if str_eq step_type "approve"
    then some handle_approve
    else if str_eq step_type "delay"
    then some handle_delay
    else if str_eq step_type "ai_analyze"
    then some handle_ai_analyze
    else none

abbrev pub failure : WorkflowStep → StepError → StepResult
failure step e = record {
  step_type = step.step_type;
  success = false;
  result = none;
  error = some e;
}

abbrev pub success : WorkflowStep → Output → StepResult
success step output = record {
  step_type = step.step_type;
  success = true;
  result = some output;
  error = none;
}

abbrev pub result_of : WorkflowStep → Ended → StepResult
result_of step (Ended.returned output) = success step output
result_of step Ended.too_late = failure step (timed_out step.timeout_seconds)
result_of step (Ended.threw e) = failure step (raised e)

unfoldable pub execute_step : World → WorkflowStep → Trigger → StepResult
unfolding handler_of
execute_step world step trigger = elim (handler_of step.step_type) [
  | some handler ↦ result_of step (handler world step trigger)
  | none ↦ failure step (unknown_step_type step.step_type)
]

-- text.startswith(word)
abbrev pub is_prefix : Text → Text → Bool
is_prefix [] s = true
is_prefix (c ∷ p) [] = false
is_prefix (c ∷ p) (d ∷ s) = (c == d) && is_prefix p s

-- word in text
unfoldable pub contains : Text → Text → Bool
contains word [] = is_prefix word []
contains word (c ∷ s) = let rest = contains word s in if is_prefix word (c ∷ s) then true else rest

-- condition.split("==", 1), where "==" is in it
unfoldable pub split_eq : Text → Option (Text × Text)
split_eq [] = none
split_eq (c ∷ []) = none
split_eq (c ∷ d ∷ s) =
    let rest = split_eq (d ∷ s) in
    if (c == b'=') && (d == b'=')
    then some ([], s)
    else elim rest [ some (key, value) ↦ some (c ∷ key, value) | none ↦ none ]

abbrev pub is_blank : ℕ → Bool
is_blank c = if c == 32 then true else (ltb 8 c && ltb c 14)

abbrev pub strip_left : Text → Text
strip_left [] = []
strip_left (c ∷ s) = let rest = strip_left s in if is_blank c then rest else c ∷ s

abbrev pub strip_right : Text → Text
strip_right [] = []
strip_right (c ∷ s) =
    let rest = strip_right s in
    elim rest [ [] ↦ if is_blank c then [] else c ∷ [] | d ∷ r ↦ c ∷ d ∷ r ]

abbrev pub strip : Text → Text
strip s = strip_left (strip_right s)

unfoldable pub get : Text → Trigger → Option Text
get key [] = none
get key ((k, v) ∷ items) = if codes_eq k key then v else get key items

abbrev pub last : List StepResult → Option StepResult
last [] = none
last (r ∷ []) = some r
last (r ∷ q ∷ rs) = last (q ∷ rs)

abbrev pub bool_eq : Bool → Bool → Bool
bool_eq true b = b
bool_eq false b = not b

-- The check of the last step's result, and the default.
unfoldable pub last_step_condition : Text → List StepResult → Bool
unfolding contains
last_step_condition condition step_results =
    if contains (codes "steps[-1].success") condition
    then elim (last step_results) [
      | some r ↦ bool_eq r.success (contains (codes "true") (map lower condition))
      | none ↦ true
    ]
    else true

unfoldable pub evaluate_condition : Text → Trigger → List StepResult → Bool
unfolding split_eq get last_step_condition
evaluate_condition condition trigger step_results = elim (split_eq condition) [
  | some (key, value) ↦ elim (get (strip key) trigger) [
    | some actual ↦ codes_eq (map lower actual) (map lower (strip value))
    | none ↦ last_step_condition condition step_results
  ]
  | none ↦ last_step_condition condition step_results
]

-- `step.condition and not self._evaluate_condition(…)`
unfoldable pub is_skipped : WorkflowStep → Trigger → List StepResult → Bool
unfolding evaluate_condition
is_skipped step trigger step_results = elim step.condition [
  | none ↦ false
  | some condition ↦ elim condition [
    | [] ↦ false
    | c ∷ cs ↦ not (evaluate_condition (c ∷ cs) trigger step_results)
  ]
]

abbrev pub add_skipped : WorkflowStep → WorkflowExecution → WorkflowExecution
add_skipped step e = record e {
  results = e.results ++ success step skipped ∷ [];
  steps_completed = e.steps_completed + 1;
}

abbrev pub add_result : StepResult → WorkflowExecution → WorkflowExecution
add_result r e = record e {
  results = e.results ++ r ∷ [];
  step_results = e.step_results ++ r ∷ [];
  steps_completed = e.steps_completed + 1;
}

abbrev pub aborts : WorkflowStep → StepResult → Bool
aborts step r = not r.success && step.config.abort_on_failure

-- The `for` loop over the steps.
unfoldable pub run_steps :
    World → Trigger → List WorkflowStep → WorkflowExecution → WorkflowExecution
unfolding execute_step is_skipped
run_steps world trigger [] e = record e { status = completed }
run_steps world trigger (step ∷ steps) e = elim (is_skipped step trigger e.step_results) [
  | true ↦ run_steps world trigger steps (add_skipped step e)
  | false ↦
      let r = execute_step world step trigger in
      elim (aborts step r) [
        | true ↦ record (add_result r e) { status = failed }
        | false ↦ run_steps world trigger steps (add_result r e)
      ]
]

unfoldable pub execute_workflow : World → List WorkflowStep → Trigger → WorkflowExecution
unfolding run_steps
execute_workflow world steps trigger = run_steps world trigger steps (record {
  steps_completed = 0;
  steps_total = length steps;
  status = running;
  results = [];
  step_results = [];
})
