-- ===== src/Workflows/Runs.antt =====
-- packages/workflows/engine.py: what `execute_workflow` returns, for any handlers' outcomes.
use operational_intelligence.Prelude.{
  ℕ, suc, ◌+◌, ◌*◌, ◌≤◌, ◌≡◌, refl, ◌⊎◌, inl, inr, String, false, Option, some, none, List, [], ◌∷◌,
  ◌++◌, map, length, take, arith, Bool-cases, All, ltb, append-nil, append_assoc, ap, ◌∙◌, sym,
  if◌then◌else◌,
}
use mathlib.Core.List.{map-append}
use operational_intelligence.Workflows.{
  WorkflowStep, Trigger, StepResult, completed, failed, running, WorkflowExecution, World, Ended,
  delayed, timed_out, skipped, failure, success, result_of, handler_of, handle_delay, execute_step,
  is_skipped, add_skipped, add_result, aborts, run_steps, execute_workflow,
}

abbrev pub type_of_result : StepResult → String
type_of_result r = r.step_type

abbrev pub type_of_step : WorkflowStep → String
type_of_step s = s.step_type

result_of-type :
    (step : WorkflowStep) (ended : Ended) → (result_of step ended).step_type ≡ step.step_type
result_of-type step (Ended.returned o) = refl
result_of-type step Ended.too_late = refl
result_of-type step (Ended.threw e) = refl

execute_step-type :
    (world : World) (step : WorkflowStep) (trigger : Trigger)
    → (execute_step world step trigger).step_type ≡ step.step_type
unfolding execute_step
execute_step-type world step trigger = go (handler_of step.step_type) refl
  where
    go :
        (h : Option (World → WorkflowStep → Trigger → Ended))
        → handler_of step.step_type ≡ h
        → (execute_step world step trigger).step_type ≡ step.step_type
    go none e = rw (e, execute_step) refl
    go (some handler) e = rw (e, execute_step) (result_of-type step (handler world step trigger))

-- `e` became `e'` over the first `count` of `steps`: one result for each, in their order, and all of
-- them where the status is `completed`; the status is `failed` otherwise.
pub record Ran (steps : List WorkflowStep) (e e' : WorkflowExecution) : Type 0 where
  pub count : ℕ
  pub within : count ≤ length steps
  pub counted : e'.steps_completed ≡ e.steps_completed + count
  pub types :
      map type_of_result e'.results
      ≡ map type_of_result e.results ++ take count (map type_of_step steps)
  pub total : e'.steps_total ≡ e.steps_total
  pub ended : (e'.status ≡ completed) × (count ≡ length steps) ⊎ (e'.status ≡ failed)

Ran-cons :
    (step : WorkflowStep) (steps : List WorkflowStep) (r : StepResult)
    (e mid e' : WorkflowExecution)
    → r.step_type ≡ step.step_type
    → mid.results ≡ e.results ++ r ∷ []
    → mid.steps_completed ≡ e.steps_completed + 1
    → mid.steps_total ≡ e.steps_total
    → Ran steps mid e'
    → Ran (step ∷ steps) e e'
Ran-cons step steps r e mid e' same grown more kept ran = record {
  count = suc ran.count;
  within = omega (arith, ran.within);
  counted = omega (arith, ran.counted);
  types =
      ran.types
      ∙ ap (λ l. map type_of_result l ++ take ran.count (map type_of_step steps)) grown
      ∙ simp (map-append, append_assoc, same);
  total = ran.total ∙ kept;
  ended = ground (arith, ran.ended);
}

aborted-Ran :
    (world : World) (trigger : Trigger) (step : WorkflowStep) (steps : List WorkflowStep)
    (e : WorkflowExecution)
    → Ran
        (step ∷ steps)
        e
        (record (add_result (execute_step world step trigger) e) { status = failed })
aborted-Ran world trigger step steps e = record {
  count = 1;
  within = omega arith;
  counted = refl;
  types = simp (map-append, execute_step-type);
  total = refl;
  ended = inr refl;
}

run_steps-Ran :
    (world : World) (trigger : Trigger) (steps : List WorkflowStep) (e : WorkflowExecution)
    → Ran steps e (run_steps world trigger steps e)
unfolding run_steps
run_steps-Ran world trigger [] e = record {
  count = 0;
  within = omega arith;
  counted = omega arith;
  types = sym (append-nil (map type_of_result e.results));
  total = refl;
  ended = inl (refl, refl);
}
run_steps-Ran world trigger (step ∷ steps) e =
    elim (Bool-cases (is_skipped step trigger e.step_results)) [
      | inl e1 ↦
          rw (e1, run_steps)
            (Ran-cons step steps (success step skipped) e (add_skipped step e) _ refl refl refl refl
              (run_steps-Ran world trigger steps (add_skipped step e)))
      | inr e1 ↦ elim (Bool-cases (aborts step (execute_step world step trigger))) [
        | inr e2 ↦
            rw (e1, e2, run_steps)
              (Ran-cons step steps (execute_step world step trigger) e
                (add_result (execute_step world step trigger) e) _
                (execute_step-type world step trigger) refl refl refl
                (run_steps-Ran world trigger steps
                  (add_result (execute_step world step trigger) e)))
        | inl e2 ↦ rw (e1, e2, run_steps) (aborted-Ran world trigger step steps e)
      ]
    ]

abbrev pub start : List WorkflowStep → WorkflowExecution
start steps = record {
  steps_completed = 0;
  steps_total = length steps;
  status = running;
  results = [];
  step_results = [];
}

take_all :
    (steps : List WorkflowStep)
    → take (length steps) (map type_of_step steps) ≡ map type_of_step steps
take_all [] = refl
take_all (step ∷ steps) = rw (take_all steps)

-- A finished execution has one result for each step that it went through, in the order of the
-- steps; it is `completed` only when it went through all of them, and `failed` otherwise.
pub execute_workflow-Ran :
    (world : World) (steps : List WorkflowStep) (trigger : Trigger)
    → let e = execute_workflow world steps trigger in
      (e.steps_completed ≤ e.steps_total)
      × (map type_of_result e.results ≡ take e.steps_completed (map type_of_step steps))
      × ((e.status ≡ completed) × (e.steps_completed ≡ e.steps_total) ⊎ (e.status ≡ failed))
unfolding execute_workflow
execute_workflow-Ran world steps trigger =
    let ran = run_steps-Ran world trigger steps (start steps) in
    let reached : (run_steps world trigger steps (start steps)).steps_completed ≡ ran.count =
      omega (arith, ran.counted) in
    (
      omega (arith, ran.within, ran.total, reached),
      ran.types ∙ ap (λ n. take n (map type_of_step steps)) (sym reached),
      elim ran.ended [
        | inl (done, whole) ↦ inl (done, omega (arith, whole, ran.total, reached))
        | inr stopped ↦ inr stopped
      ],
    )

-- no step of the list aborts the workflow on a failure
abbrev pub NeverAborts : List WorkflowStep → Type 0
NeverAborts = All (λ step. step.config.abort_on_failure ≡ false)

run_steps-completed :
    (world : World) (trigger : Trigger) (steps : List WorkflowStep) (e : WorkflowExecution)
    → NeverAborts steps
    → (run_steps world trigger steps e).status ≡ completed
unfolding run_steps
run_steps-completed world trigger [] e h = refl
run_steps-completed world trigger (step ∷ steps) e h =
    elim (Bool-cases (is_skipped step trigger e.step_results)) [
      | inl e1 ↦ rw (e1, run_steps) (run_steps-completed world trigger steps _ h.1)
      | inr e1 ↦
          rw (e1, never step (execute_step world step trigger) h.0, run_steps)
            (run_steps-completed world trigger steps _ h.1)
    ]
  where
    never :
        (step : WorkflowStep) (r : StepResult)
        → step.config.abort_on_failure ≡ false
        → aborts step r ≡ false
    never step r h = ground arith

-- A workflow in which no step has `abort_on_failure` completes, with a result for every step,
-- whatever its steps return or raise.
pub execute_workflow-completed :
    (world : World) (steps : List WorkflowStep) (trigger : Trigger)
    → NeverAborts steps
    → ((execute_workflow world steps trigger).status ≡ completed)
      × (map type_of_result (execute_workflow world steps trigger).results ≡ map type_of_step steps)
unfolding execute_workflow
execute_workflow-completed world steps trigger h =
    let done = run_steps-completed world trigger steps (start steps) h in
    let ran = run_steps-Ran world trigger steps (start steps) in
    (
      done,
      elim ran.ended [
        | inl (_, whole) ↦
            ran.types ∙ ap (λ n. take n (map type_of_step steps)) whole ∙ take_all steps
        | inr stopped ↦ cc
      ],
    )

delay_handler : (name : String) → name ≡ "delay" → handler_of name ≡ some handle_delay
unfolding handler_of
delay_handler name h = rw h

-- A `delay` step succeeds exactly when its seconds and minutes together stay below its timeout;
-- otherwise it fails with the timeout's error, whatever it was asked to wait.
pub execute_step-delay :
    (world : World) (step : WorkflowStep) (trigger : Trigger)
    → step.step_type ≡ "delay"
    → (execute_step world step trigger) ≡ (
        if ltb (step.config.seconds + step.config.minutes * 60) step.timeout_seconds
        then success step (delayed (step.config.seconds + step.config.minutes * 60))
        else failure step (timed_out step.timeout_seconds))
unfolding execute_step
execute_step-delay world step trigger h =
    rw (delay_handler step.step_type h, execute_step)
      (elim (Bool-cases
        (ltb (step.config.seconds + step.config.minutes * 60) step.timeout_seconds)) [
          | inl e ↦ rw e refl
          | inr e ↦ rw e refl
        ])
