-- ===== src/Pipeline/Tasks.antt =====
-- apps/workers/tasks/rule_evaluation.py and apps/workers/tasks/ingestion.py. `Factory` is the
-- session factory of packages/db/session.py: absent until `init_db` is called in the process, and
-- then get_async_session raises RuntimeError; otherwise it yields one session.
use operational_intelligence.Prelude.{
  ℕ, suc, ◌+◌, String, Option, some, none, List, [], ◌∷◌, ◌++◌, length, inl, inr, ◌⊎◌,
}
use operational_intelligence.Prelude.Dict.{Dict}
use operational_intelligence.Rules.Syntax.{Runtime, Value, Error, Result, ok, err}
use operational_intelligence.Rules.Evaluator.{
  Rule, Event, EventData, Triggered, evaluate_event_rules, evaluate_threshold_rules,
}
use operational_intelligence.Rules.State.{Stores, Links}
use operational_intelligence.Rules.Evaluator.Composite.{CompositeState, evaluate_composite_rules}
use operational_intelligence.Pipeline.{
  Job, Enqueue, get_item, event_job, threshold_job, composite_job, enqueue_alerts,
}
use operational_intelligence.Pipeline.Processor.{
  EventRow, Field, World, Report, event_not_found, raised, processed, process_event,
}

pub data Factory : Type 0 where
  absent ready : Factory

-- An argument of a task that names a row: str() of a UUID, another text, or no such key.
pub data Ident : Type 0 where
  ident : ℕ → Ident
  malformed : Ident
  missing : Ident

-- Why a task raises: no session factory, a text that is no UUID, or the rule evaluation.
pub data Failure : Type 0 where
  no_factory malformed_uuid : Failure
  evaluation : Error → Failure

-- UUID(str(x)), where a missing key was replaced by "unknown"
abbrev pub uuid_of : Ident → Option ℕ
uuid_of (ident n) = some n
uuid_of malformed = none
uuid_of missing = none

-- event_data.get("event_id") or event_data.get("id", "unknown")
abbrev pub event_ident : (event_id id : Ident) → Ident
event_ident missing id = id
event_ident e id = e

-- What a rule task returns: the counts and the rules.
pub record Evaluated : Type 0 where
  pub rules_evaluated : ℕ
  pub rules_triggered : ℕ
  pub triggered : List Triggered

pub data TaskResult : Type 0 where
  finished : Evaluated → TaskResult
  failed : Failure → TaskResult

-- [UUID(rid) for rid in rule_ids]
abbrev pub uuids_of : List Ident → Option (List ℕ)
uuids_of [] = some []
uuids_of (i ∷ is) =
    let rest = uuids_of is in
    elim (uuid_of i) [ none ↦ none | some n ↦ elim rest [ none ↦ none | some ns ↦ some (n ∷ ns) ] ]

module _ (rt : Runtime) where
  Jobs : Type 0
  Jobs = List (Job rt)

  -- The loop over the triggered rules, and the dict that the task returns.
  unfoldable pub finish_task :
      (evaluated : ℕ)
      → (Triggered → Job rt)
      → (ℕ → Enqueue)
      → Result (List Triggered)
      → List (Job rt)
      → TaskResult × List (Job rt)
  unfolding enqueue_alerts
  finish_task evaluated job pool (err e) jobs = (failed (evaluation e), jobs)
  finish_task evaluated job pool (ok triggered) jobs = (
    finished (record {
      rules_evaluated = evaluated;
      rules_triggered = length triggered;
      triggered = triggered;
    }),
    (enqueue_alerts job pool 0 triggered jobs).1,
  )

  -- `evaluate_event_rules`, with the event's dict and the two keys of ids beside it. An id of an
  -- event is written into the job as it stands.
  unfoldable pub event_rules_task :
      Factory
      → List Rule
      → EventData rt
      → (tenant_id : Ident) → (event_id : ℕ) → (ℕ → Enqueue)
      → List (Job rt)
      → TaskResult × List (Job rt)
  unfolding finish_task
  event_rules_task absent rows e tenant_id event_id pool jobs = (failed no_factory, jobs)
  event_rules_task ready rows e tenant_id event_id pool jobs = elim (uuid_of tenant_id) [
    | none ↦ (failed malformed_uuid, jobs)
    | some tenant ↦
        finish_task 0
          (event_job tenant event_id
            (get_item (elim e.event_type [ none ↦ none | some s ↦ some (Value.str s) ]))
            (get_item e.entity_type) (get_item e.entity_id))
          pool (evaluate_event_rules rt rows e tenant) jobs
  ]

  -- `evaluate_threshold_rules`, for all tenants
  unfoldable pub threshold_rules_task :
      Factory
      → List Rule
      → List Event
      → (now : ℕ) → (rule_ids : List Ident) → (ℕ → Enqueue)
      → List (Job rt)
      → TaskResult × List (Job rt)
  unfolding finish_task
  threshold_rules_task absent rows events now rule_ids pool jobs = (failed no_factory, jobs)
  threshold_rules_task ready rows events now rule_ids pool jobs = elim (uuids_of rule_ids) [
    | none ↦ (failed malformed_uuid, jobs)
    | some ids ↦
        finish_task (length ids) threshold_job pool
          (evaluate_threshold_rules rt rows events now none ids) jobs
  ]

  -- `evaluate_composite_rules`, for all tenants; the stores of the rules' states change with it
  unfoldable pub composite_rules_task :
      (loads : String → Option (CompositeState rt))
      → (reading clearing : Rule → Links) → Factory
      → List Rule
      → (rule_ids : List Ident) → (ℕ → Enqueue)
      → Stores
      → List (Job rt)
      → (TaskResult × List (Job rt)) × Stores
  unfolding finish_task
  composite_rules_task loads reading clearing absent rows rule_ids pool s jobs =
      ((failed no_factory, jobs), s)
  composite_rules_task loads reading clearing ready rows rule_ids pool s jobs =
      elim (uuids_of rule_ids) [
        | none ↦ ((failed malformed_uuid, jobs), s)
        | some ids ↦
            let (result, stores) =
              evaluate_composite_rules rt loads reading clearing rows none ids s in
            (finish_task (length ids) composite_job pool result jobs, stores)
      ]

-- The keys of the dict of an ingested event that the task reads.
pub record Ingested : Type 0 where
  pub event_id : Ident
  pub id : Ident
  pub tenant_id : Ident

-- What `batch_process_events` returns.
pub record Batch : Type 0 where
  pub processed : ℕ
  pub failed : ℕ
  pub results : List Report

abbrev pub add_outcome : Failure ⊎ Report → Batch → Batch
add_outcome (inl failure) b = record b { failed = b.failed + 1 }
add_outcome (inr report) b = record b {
  processed = b.processed + 1;
  results = b.results ++ report ∷ [];
}

module _ (rt : Runtime) (dumps : Dict (Field rt) → String) (show_id show_time : ℕ → String)
    (rows : List (EventRow rt)) (rules : List Rule) (xadd : ℕ → Option String)
    (pool : ℕ → ℕ → Enqueue) where
  -- What the task `process_event` returns or raises.
  abbrev settled : Report × World rt → (Failure ⊎ Report) × World rt
  settled (raised e, w) = (inl (evaluation e), w)
  settled (event_not_found, w) = (inr event_not_found, w)
  settled (processed stream_id matched enqueued ts, w) =
      (inr (processed stream_id matched enqueued ts), w)

  -- `process_event`; the i-th call has its own answers of Redis.
  unfoldable pub process_event_task :
      Factory → (i : ℕ) → Ingested → World rt → (Failure ⊎ Report) × World rt
  unfolding process_event
  process_event_task absent i event_data w = (inl no_factory, w)
  process_event_task ready i event_data w =
      elim (uuid_of (event_ident event_data.event_id event_data.id)) [
        | none ↦ (inl malformed_uuid, w)
        | some event ↦ elim (uuid_of event_data.tenant_id) [
          | none ↦ (inl malformed_uuid, w)
          | some tenant ↦
              settled (
                process_event rt dumps show_id show_time rows rules (xadd i) (pool i) event tenant
                  w)
        ]
      ]

  -- The loop, behind the events before the i-th.
  unfoldable pub batch_loop :
      Factory → (i : ℕ) → List Ingested → Batch → World rt → Batch × World rt
  unfolding process_event_task
  batch_loop factory i [] b w = (b, w)
  batch_loop factory i (event_data ∷ rest) b w =
      let (outcome, after) = process_event_task factory i event_data w in
      batch_loop factory (suc i) rest (add_outcome outcome b) after

  unfoldable pub batch_process_events : Factory → List Ingested → World rt → Batch × World rt
  unfolding batch_loop
  batch_process_events factory events w =
      batch_loop factory 0 events (record { processed = 0; failed = 0; results = [] }) w
