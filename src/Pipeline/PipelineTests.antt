-- ===== src/Pipeline/PipelineTests.antt =====
-- Events, jobs and messages at concrete rows.
use operational_intelligence.Prelude.{
  ℕ, zero, suc, ◌≡◌, refl, String, true, Option, some, none, List, [], ◌∷◌, map, length, take,
  reversed, filter_by,
}
use operational_intelligence.Prelude.Int.{pos}
use operational_intelligence.Prelude.Dict.{Dict, lookup}
use operational_intelligence.Rules.Syntax.{Value}
use operational_intelligence.Rules.Samples.{tiny}
use operational_intelligence.Rules.Parser.{or_expr}
use operational_intelligence.Rules.Eval.Facade.{evaluate_expression}
use operational_intelligence.Rules.Evaluator.{
  RuleType, Rule, Triggered, evaluate_event_rules, evaluate_threshold_rules,
}
use operational_intelligence.Alerts.{create_alert}
use operational_intelligence.Pipeline.{Item, Job, Enqueue, text}
use operational_intelligence.Pipeline.Stream.{
  Loaded, dict, append_all, messages_of, read_latest, stamped, of_tenant, read_latest-append_all,
}
use operational_intelligence.Pipeline.Processor.{EventRow, World, process_event}
use operational_intelligence.Pipeline.Tasks.{
  Factory, Ident, Ingested, batch_process_events, threshold_rules_task,
}
use operational_intelligence.Pipeline.AlertTask.{
  Store, Redis, bad_job, key_error, created, deduplicated, run_create_alert, run_jobs, call_service,
}
use operational_intelligence.Pipeline.Lost.{process_event-run_jobs, threshold_rules_task-run_jobs}
use operational_intelligence.Pipeline.Retry.{run_create_alert-retry}

-- a JSON text that names its only key
abbrev dumps {ℓ} : {A : Type ℓ} → Dict A → String
dumps [] = "{}"
dumps ((key, v) ∷ d) = key

abbrev loads : String → Option (Loaded String)
loads s = some (dict ((s, "1") ∷ []))

abbrev items : List (ℕ × (Dict String × String))
items =
    (1, (("a", "1") ∷ [], "1-0"))
    ∷ (2, (("b", "1") ∷ [], "2-0"))
    ∷ (1, (("c", "1") ∷ [], "3-0"))
    ∷ []

read_latest-append_all_example :
    read_latest loads (λ s. s) 1 1 (append_all dumps items [])
    ≡ some (
        map
          (stamped dumps loads (λ s. s))
          (take 1 (reversed (filter_by (of_tenant dumps loads (λ s. s) 1) items))))
unfolding messages_of
read_latest-append_all_example =
    read_latest-append_all dumps loads (λ s. s) 1 1 items [] (refl, (refl, (refl, tt))) refl

abbrev hot : Rule
hot = record {
  id = 4;
  tenant_id = 1;
  rule_name = "hot";
  rule_type = RuleType.event_triggered;
  trigger_event = some "scan";
  condition_expression = "event.temperature > 8";
  evaluation_window = none;
  severity = "high";
  action_type = "alert";
  enabled = true;
}

abbrev scan : EventRow tiny
scan = record {
  id = 7;
  tenant_id = 1;
  event_type = "scan";
  entity_type = "pump";
  entity_id = "p1";
  source_system = "plant";
  payload = some (("temperature", Value.int (pos 9)) ∷ []);
  metadata = none;
  occurred_at = 100;
}

abbrev nothing : World tiny
nothing = record { streams = []; jobs = [] }

abbrev no_alerts : Store
no_alerts = record { alerts = []; notifications = [] }

abbrev show : ℕ → String
show n = "id"

abbrev digest : ℕ → ℕ → String → ℕ → String
digest tenant rule entity w = entity

abbrev all_up : ℕ → Enqueue
all_up i = Enqueue.enqueued

abbrev show_item : Item tiny → String
show_item (Item.value (Value.str s)) = s
show_item x = "other"

abbrev after_scan : World tiny
after_scan =
    (process_event tiny dumps show show (scan ∷ []) (hot ∷ []) (some "1-0") all_up 7 1 nothing).1

one_job : length after_scan.jobs ≡ 1
unfolding process_event evaluate_event_rules evaluate_expression or_expr lookup
one_job = refl

process_event-run_jobs_example :
    run_jobs digest (λ s. none) show_item Redis.reachable (λ i. i) after_scan.jobs no_alerts
    ≡ (map (λ j. bad_job (key_error "message")) after_scan.jobs, no_alerts)
process_event-run_jobs_example =
    process_event-run_jobs digest (λ s. none) show_item Redis.reachable dumps show show (scan ∷ [])
      (hot ∷ []) (some "1-0") all_up 7 1 (λ i. i) no_alerts nothing refl

abbrev busy : Rule
busy = record hot {
  rule_type = RuleType.threshold;
  condition_expression = "event.count > 0";
  trigger_event = none;
}

abbrev busy_jobs : List (Job tiny)
busy_jobs =
    (threshold_rules_task tiny Factory.ready (busy ∷ [])
      (record { tenant_id = 1; event_type = "scan"; occurred_at = 100 } ∷ []) 120 [] all_up []).1

one_threshold_job : length busy_jobs ≡ 1
unfolding threshold_rules_task evaluate_threshold_rules evaluate_expression or_expr
one_threshold_job = refl

threshold_rules_task-run_jobs_example :
    run_jobs digest (λ s. none) show_item Redis.reachable (λ i. i) busy_jobs no_alerts
    ≡ (map (λ j. bad_job (key_error "entity_type")) busy_jobs, no_alerts)
threshold_rules_task-run_jobs_example =
    threshold_rules_task-run_jobs digest (λ s. none) show_item Redis.reachable Factory.ready
      (busy ∷ []) (record { tenant_id = 1; event_type = "scan"; occurred_at = 100 } ∷ []) 120 []
      all_up (λ i. i) no_alerts

-- A job with all the keys that `create_alert` documents.
abbrev whole_job : Job tiny
whole_job =
    ("tenant_id", Item.uuid 1)
    ∷ ("rule_id", Item.uuid 4)
    ∷ ("entity_type", text "pump")
    ∷ ("entity_id", text "p1")
    ∷ ("severity", text "high")
    ∷ ("message", text "too hot")
    ∷ []

whole_job_run :
    (run_create_alert digest (λ s. none) show_item Redis.reachable 5 whole_job no_alerts).0
    ≡ created 5
unfolding run_create_alert call_service lookup create_alert
whole_job_run = refl

abbrev with_alert : Store
with_alert =
    (run_create_alert digest (λ s. none) show_item Redis.unreachable 5 whole_job no_alerts).1

run_create_alert-retry_example :
    (with_alert.notifications ≡ [])
    × (run_create_alert digest (λ s. none) show_item Redis.reachable 6 whole_job with_alert
        ≡ (deduplicated, with_alert))
unfolding run_create_alert call_service lookup create_alert
run_create_alert-retry_example =
    run_create_alert-retry digest (λ s. none) show_item whole_job 5 6 Redis.reachable no_alerts
      with_alert refl

abbrev sent_in : List Ingested
sent_in =
    record { event_id = Ident.missing; id = Ident.ident 7; tenant_id = Ident.ident 1 }
    ∷ record { event_id = Ident.malformed; id = Ident.missing; tenant_id = Ident.ident 1 }
    ∷ []

batch_run :
    (batch_process_events tiny dumps show show
      (scan ∷ [])
      (hot ∷ [])
      (λ i. none)
      (λ i. all_up)
      Factory.ready
      sent_in
      nothing).0.failed
    ≡ 1
unfolding batch_process_events process_event evaluate_event_rules evaluate_expression or_expr lookup
batch_run = refl

abbrev fired : Triggered
fired = record { rule = hot; event_type = "scan"; event_count = 0; window_seconds = 0 }

-- the first job is refused, the pool of the second does not close
abbrev shaky : ℕ → Enqueue
shaky zero = Enqueue.refused
shaky (suc zero) = Enqueue.close_failed
shaky (suc (suc i)) = Enqueue.enqueued
