-- ===== src/Pipeline/Lost.antt =====
-- What becomes of the jobs of triggered rules in the task `create_alert`.
use operational_intelligence.Prelude.{
  ℕ, suc, ◌≡◌, refl, ap, sym, subst, ◌∙◌, String, Option, some, none, List, [], ◌∷◌, ◌++◌, map,
  length, Option-cases, inl, inr,
}
use operational_intelligence.Prelude.Dict.{Dict, lookup}
use operational_intelligence.Rules.Syntax.{Runtime, Result, ok, err}
use operational_intelligence.Rules.Evaluator.{
  Rule, Event, Triggered, evaluate_event_rules, evaluate_threshold_rules,
}
use operational_intelligence.Pipeline.{
  Item, Job, Enqueue, event_job, threshold_job, composite_job, enqueue_alerts,
}
use operational_intelligence.Pipeline.Jobs.{reached, enqueue_alerts-reached}
use operational_intelligence.Pipeline.Processor.{
  EventRow, Field, World, find_event, process_found, enqueue_all, process_event, event_row_job,
  event_fields, data_of,
}
use operational_intelligence.Pipeline.Stream.{append}
use operational_intelligence.Pipeline.Tasks.{
  Factory, Ident, uuids_of, threshold_rules_task, finish_task,
}
use operational_intelligence.Pipeline.AlertTask.{
  Store, Redis, Finished, bad_job, key_error, run_create_alert, call_service, run_jobs,
  read_arguments,
}

module _ {rt : Runtime} (digest : ℕ → ℕ → String → ℕ → String) (parse_uuid : String → Option ℕ)
    (show : Item rt → String) (redis : Redis) where
  event_job_fails :
      (tenant event id : ℕ) (event_type entity_type entity_id : Item rt) (t : Triggered) (s : Store)
      → run_create_alert digest parse_uuid show redis id
          (event_job tenant event event_type entity_type entity_id t)
          s
        ≡ (bad_job (key_error "message"), s)
  unfolding run_create_alert call_service event_job lookup read_arguments
  event_job_fails tenant event id event_type entity_type entity_id t s = refl

  threshold_job_fails :
      (id : ℕ) (t : Triggered) (s : Store)
      → run_create_alert digest parse_uuid show redis id (threshold_job t) s
        ≡ (bad_job (key_error "entity_type"), s)
  unfolding run_create_alert call_service threshold_job lookup read_arguments
  threshold_job_fails id t s = refl

  composite_job_fails :
      (id : ℕ) (t : Triggered) (s : Store)
      → run_create_alert digest parse_uuid show redis id (composite_job t) s
        ≡ (bad_job (key_error "entity_type"), s)
  unfolding run_create_alert call_service composite_job lookup read_arguments
  composite_job_fails id t s = refl

  -- Jobs of one shape that all raise the same error.
  run_jobs-fail :
      (f : Triggered → Job rt) (failure : Finished)
      → ((id : ℕ) (t : Triggered) (s : Store)
          → run_create_alert digest parse_uuid show redis id (f t) s ≡ (failure, s))
      → (ids : ℕ → ℕ) (ts : List Triggered) (s : Store)
      → run_jobs digest parse_uuid show redis ids (map f ts) s ≡ (map (λ j. failure) (map f ts), s)
  unfolding run_jobs
  run_jobs-fail f failure fails ids [] s = refl
  run_jobs-fail f failure fails ids (t ∷ ts) s =
      rw (run_jobs, fails (ids 0) t s, run_jobs-fail f failure fails (λ i. ids (suc i)) ts s) refl

  module _ (dumps : Dict (Field rt) → String) (show_id show_time : ℕ → String)
      (rows : List (EventRow rt)) (rules : List Rule) (xadd : Option String) (pool : ℕ → Enqueue)
      (event tenant : ℕ) (ids : ℕ → ℕ) (s : Store) where
    abbrev AllFail : List (Job rt) → Type 0
    AllFail jobs =
        run_jobs digest parse_uuid show redis ids jobs s
        ≡ (map (λ j. bad_job (key_error "message")) jobs, s)

    no_jobs : (jobs : List (Job rt)) → jobs ≡ [] → AllFail jobs
    unfolding run_jobs
    no_jobs jobs empty = subst AllFail (sym empty) refl

    enqueue_all-fails :
        (e : EventRow rt) (stream_id : Option String) (result : Result (List Triggered))
        (w : World rt)
        → w.jobs ≡ []
        → AllFail
            (enqueue_all rt dumps show_id show_time e tenant event stream_id pool result w).1.jobs
    unfolding enqueue_all
    enqueue_all-fails e stream_id (err x) w empty = no_jobs w.jobs empty
    enqueue_all-fails e stream_id (ok ts) w empty =
        let job = event_row_job e tenant event in
        let queued : (enqueue_alerts job pool 0 ts w.jobs).1 ≡ map job (reached job pool 0 ts) =
          enqueue_alerts-reached job pool 0 ts w.jobs
          ∙ ap (λ q. q ++ map job (reached job pool 0 ts)) empty in
        subst AllFail (sym queued) (
          run_jobs-fail job (bad_job (key_error "message"))
            (λ id t store. event_job_fails tenant event id _ _ _ t store) ids
            (reached job pool 0 ts) s)

    found_fails :
        (found : Option (EventRow rt)) (w : World rt)
        → w.jobs ≡ []
        → AllFail
            (process_found rt dumps show_id show_time rules xadd pool event tenant found w).1.jobs
    unfolding process_found
    found_fails none w empty = no_jobs w.jobs empty
    found_fails (some e) w empty =
        let (stream_id, streams) =
          append dumps tenant (event_fields show_id show_time e) xadd w.streams in
        enqueue_all-fails e stream_id (evaluate_event_rules rt rules (data_of e) tenant)
          (record { streams = streams; jobs = w.jobs }) empty

    -- When an event is processed on an empty queue, every job that reaches the queue raises
    -- KeyError for `message` in the task `create_alert`, and the jobs leave the alerts and the
    -- notifications as they are.
    pub process_event-run_jobs :
        (w : World rt)
        → w.jobs ≡ []
        → let after =
            (process_event rt dumps show_id show_time rows rules xadd pool event tenant w).1 in
          run_jobs digest parse_uuid show redis ids after.jobs s
          ≡ (map (λ j. bad_job (key_error "message")) after.jobs, s)
    unfolding process_event
    process_event-run_jobs w empty = found_fails (find_event event tenant rows) w empty

  finish_task-fails :
      (f : Triggered → Job rt) (failure : Finished)
      → ((id : ℕ) (t : Triggered) (s : Store)
          → run_create_alert digest parse_uuid show redis id (f t) s ≡ (failure, s))
      → (evaluated : ℕ) (pool : ℕ → Enqueue) (result : Result (List Triggered)) (ids : ℕ → ℕ)
        (s : Store)
      → let jobs = (finish_task rt evaluated f pool result []).1 in
        run_jobs digest parse_uuid show redis ids jobs s ≡ (map (λ j. failure) jobs, s)
  unfolding finish_task run_jobs
  finish_task-fails f failure fails evaluated pool (err e) ids s = refl
  finish_task-fails f failure fails evaluated pool (ok ts) ids s =
      rw (enqueue_alerts-reached f pool 0 ts [])
        (run_jobs-fail f failure fails ids (reached f pool 0 ts) s)

  -- The jobs that the task for threshold rules hands to an empty queue all raise KeyError for
  -- `entity_type` in the task `create_alert`, and leave the alerts and the notifications as they are.
  pub threshold_rules_task-run_jobs :
      (factory : Factory) (rows : List Rule) (events : List Event) (now : ℕ) (rule_ids : List Ident)
      (pool : ℕ → Enqueue) (ids : ℕ → ℕ) (s : Store)
      → let jobs = (threshold_rules_task rt factory rows events now rule_ids pool []).1 in
        run_jobs digest parse_uuid show redis ids jobs s
        ≡ (map (λ j. bad_job (key_error "entity_type")) jobs, s)
  unfolding threshold_rules_task run_jobs
  threshold_rules_task-run_jobs Factory.absent rows events now rule_ids pool ids s = refl
  threshold_rules_task-run_jobs Factory.ready rows events now rule_ids pool ids s =
      elim (Option-cases (uuids_of rule_ids)) [
        | inl e ↦ rw (threshold_rules_task, e) refl
        | inr (uuids, e) ↦
            rw (threshold_rules_task, e)
              (finish_task-fails threshold_job (bad_job (key_error "entity_type"))
                threshold_job_fails (length uuids) pool
                (evaluate_threshold_rules rt rows events now none uuids) ids s)
      ]
