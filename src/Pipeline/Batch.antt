-- ===== src/Pipeline/Batch.antt =====
-- apps/workers/tasks/ingestion.py, `batch_process_events`: each event by itself.
use operational_intelligence.Prelude.{
  ℕ, suc, ◌+◌, ◌≡◌, refl, String, Option, List, [], ◌∷◌, length, length-append, arith, ◌⊎◌, inl,
  inr,
}
use operational_intelligence.Prelude.Dict.{Dict}
use operational_intelligence.Rules.Syntax.{Runtime}
use operational_intelligence.Rules.Evaluator.{Rule}
use operational_intelligence.Pipeline.{Enqueue}
use operational_intelligence.Pipeline.Processor.{EventRow, Field, World, Report}
use operational_intelligence.Pipeline.Tasks.{
  Factory, Failure, Ingested, Batch, add_outcome, process_event_task, batch_loop,
  batch_process_events,
}

module _ (rt : Runtime) (dumps : Dict (Field rt) → String) (show_id show_time : ℕ → String)
    (rows : List (EventRow rt)) (rules : List Rule) (xadd : ℕ → Option String)
    (pool : ℕ → ℕ → Enqueue) where
  add_outcome-counts :
      (outcome : Failure ⊎ Report) (b : Batch)
      → let b' = add_outcome outcome b in
        (b'.processed + b'.failed ≡ suc (b.processed + b.failed))
        × (b.processed ≡ length b.results → b'.processed ≡ length b'.results)
  add_outcome-counts (inl x) b = (omega arith, λ h. h)
  add_outcome-counts (inr x) b =
      (omega arith, λ h. omega (arith, h, length-append b.results (x ∷ [])))

  batch_loop-counts :
      (factory : Factory) (i : ℕ) (events : List Ingested) (b : Batch) (w : World rt)
      → b.processed ≡ length b.results
      → let after =
          (batch_loop rt dumps show_id show_time rows rules xadd pool factory i events b w).0 in
        (after.processed + after.failed ≡ b.processed + b.failed + length events)
        × (after.processed ≡ length after.results)
  unfolding batch_loop
  batch_loop-counts factory i [] b w h = (omega arith, h)
  batch_loop-counts factory i (e ∷ events) b w h =
      let (outcome, after) =
        process_event_task rt dumps show_id show_time rows rules xadd pool factory i e w in
      let (total, matched) = add_outcome-counts outcome b in
      let (rest, results) =
        batch_loop-counts factory (suc i) events (add_outcome outcome b) after (matched h) in
      (omega (arith, total, rest), results)

  -- A batch counts each event once, as processed or as failed, and returns a report for each
  -- processed one.
  pub batch_process_events-counts :
      (factory : Factory) (events : List Ingested) (w : World rt)
      → let b =
          (batch_process_events rt dumps show_id show_time rows rules xadd pool factory events
            w).0 in
        (b.processed + b.failed ≡ length events) × (b.processed ≡ length b.results)
  unfolding batch_process_events
  batch_process_events-counts factory events w =
      let (total, results) =
        batch_loop-counts factory 0 events (record { processed = 0; failed = 0; results = [] }) w
          refl in
      (omega (arith, total), results)
