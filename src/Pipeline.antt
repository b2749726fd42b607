-- ===== src/Pipeline.antt =====
-- The path of an event to an alert: packages/events (the stream and the processor), and the
-- tasks of apps/workers/tasks that evaluate rules, take events in and create alerts. Jobs of the
-- ARQ queue are dicts, ids are numbers, and whether Redis answers is given for each call.
pub mod Stream
pub mod Processor
pub mod Jobs
pub mod Tasks
pub mod AlertTask
pub mod Lost
pub mod Retry
pub mod Batch
pub mod PipelineTests
use operational_intelligence.Prelude.{
  ℕ, zero, suc, ◌+◌, String, Bool, true, false, Option, some, none, List, [], ◌∷◌, ◌++◌,
}
use operational_intelligence.Prelude.Int.{pos}
use operational_intelligence.Prelude.Dict.{Dict, lookup}
use operational_intelligence.Rules.Syntax.{Runtime, Value}
use operational_intelligence.Rules.Evaluator.{Triggered}

-- A value of a job's dict: str() of a UUID, or another value.
pub data Item (rt : Runtime) : Type 0 where
  uuid : ℕ → Item rt
  value : Value rt → Item rt

abbrev pub Job : Runtime → Type 0
Job rt = Dict (Item rt)

-- What happens to one job: create_pool or enqueue_job raises, pool.close raises, or nothing does.
pub data Enqueue : Type 0 where
  refused close_failed enqueued : Enqueue

-- alerts_enqueued += 1, behind pool.close()
abbrev pub counted : Enqueue → ℕ
counted Enqueue.enqueued = 1
counted _ = 0

module _ {rt : Runtime} where
  abbrev pub text : String → Item rt
  text s = Item.value (Value.str s)

  abbrev pub count : ℕ → Item rt
  count n = Item.value (Value.int (pos n))

  -- event_data.get(key)
  abbrev pub get_item : Option (Value rt) → Item rt
  get_item none = Item.value Value.null
  get_item (some v) = Item.value v

  -- The keys that the three evaluations of a triggered rule share.
  abbrev rule_items : Triggered → Job rt
  rule_items t =
      ("rule_id", Item.uuid t.rule.id)
      ∷ ("rule_name", text t.rule.rule_name)
      ∷ ("severity", text t.rule.severity)
      ∷ ("action_type", text t.rule.action_type)
      ∷ []

  -- The job of an event rule, built from the event.
  unfoldable pub event_job :
      (tenant_id event_id : ℕ) → (event_type entity_type entity_id : Item rt) → Triggered → Job rt
  event_job tenant_id event_id event_type entity_type entity_id t =
      rule_items t
      ++ ("tenant_id", Item.uuid tenant_id)
        ∷ ("event_id", Item.uuid event_id)
        ∷ ("event_type", event_type)
        ∷ ("entity_type", entity_type)
        ∷ ("entity_id", entity_id)
        ∷ []

  -- The dict of a triggered threshold rule, which is its job.
  unfoldable pub threshold_job : Triggered → Job rt
  threshold_job t =
      rule_items t
      ++ ("tenant_id", Item.uuid t.rule.tenant_id)
        ∷ ("event_count", count t.event_count)
        ∷ ("window_seconds", count t.window_seconds)
        ∷ []

  -- The dict of a triggered composite rule, which is its job.
  unfoldable pub composite_job : Triggered → Job rt
  composite_job t =
      rule_items t
      ++ ("tenant_id", Item.uuid t.rule.tenant_id) ∷ ("window_seconds", count t.window_seconds) ∷ []

  -- The jobs in the queue, once one more is handed to it.
  abbrev pub delivered : Enqueue → Job rt → List (Job rt) → List (Job rt)
  delivered Enqueue.refused job jobs = jobs
  delivered _ job jobs = jobs ++ job ∷ []

  -- The loop over the triggered rules: each job that fails is logged and passed over.
  unfoldable pub enqueue_alerts :
      (Triggered → Job rt)
      → (ℕ → Enqueue)
      → (i : ℕ) → List Triggered
      → List (Job rt)
      → ℕ × List (Job rt)
  enqueue_alerts job pool i [] jobs = (0, jobs)
  enqueue_alerts job pool i (t ∷ ts) jobs =
      let (n, after) = enqueue_alerts job pool (suc i) ts (delivered (pool i) (job t) jobs) in
      (counted (pool i) + n, after)
