-- ===== src/Pipeline/Processor.antt =====
-- packages/events/processor.py, class `EventProcessor`: one event goes to its tenant's stream and
-- through the event rules, and each triggered rule becomes a job. Texts of ids and times are given by
-- `show_id` and `show_time`.
use operational_intelligence.Prelude.{
  ℕ, String, ◌&&◌, Option, some, none, List, [], ◌∷◌, ◌==◌, length, if◌then◌else◌,
}
use operational_intelligence.Prelude.Dict.{Dict}
use operational_intelligence.Rules.Syntax.{Runtime, Value, Error, Result, ok, err}
use operational_intelligence.Rules.Eval.{Context}
use operational_intelligence.Rules.Evaluator.{Rule, EventData, Triggered, evaluate_event_rules}
use operational_intelligence.Pipeline.{Job, Enqueue, text, event_job, enqueue_alerts}
use operational_intelligence.Pipeline.Stream.{Streams, append}

-- A row of packages/db/models/event.py, with the columns that the processor reads.
pub record EventRow (rt : Runtime) : Type 0 where
  pub id : ℕ
  pub tenant_id : ℕ
  pub event_type : String
  pub entity_type : String
  pub entity_id : String
  pub source_system : String
  pub payload : Option (Context rt)
  pub metadata : Option (Context rt)
  pub occurred_at : ℕ

-- A value of the dict of an event.
pub data Field (rt : Runtime) : Type 0 where
  plain : Value rt → Field rt
  object : Context rt → Field rt

-- The streams and the jobs that wait in the queue.
pub record World (rt : Runtime) : Type 0 where
  pub streams : Streams
  pub jobs : List (Job rt)

-- What `process_event` returns, or the exception of the rule evaluation.
pub data Report : Type 0 where
  event_not_found : Report
  raised : Error → Report
  processed :
      (stream_id : Option String) → (rules_matched alerts_enqueued : ℕ) → List Triggered → Report

module _ {rt : Runtime} where
  -- the SELECT by the id and the tenant
  unfoldable pub find_event : (event_id tenant_id : ℕ) → List (EventRow rt) → Option (EventRow rt)
  find_event event_id tenant_id [] = none
  find_event event_id tenant_id (e ∷ rows) =
      let rest = find_event event_id tenant_id rows in
      if (e.id == event_id) && (e.tenant_id == tenant_id) then some e else rest

  -- x or {}
  abbrev pub or_empty : Option (Context rt) → Context rt
  or_empty none = []
  or_empty (some d) = d

  -- The dict as `evaluate_event_rules` reads it.
  abbrev pub data_of : EventRow rt → EventData rt
  data_of e = record {
    event_type = some e.event_type;
    entity_type = some (Value.str e.entity_type);
    entity_id = some (Value.str e.entity_id);
    source_system = some (Value.str e.source_system);
    payload = some (or_empty e.payload);
    metadata = some (or_empty e.metadata);
    metadata_ = none;
  }

  module _ (show_id show_time : ℕ → String) where
    -- The dict as it is written to the stream.
    abbrev pub event_fields : EventRow rt → Dict (Field rt)
    event_fields e =
        ("id", Field.plain (Value.str (show_id e.id)))
        ∷ ("event_type", Field.plain (Value.str e.event_type))
        ∷ ("entity_type", Field.plain (Value.str e.entity_type))
        ∷ ("entity_id", Field.plain (Value.str e.entity_id))
        ∷ ("source_system", Field.plain (Value.str e.source_system))
        ∷ ("payload", Field.object (or_empty e.payload))
        ∷ ("metadata", Field.object (or_empty e.metadata))
        ∷ ("occurred_at", Field.plain (Value.str (show_time e.occurred_at)))
        ∷ []

  abbrev pub event_row_job : EventRow rt → (tenant_id event_id : ℕ) → Triggered → Job rt
  event_row_job e tenant_id event_id =
      event_job tenant_id event_id (text e.event_type) (text e.entity_type) (text e.entity_id)

module _ (rt : Runtime) (dumps : Dict (Field rt) → String) (show_id show_time : ℕ → String) where
  -- The part behind the evaluation of the rules.
  unfoldable pub enqueue_all :
      EventRow rt
      → (tenant_id event_id : ℕ) → Option String
      → (ℕ → Enqueue)
      → Result (List Triggered)
      → World rt
      → Report × World rt
  unfolding enqueue_alerts
  enqueue_all e tenant_id event_id stream_id pool (err x) w = (raised x, w)
  enqueue_all e tenant_id event_id stream_id pool (ok triggered) w =
      let (n, jobs) = enqueue_alerts (event_row_job e tenant_id event_id) pool 0 triggered w.jobs in
      (processed stream_id (length triggered) n triggered, record w { jobs = jobs })

  -- The part behind the SELECT; an append that raises leaves no message and no id.
  unfoldable pub process_found :
      List Rule
      → Option String
      → (ℕ → Enqueue)
      → (event_id tenant_id : ℕ) → Option (EventRow rt)
      → World rt
      → Report × World rt
  unfolding append enqueue_all
  process_found rules xadd pool event_id tenant_id none w = (event_not_found, w)
  process_found rules xadd pool event_id tenant_id (some e) w =
      let (stream_id, streams) =
        append dumps tenant_id (event_fields show_id show_time e) xadd w.streams in
      enqueue_all e tenant_id event_id stream_id pool
        (evaluate_event_rules rt rules (data_of e) tenant_id) (record w { streams = streams })

  -- `xadd` is the id that Redis gives the message, `none` where it does not answer.
  unfoldable pub process_event :
      List (EventRow rt)
      → List Rule
      → (xadd : Option String) → (pool : ℕ → Enqueue) → (event_id tenant_id : ℕ) → World rt
      → Report × World rt
  unfolding find_event process_found
  process_event rows rules xadd pool event_id tenant_id w =
      process_found rules xadd pool event_id tenant_id (find_event event_id tenant_id rows) w
