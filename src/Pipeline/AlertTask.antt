-- ===== src/Pipeline/AlertTask.antt =====
-- apps/workers/tasks/alerts.py: the tasks `create_alert`, over the table of the alert service, and
-- `send_notification`. A text that is a UUID is read by `parse_uuid`, and a value is put into a text by
-- `show`.
use operational_intelligence.Prelude.{
  ℕ, suc, String, Bool, true, false, ◌&&◌, Option, some, none, List, [], ◌∷◌, ◌++◌,
}
use operational_intelligence.Prelude.Int.{pos}
use operational_intelligence.Prelude.Dict.{Dict, lookup, insert}
use operational_intelligence.Rules.Syntax.{Runtime, Value}
use operational_intelligence.Alerts.{
  Alert, NewAlert, Table, Outcome, done, not_found, integrity_error, create_alert,
}
use operational_intelligence.Pipeline.{Item, Job}

-- What the context of the worker holds: no Redis, one that takes the job, one that does not.
pub data Redis : Type 0 where
  missing reachable unreachable : Redis

-- The rows of alerts and the jobs of `send_notification`.
pub record Store : Type 0 where
  pub alerts : Table
  pub notifications : List (ℕ × List String)

-- KeyError with its key, and the ValueError of UUID().
pub data BadJob : Type 0 where
  key_error : String → BadJob
  value_error : BadJob

-- What the task returns (`created`, `deduplicated`) or raises: an error of the job's dict, the refusal of a column that is no text, IntegrityError (`duplicate_key`), and the queue's
-- error.
pub data Finished : Type 0 where
  created : ℕ → Finished
  deduplicated : Finished
  bad_job : BadJob → Finished
  data_error duplicate_key queue_error : Finished

-- The notification job of a new alert.
abbrev pub notify : Redis → ℕ → Store → Finished × Store
notify missing id s = (created id, s)
notify reachable id s =
    (created id, record s { notifications = s.notifications ++ (id, "email" ∷ "slack" ∷ []) ∷ [] })
notify unreachable id s = (queue_error, s)

-- The part behind the service; it never answers `not_found`.
unfoldable pub complete :
    (texts : Bool) → Redis → ℕ → Outcome (Option Alert) → Store → Finished × Store
complete texts redis id (done none table) s = (deduplicated, s)
complete true redis id (done (some a) table) s = notify redis id (record s { alerts = table })
complete true redis id not_found s = (duplicate_key, s)
complete true redis id integrity_error s = (duplicate_key, s)
complete false redis id outcome s = (data_error, s)

module _ {rt : Runtime} (digest : ℕ → ℕ → String → ℕ → String) (parse_uuid : String → Option ℕ)
    (show : Item rt → String) where
  -- UUID(str(x))
  abbrev pub to_uuid : Item rt → Option ℕ
  to_uuid (Item.uuid n) = some n
  to_uuid (Item.value (Value.str s)) = parse_uuid s
  to_uuid (Item.value v) = none

  abbrev pub is_text : Item rt → Bool
  is_text (Item.uuid n) = true
  is_text (Item.value (Value.str s)) = true
  is_text (Item.value v) = false

  -- alert_data.get("evaluation_window"): an int that is not negative, or None
  abbrev pub window : Option (Item rt) → Option ℕ
  window (some (Item.value (Value.int (pos n)))) = some n
  window w = none

  -- The arguments of the service's `create_alert`, read in their order.
  pub data Arguments : Type 0 where
    arguments : NewAlert → (texts : Bool) → Arguments
    bad : BadJob → Arguments

  -- alert_data[key], and then `next`
  abbrev pub required : String → Job rt → (Item rt → Arguments) → Arguments
  required key job next = elim (lookup key job) [ none ↦ bad (key_error key) | some x ↦ next x ]

  abbrev pub required_uuid : String → Job rt → (ℕ → Arguments) → Arguments
  required_uuid key job next =
      required key job (λ x. elim (to_uuid x) [ none ↦ bad value_error | some n ↦ next n ])

  -- The arguments of the service, in the order in which the call evaluates them.
  unfoldable pub read_arguments : Job rt → Arguments
  unfolding lookup
  read_arguments job = required_uuid "tenant_id" job λ tenant. required_uuid "rule_id" job λ rule.
      required "entity_type" job λ entity_type. required "entity_id" job λ entity_id.
        required "severity" job λ severity. required "message" job λ message.
          arguments
            (record {
              tenant_id = tenant;
              rule_id = rule;
              entity_type = show entity_type;
              entity_id = show entity_id;
              severity = show severity;
              message = show message;
              evaluation_window = window (lookup "evaluation_window" job);
            })
            ((is_text entity_type && is_text entity_id) && (is_text severity && is_text message))

  -- The service's call, once its arguments are read.
  unfoldable pub call_service : Arguments → Redis → (id : ℕ) → Store → Finished × Store
  unfolding complete create_alert
  call_service (bad failure) redis id s = (bad_job failure, s)
  call_service (arguments n texts) redis id s =
      complete texts redis id (create_alert digest id n s.alerts) s

  unfoldable pub run_create_alert : Redis → (id : ℕ) → Job rt → Store → Finished × Store
  unfolding read_arguments call_service
  run_create_alert redis id job s = call_service (read_arguments job) redis id s

  -- The jobs of a queue, one after the other, each with the id of its new row.
  unfoldable pub run_jobs : Redis → (ids : ℕ → ℕ) → List (Job rt) → Store → List Finished × Store
  unfolding run_create_alert
  run_jobs redis ids [] s = ([], s)
  run_jobs redis ids (job ∷ jobs) s =
      let (f, after) = run_create_alert redis (ids 0) job s in
      let (fs, last) = run_jobs redis (λ i. ids (suc i)) jobs after in (f ∷ fs, last)

-- results[channel] of `send_notification`: a log line for each channel, which is taken for sent.
unfoldable pub send_notification : List String → Dict String → Dict String
unfolding insert
send_notification [] results = results
send_notification (channel ∷ channels) results =
    send_notification channels (insert channel "sent" results)
