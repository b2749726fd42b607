-- ===== src/Pipeline/Retry.antt =====
-- apps/workers/tasks/alerts.py, `create_alert`: a job whose notification could not be enqueued, and
-- its next run.
use operational_intelligence.Prelude.{
  ℕ, ◌≡◌, refl, sym, ap, String, Bool, true, false, Option, some, none,
}
use operational_intelligence.Rules.Syntax.{Runtime}
use operational_intelligence.Alerts.{Alert, Outcome, done, not_found, integrity_error, create_alert}
use operational_intelligence.Alerts.Dedup.{create_alert_twice}
use operational_intelligence.Pipeline.{Item, Job}
use operational_intelligence.Pipeline.AlertTask.{
  Store, Redis, deduplicated, queue_error, read_arguments, complete, run_create_alert, call_service,
  Arguments, bad, arguments,
}

-- Only a new alert gets as far as the queue of notifications.
complete_unreachable :
    (texts : Bool) (id : ℕ) (store after : Store) (outcome : Outcome (Option Alert))
    → complete texts Redis.unreachable id outcome store ≡ (queue_error, after)
    → (a : Alert) × (outcome ≡ done (some a) after.alerts)
      × (after.notifications ≡ store.notifications)
unfolding complete
complete_unreachable texts id store after (done none table) e = cc e
complete_unreachable true id store after (done (some a) table) e =
    (a, ap (λ r. done (some a) r.1.alerts) e, sym (ap (λ r. r.1.notifications) e))
complete_unreachable false id store after (done (some a) table) e = cc e
complete_unreachable true id store after not_found e = cc e
complete_unreachable false id store after not_found e = cc e
complete_unreachable true id store after integrity_error e = cc e
complete_unreachable false id store after integrity_error e = cc e

module _ {rt : Runtime} (digest : ℕ → ℕ → String → ℕ → String) (parse_uuid : String → Option ℕ)
    (show : Item rt → String) where
  retry :
      (args : Arguments digest parse_uuid show) (id id' : ℕ) (redis : Redis) (store after : Store)
      → call_service digest parse_uuid show args Redis.unreachable id store ≡ (queue_error, after)
      → (after.notifications ≡ store.notifications)
        × (call_service digest parse_uuid show args redis id' after ≡ (deduplicated, after))
  unfolding call_service
  retry (bad failure) id id' redis store after e = cc e
  retry (arguments n texts) id id' redis store after e =
      let (a, inserted, kept) =
        complete_unreachable texts id store after (create_alert digest id n store.alerts) e in
      let again = create_alert_twice digest id n store.alerts a after.alerts id' inserted in
      (kept, rw again refl)

  -- When the queue does not take the notification of a new alert, the task raises with the alert
  -- in the table and no notification waiting, and the next run of the same job, whatever the
  -- queue does then, reports a duplicate and changes nothing: the notification is never enqueued.
  pub run_create_alert-retry :
      (job : Job rt) (id id' : ℕ) (redis : Redis) (store after : Store)
      → run_create_alert digest parse_uuid show Redis.unreachable id job store
        ≡ (queue_error, after)
      → (after.notifications ≡ store.notifications)
        × (run_create_alert digest parse_uuid show redis id' job after ≡ (deduplicated, after))
  unfolding run_create_alert
  run_create_alert-retry job id id' redis store after e =
      retry (read_arguments digest parse_uuid show job) id id' redis store after e
