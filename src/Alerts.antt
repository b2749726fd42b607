-- ===== src/Alerts.antt =====
-- packages/domain/alert_service.py, class `AlertService`, over the rows of the table `alerts`
-- (packages/db/models/alert.py) with its constraint: no two rows of a tenant share a dedup key.
-- The digest of the dedup key is the parameter `digest` of the tenant, the rule, the entity and the
-- evaluation window; ids of new rows are given by the caller, as the database gives them.
pub mod Dedup
pub mod Lifecycle
pub mod AlertsTests
use operational_intelligence.Prelude.{
  ℕ, zero, suc, ◌+◌, String, Bool, true, false, ◌&&◌, Option, some, none, List, [], ◌∷◌, ◌++◌, ◌==◌,
  if◌then◌else◌, str_eq, any_of, filter_by, length,
}

pub data AlertStatus : Type 0 where
  active acknowledged resolved suppressed : AlertStatus

abbrev pub status_eq : AlertStatus → AlertStatus → Bool
status_eq AlertStatus.active AlertStatus.active = true
status_eq AlertStatus.acknowledged AlertStatus.acknowledged = true
status_eq AlertStatus.resolved AlertStatus.resolved = true
status_eq AlertStatus.suppressed AlertStatus.suppressed = true
status_eq _ _ = false

pub record Alert : Type 0 where
  pub id : ℕ
  pub tenant_id : ℕ
  pub rule_id : ℕ
  pub entity_type : String
  pub entity_id : String
  pub severity : String
  pub status : AlertStatus
  pub message : String
  pub dedup_key : String
  pub acknowledged_by : Option ℕ
  pub resolved_at : Option ℕ

abbrev pub Table : Type 0
Table = List Alert

-- the arguments of `create_alert`
pub record NewAlert : Type 0 where
  pub tenant_id : ℕ
  pub rule_id : ℕ
  pub entity_type : String
  pub entity_id : String
  pub severity : String
  pub message : String
  pub evaluation_window : Option ℕ

-- What a call returns or raises, with the table that it leaves.
pub data Outcome (A : Type 0) : Type 0 where
  done : A → Table → Outcome A
  -- ResourceNotFoundError
  not_found : Outcome A
  -- IntegrityError of `uq_alerts_tenant_dedup`
  integrity_error : Outcome A

abbrev pub has_key : ℕ → String → Alert → Bool
has_key tenant key a = (a.tenant_id == tenant) && str_eq a.dedup_key key

abbrev pub has_active_key : ℕ → String → Alert → Bool
has_active_key tenant key a = has_key tenant key a && status_eq a.status AlertStatus.active

-- INSERT under the constraint
unfoldable pub insert_alert : Alert → Table → Outcome (Option Alert)
insert_alert a table =
    if any_of (has_key a.tenant_id a.dedup_key) table
    then integrity_error
    else done (some a) (table ++ a ∷ [])

module _ (digest : ℕ → ℕ → String → ℕ → String) where
  abbrev pub key_of : NewAlert → String
  key_of n =
      digest n.tenant_id n.rule_id n.entity_id (elim n.evaluation_window [ none ↦ 0 | some w ↦ w ])

  abbrev pub new_row : ℕ → NewAlert → Alert
  new_row id n = record {
    id = id;
    tenant_id = n.tenant_id;
    rule_id = n.rule_id;
    entity_type = n.entity_type;
    entity_id = n.entity_id;
    severity = n.severity;
    status = AlertStatus.active;
    message = n.message;
    dedup_key = key_of n;
    acknowledged_by = none;
    resolved_at = none;
  }

  unfoldable pub create_alert : ℕ → NewAlert → Table → Outcome (Option Alert)
  unfolding insert_alert
  create_alert id n table =
      if any_of (has_active_key n.tenant_id (key_of n)) table
      then done none table
      else insert_alert (new_row id n) table

abbrev pub is_row : ℕ → ℕ → Alert → Bool
is_row alert_id tenant_id a = (a.id == alert_id) && (a.tenant_id == tenant_id)

-- The first row that fits, changed by `f`: `_load_alert`, the assignments and the commit.
unfoldable pub change_row : (Alert → Bool) → (Alert → Alert) → Table → Option (Alert × Table)
change_row p f [] = none
change_row p f (a ∷ rows) =
    let rest = change_row p f rows in
    elim (p a) [
      | true ↦ some (f a, f a ∷ rows)
      | false ↦ elim rest [ some (b, rows') ↦ some (b, a ∷ rows') | none ↦ none ]
    ]

abbrev pub loaded : Option (Alert × Table) → Outcome Alert
loaded none = not_found
loaded (some (a, rows)) = done a rows

abbrev pub acknowledge : ℕ → Alert → Alert
acknowledge user a = record a { status = AlertStatus.acknowledged; acknowledged_by = some user }

abbrev pub resolve : ℕ → Alert → Alert
resolve now a = record a { status = AlertStatus.resolved; resolved_at = some now }

unfoldable pub acknowledge_alert : (alert_id tenant_id user_id : ℕ) → Table → Outcome Alert
unfolding change_row
acknowledge_alert alert_id tenant_id user_id table =
    loaded (change_row (is_row alert_id tenant_id) (acknowledge user_id) table)

unfoldable pub resolve_alert : (alert_id tenant_id now : ℕ) → Table → Outcome Alert
unfolding change_row
resolve_alert alert_id tenant_id now table =
    loaded (change_row (is_row alert_id tenant_id) (resolve now) table)

-- The rows of `get_active_alerts`; their order is the database's.
unfoldable pub get_active_alerts : ℕ → Option String → Table → List Alert
get_active_alerts tenant severity table =
    filter_by
      (λ a.
        ((a.tenant_id == tenant) && status_eq a.status AlertStatus.active)
        && elim severity [ none ↦ true | some s ↦ str_eq a.severity s ])
      table

unfoldable pub count_status : ℕ → AlertStatus → Table → ℕ
count_status tenant status table =
    length (filter_by (λ a. (a.tenant_id == tenant) && status_eq a.status status) table)

unfoldable pub count_severity : ℕ → String → Table → ℕ
count_severity tenant severity table =
    length (filter_by (λ a. (a.tenant_id == tenant) && str_eq a.severity severity) table)

pub record AlertStats : Type 0 where
  pub total : ℕ
  pub active : ℕ
  pub acknowledged : ℕ
  pub resolved : ℕ
  pub critical : ℕ
  pub high : ℕ
  pub medium : ℕ
  pub low : ℕ

-- `total` is the sum of the counts of all statuses.
unfoldable pub get_alert_stats : ℕ → Table → AlertStats
unfolding count_status count_severity
get_alert_stats tenant table = record {
  total =
      count_status tenant AlertStatus.active table
      + count_status tenant AlertStatus.acknowledged table
      + count_status tenant AlertStatus.resolved table
      + count_status tenant AlertStatus.suppressed table;
  active = count_status tenant AlertStatus.active table;
  acknowledged = count_status tenant AlertStatus.acknowledged table;
  resolved = count_status tenant AlertStatus.resolved table;
  critical = count_severity tenant "critical" table;
  high = count_severity tenant "high" table;
  medium = count_severity tenant "medium" table;
  low = count_severity tenant "low" table;
}
