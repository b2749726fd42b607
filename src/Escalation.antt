-- ===== src/Escalation.antt =====
-- packages/domain/escalation.py. Times are whole seconds, so a comparison of minutes is one of
-- seconds; the clock, the local hour and the day are arguments. Ids are numbers.
pub mod Stages
pub mod Schedule
pub mod Grouping
pub mod EscalationTests
use operational_intelligence.Prelude.{
  ℕ, zero, suc, ◌+◌, ◌-◌, ◌*◌, ◌/◌, ◌%◌, String, Bool, true, false, ◌&&◌, ◌||◌, not, Option, some,
  none, List, [], ◌∷◌, ◌++◌, ◌==◌, if◌then◌else◌, str_eq, str_in, ltb, leb, length, get_elem?, map,
}
use operational_intelligence.Prelude.Int.{ℤ, sub_ℕ}

pub record EscalationStage : Type 0 where
  pub wait_minutes : ℕ
  pub channels : List String
  pub notify_role : Option String

pub record EscalationPolicy : Type 0 where
  pub severity_filter : List String
  pub stages : List EscalationStage

-- The dict of an alert; a field is `none` where the key is absent or its value is None.
pub record AlertData : Type 0 where
  pub id : ℕ
  pub entity_id : String
  pub rule_id : String
  pub severity : String
  pub status : Option String
  pub created_at : Option ℕ
  pub acknowledged_at : Option ℕ
  pub resolved_at : Option ℕ

-- The message is given by its parts.
pub record EscalationAction : Type 0 where
  pub stage : ℕ
  pub channels : List String
  pub notify_role : Option String
  pub unacknowledged_minutes : ℕ

-- elapsed_minutes >= stage.wait_minutes
abbrev pub is_due : (created now : ℕ) → EscalationStage → Bool
is_due created now stage = leb (created + stage.wait_minutes * 60) now

-- The loop over the stages from index `idx` on; `found` is the applicable stage so far.
unfoldable pub walk_stages :
    (created now : ℕ)
    → ℕ
    → Option (ℕ × EscalationStage)
    → List EscalationStage
    → Option (ℕ × EscalationStage)
walk_stages created now idx found [] = found
walk_stages created now idx found (stage ∷ stages) =
    walk_stages created now (suc idx)
      (if is_due created now stage then some (idx, stage) else found) stages

abbrev pub is_closed : Option String → Bool
is_closed none = false
is_closed (some s) = str_eq s "acknowledged" || str_eq s "resolved"

abbrev pub action_of : (created now : ℕ) → Option (ℕ × EscalationStage) → Option EscalationAction
action_of created now none = none
action_of created now (some (idx, stage)) = some (record {
  stage = idx;
  channels = stage.channels;
  notify_role = stage.notify_role;
  unacknowledged_minutes = (now - created) / 60;
})

abbrev pub is_filtered : AlertData → EscalationPolicy → Bool
is_filtered alert policy = elim policy.severity_filter [
  | [] ↦ false
  | s ∷ ss ↦ not (str_in alert.severity (s ∷ ss))
]

unfoldable pub check_escalation : (now : ℕ) → AlertData → EscalationPolicy → Option EscalationAction
unfolding walk_stages
check_escalation now alert policy =
    if is_filtered alert policy
    then none
    else if is_closed alert.status
    then none
    else elim alert.created_at [
      | none ↦ none
      | some created ↦ action_of created now (walk_stages created now 0 none policy.stages)
    ]

pub record QuietHours : Type 0 where
  pub start_hour : ℕ
  pub end_hour : ℕ
  pub severity_override : List String

unfoldable pub is_quiet_hours : (current_hour : ℕ) → QuietHours → Bool
is_quiet_hours hour q =
    if leb q.start_hour q.end_hour
    then leb q.start_hour hour && ltb hour q.end_hour
    else leb q.start_hour hour || ltb hour q.end_hour

unfoldable pub should_notify : (current_hour : ℕ) → AlertData → Option QuietHours → Bool
unfolding is_quiet_hours
should_notify hour alert none = true
should_notify hour alert (some q) =
    if str_in alert.severity q.severity_override then true else not (is_quiet_hours hour q)

pub data RotationType : Type 0 where
  daily weekly : RotationType

pub record OnCallRotation (Member : Type 0) : Type 0 where
  pub members : List Member
  pub current_index : ℕ
  pub rotation_type : RotationType

abbrev pub period_of : RotationType → (days_since_epoch : ℕ) → ℕ
period_of RotationType.daily days = days
period_of RotationType.weekly days = days / 7

-- `none` is the empty dict of a rotation without members.
unfoldable pub get_current_oncall :
    {Member : Type 0} → (days : ℕ) → OnCallRotation Member → Option Member
get_current_oncall days r =
    get_elem? r.members ((r.current_index + period_of r.rotation_type days) % length r.members)

pub record SlaMetrics : Type 0 where
  pub seconds_to_acknowledge : Option ℤ
  pub seconds_to_resolve : Option ℤ
  pub sla_target_seconds : ℕ
  pub breached : Bool

abbrev pub difference : Option ℕ → Option ℕ → Option ℤ
difference (some later) (some earlier) = some (sub_ℕ later earlier)
difference _ _ = none

-- SLATracker.track
unfoldable pub track : (now sla_target_seconds : ℕ) → Option AlertData → SlaMetrics
track now target none = record {
  seconds_to_acknowledge = none;
  seconds_to_resolve = none;
  sla_target_seconds = target;
  breached = false;
}
track now target (some alert) = record {
  seconds_to_acknowledge = difference alert.acknowledged_at alert.created_at;
  seconds_to_resolve = difference alert.resolved_at alert.created_at;
  sla_target_seconds = target;
  breached = elim alert.created_at [
    | none ↦ false
    | some created ↦ elim alert.resolved_at [
      | some resolved ↦ ltb (created + target) resolved
      | none ↦ ltb (created + target) now
    ]
  ];
}
