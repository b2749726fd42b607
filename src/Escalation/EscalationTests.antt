-- ===== src/Escalation/EscalationTests.antt =====
-- Escalation, quiet hours, rotation and SLA of concrete alerts.
use operational_intelligence.Prelude.{ℕ, String, ◌≡◌, refl, ◌⊎◌, some, none, [], ◌∷◌}
use operational_intelligence.Escalation.{
  EscalationStage, EscalationPolicy, AlertData, EscalationAction, action_of, check_escalation,
  QuietHours, RotationType, OnCallRotation,
}
use operational_intelligence.Escalation.Stages.{IsOpen, NoneDue, IsLastDue, check_escalation_last}
use operational_intelligence.Prelude.{map, List}
use operational_intelligence.Escalation.Grouping.{
  AlertGroup, group_alerts, occurs_in_groups, occurs_in_alerts, group_alerts-occurs,
}

abbrev stage : ℕ → EscalationStage
stage wait = record { wait_minutes = wait; channels = "email" ∷ []; notify_role = none }

abbrev policy : EscalationPolicy
policy = record { severity_filter = "high" ∷ []; stages = stage 5 ∷ stage 30 ∷ [] }

abbrev open_alert : AlertData
open_alert = record {
  id = 1;
  entity_id = "p1";
  rule_id = "r1";
  severity = "high";
  status = some "active";
  created_at = some 1000;
  acknowledged_at = none;
  resolved_at = none;
}

abbrev is_open : IsOpen open_alert policy 1000
is_open = record { matches = refl; not_closed = refl; dated = refl }

check_escalation_last_example :
    NoneDue 1000 1400 policy.stages × (check_escalation 1400 open_alert policy ≡ none)
    ⊎ ((k : ℕ) × (s : EscalationStage) × IsLastDue 1000 1400 policy.stages k s
        × (check_escalation 1400 open_alert policy ≡ action_of 1000 1400 (some (k, s))))
check_escalation_last_example = check_escalation_last 1400 1000 open_alert policy is_open

abbrev first_action : EscalationAction
first_action = record {
  stage = 0;
  channels = "email" ∷ [];
  notify_role = none;
  unacknowledged_minutes = 6;
}

abbrev night : QuietHours
night = record { start_hour = 22; end_hour = 6; severity_override = [] }

abbrev rotation : OnCallRotation String
rotation = record {
  members = "ann" ∷ "bob" ∷ "cyd" ∷ [];
  current_index = 1;
  rotation_type = RotationType.weekly;
}

abbrev grouped : List AlertData
grouped =
    record open_alert { id = 3; created_at = some 9000 }
    ∷ open_alert
    ∷ record open_alert { id = 2; created_at = some 1200 }
    ∷ record open_alert { id = 4; rule_id = "r2" }
    ∷ []

-- Two groups of the first rule, as its alerts have a gap, and one of the second.
groups_run :
    map (λ (g : AlertGroup). g.alert_ids) (group_alerts grouped 30)
    ≡ (1 ∷ 2 ∷ []) ∷ (3 ∷ []) ∷ (4 ∷ []) ∷ []
unfolding group_alerts
groups_run = refl

group_alerts-occurs_example :
    occurs_in_groups 2 (group_alerts grouped 30) ≡ occurs_in_alerts 2 grouped
group_alerts-occurs_example = group_alerts-occurs 2 grouped 30
