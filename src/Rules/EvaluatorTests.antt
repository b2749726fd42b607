-- ===== src/Rules/EvaluatorTests.antt =====
-- Runs of the rule evaluation over concrete rows.
use operational_intelligence.Prelude.{
  ℕ, String, true, ◌≡◌, refl, Option, some, none, List, [], ◌∷◌, ◌++◌, map, filter_by,
}
use operational_intelligence.Prelude.Int.{pos}
use operational_intelligence.Rules.Syntax.{Value, ok, err, overflow}
use operational_intelligence.Rules.Samples.{tiny, narrow}
use operational_intelligence.Rules.Parser.{or_expr}
use operational_intelligence.Rules.Eval.Facade.{evaluate_expression}
use operational_intelligence.Rules.State.{Stores, Links}
use operational_intelligence.Rules.State.Reads.{both_up}
use operational_intelligence.Rules.Evaluator.{
  RuleType, Rule, EventData, Triggered, selects_event, event_type_of, event_entry,
  evaluate_event_rules, evaluate_threshold_rules, build_event_context, threshold_context,
}
use operational_intelligence.Rules.Evaluator.Selected.{
  event_check, is_true, evaluate_event_rules_exact, evaluate_threshold_rules_escape,
}
use operational_intelligence.Rules.Evaluator.Composite.{
  CompositeState, key_of, composite_entry, Cleared, check_composite, fire_composite,
  fire_composite_escape,
}

abbrev rule : ℕ → ℕ → RuleType → String → Rule
rule id tenant type condition = record {
  id = id;
  tenant_id = tenant;
  rule_name = "rule";
  rule_type = type;
  trigger_event = elim type [ RuleType.event_triggered ↦ some "scan" | _ ↦ none ];
  condition_expression = condition;
  evaluation_window = none;
  severity = "high";
  action_type = "alert";
  enabled = true;
}

abbrev scan_event : EventData tiny
scan_event = record {
  event_type = some "scan";
  entity_type = none;
  entity_id = none;
  source_system = none;
  payload = some (("temperature", Value.int (pos 9)) ∷ []);
  metadata = none;
  metadata_ = none;
}

abbrev hot : Rule
hot = rule 1 1 RuleType.event_triggered "event.temperature > 8"

abbrev broken : Rule
broken = rule 2 1 RuleType.event_triggered "event.temperature >"

abbrev foreign : Rule
foreign = rule 3 2 RuleType.event_triggered "true"

abbrev event_rows : List Rule
event_rows = broken ∷ foreign ∷ hot ∷ []

evaluate_event_rules_exact_example :
    evaluate_event_rules tiny event_rows scan_event 1
    ≡ ok (
        map (event_entry tiny (event_type_of scan_event)) (
          filter_by
            (λ r. is_true (event_check tiny scan_event r))
            (filter_by (selects_event tiny 1 (event_type_of scan_event)) event_rows)))
unfolding evaluate_expression or_expr build_event_context
evaluate_event_rules_exact_example =
    evaluate_event_rules_exact tiny event_rows scan_event 1 (tt, (tt, tt))

event_rules_run :
    evaluate_event_rules tiny event_rows scan_event 1 ≡ ok (event_entry tiny "scan" hot ∷ [])
unfolding evaluate_event_rules evaluate_expression or_expr
event_rules_run = refl

abbrev frequent : Rule
frequent = rule 4 1 RuleType.threshold "event.count < 5"

abbrev overflowing : Rule
overflowing = rule 5 2 RuleType.threshold "threshold.window_seconds > '5'"

evaluate_threshold_rules_escape_example :
    evaluate_threshold_rules narrow
      ((frequent ∷ []) ++ overflowing ∷ (frequent ∷ []))
      []
      9000
      none
      []
    ≡ err overflow
unfolding evaluate_expression or_expr threshold_context
evaluate_threshold_rules_escape_example =
    evaluate_threshold_rules_escape narrow (frequent ∷ []) (frequent ∷ []) overflowing [] 9000
      overflow (tt, tt) refl refl tt

abbrev no_load : String → Option (CompositeState narrow)
no_load text = none

abbrev empty_stores : Stores
empty_stores = record { redis = λ _. none; pg = λ _. none; clock = 0 }

abbrev all_met : Rule
all_met = rule 6 1 RuleType.composite "composite.conditions_met_count == composite.conditions_total"

abbrev bad_composite : Rule
bad_composite = rule 7 1 RuleType.composite "2000 > '5'"

fire_composite_escape_example :
    ((fire_composite narrow no_load
        (λ _. both_up)
        (λ _. both_up)
        (all_met ∷ bad_composite ∷ [])
        empty_stores).0
      ≡ err overflow)
    × Cleared
        (key_of all_met)
        (fire_composite narrow no_load
          (λ _. both_up)
          (λ _. both_up)
          (all_met ∷ bad_composite ∷ [])
          empty_stores).1
unfolding check_composite evaluate_expression or_expr
fire_composite_escape_example =
    fire_composite_escape narrow no_load (λ _. both_up) all_met bad_composite [] empty_stores
      overflow refl refl tt

abbrev links : Rule → Links
links _ = both_up

abbrev fired : Triggered
fired = composite_entry narrow no_load links links all_met
