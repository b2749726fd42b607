-- ===== src/Rules/Evaluator.antt =====
-- packages/rules/evaluator.py, class `RuleEvaluator`, over the rows of the tables `rules` and
-- `events`. Ids are numbers, times are seconds, and a row's evaluation window is no negative number.
pub mod Selected
pub mod Composite
use Prim.Native.String.{◌++◌}
use operational_intelligence.Prelude.{
  ℕ, ◌+◌, ◌-◌, String, Bool, true, false, ◌&&◌, not, Option, some, none, List, [], ◌∷◌, ◌==◌, leb,
  if◌then◌else◌, str_eq, filter_by, length, any_of,
}
use operational_intelligence.Prelude.Int.{ℤ, pos}
use operational_intelligence.Prelude.Dict.{Dict, insert}
use operational_intelligence.Rules.Syntax.{Runtime, Value, Result, ok, err, invalid, ◌>>=◌}
use operational_intelligence.Rules.Eval.{Context, truthy}
use operational_intelligence.Rules.Eval.Facade.{evaluate_expression}

pub data RuleType : Type 0 where
  event_triggered threshold composite : RuleType

abbrev pub is_type : RuleType → RuleType → Bool
is_type RuleType.event_triggered RuleType.event_triggered = true
is_type RuleType.threshold RuleType.threshold = true
is_type RuleType.composite RuleType.composite = true
is_type _ _ = false

-- a row of packages/db/models/rule.py
pub record Rule : Type 0 where
  pub id : ℕ
  pub tenant_id : ℕ
  pub rule_name : String
  pub rule_type : RuleType
  pub trigger_event : Option String
  pub condition_expression : String
  pub evaluation_window : Option ℕ
  pub severity : String
  pub action_type : String
  pub enabled : Bool

-- The columns of packages/db/models/event.py that the threshold query reads.
pub record Event : Type 0 where
  pub tenant_id : ℕ
  pub event_type : String
  pub occurred_at : ℕ

-- The dict of an event. A field is `none` where the key is absent.
pub record EventData (rt : Runtime) : Type 0 where
  pub event_type : Option String
  pub entity_type : Option (Value rt)
  pub entity_id : Option (Value rt)
  pub source_system : Option (Value rt)
  pub payload : Option (Context rt)
  pub metadata : Option (Context rt)
  pub metadata_ : Option (Context rt)

-- One entry of the list of triggered rules: the rule, and what the caller adds to it.
pub record Triggered : Type 0 where
  pub rule : Rule
  pub event_type : String
  pub event_count : ℕ
  pub window_seconds : ℕ

module _ {rt : Runtime} where
  -- if key in event_data: context[f"event.{key}"] = event_data[key]
  abbrev add_field : String → Option (Value rt) → Context rt → Context rt
  add_field key none context = context
  add_field key (some v) context = insert key v context

  -- for key, value in items: context[f"{prefix}{key}"] = value
  unfoldable pub add_all : String → Dict (Value rt) → Context rt → Context rt
  unfolding insert
  add_all prefix [] context = context
  add_all prefix ((key, v) ∷ items) context =
      add_all prefix items (insert (prefix ++ key) v context)

  -- `d.get(key) or other`, for a key that holds a dict
  abbrev pub or_else : Option (Context rt) → Context rt → Context rt
  or_else none other = other
  or_else (some []) other = other
  or_else (some (x ∷ xs)) other = x ∷ xs

  abbrev pub text_value : Option String → Option (Value rt)
  text_value none = none
  text_value (some s) = some (Value.str s)

  unfoldable pub build_event_context : EventData rt → Context rt
  unfolding add_all insert
  build_event_context e =
      let top = add_field "event.source_system" e.source_system (
        add_field "event.entity_id" e.entity_id (
          add_field "event.entity_type" e.entity_type
            (add_field "event.event_type" (text_value e.event_type) []))) in
      let with_payload = add_all "event." (or_else e.payload []) top in
      add_all "meta." (or_else e.metadata (or_else e.metadata_ [])) with_payload

-- event_data.get("event_type", "")
abbrev pub event_type_of : {rt : Runtime} → EventData rt → String
event_type_of e = elim e.event_type [ some s ↦ s | none ↦ "" ]

abbrev pub opt_eq : Option String → String → Bool
opt_eq none s = false
opt_eq (some t) s = str_eq t s

-- rule.evaluation_window or 3600
abbrev pub window_of : Rule → ℕ
window_of r = elim r.evaluation_window [ none ↦ 3600 | some w ↦ if w == 0 then 3600 else w ]

-- The loops over the rows. A rule that raises ExpressionValidationError is passed over; any other
-- exception ends the loop.
abbrev pub keep_if : Triggered → Result Bool → Result (List Triggered) → Result (List Triggered)
keep_if t (ok true) rest = rest >>= λ more. ok (t ∷ more)
keep_if t (ok false) rest = rest
keep_if t (err (invalid p)) rest = rest
keep_if t (err e) rest = err e

unfoldable pub fire_all :
    (Rule → Result Bool) → (Rule → Triggered) → List Rule → Result (List Triggered)
fire_all check entry [] = ok []
fire_all check entry (r ∷ rs) = keep_if (entry r) (check r) (fire_all check entry rs)

module _ (rt : Runtime) where
  -- the WHERE clause of the event rules
  abbrev pub selects_event : ℕ → String → Rule → Bool
  selects_event tenant event_type r =
      (r.tenant_id == tenant)
      && (is_type r.rule_type RuleType.event_triggered
          && (r.enabled && opt_eq r.trigger_event event_type))

  abbrev pub event_entry : String → Rule → Triggered
  event_entry event_type r = record {
    rule = r;
    event_type = event_type;
    event_count = 0;
    window_seconds = 0;
  }

  unfoldable pub evaluate_event_rules :
      List Rule → EventData rt → (tenant_id : ℕ) → Result (List Triggered)
  unfolding fire_all build_event_context
  evaluate_event_rules rows event_data tenant_id =
      let event_type = event_type_of event_data in
      let context = build_event_context event_data in
      fire_all (λ r. evaluate_expression rt r.condition_expression context) (event_entry event_type)
        (filter_by (selects_event tenant_id event_type) rows)

  -- the optional restrictions to a tenant and to ids
  abbrev pub in_scope : Option ℕ → List ℕ → Rule → Bool
  in_scope tenant ids r =
      elim tenant [ none ↦ true | some t ↦ r.tenant_id == t ]
      && elim ids [ [] ↦ true | i ∷ is ↦ any_of (λ j. j == r.id) (i ∷ is) ]

  abbrev pub selects : RuleType → Option ℕ → List ℕ → Rule → Bool
  selects type tenant ids r = is_type r.rule_type type && (r.enabled && in_scope tenant ids r)

  -- the COUNT query of a threshold rule
  abbrev pub counts : ℕ → Rule → Event → Bool
  counts now r e =
      (e.tenant_id == r.tenant_id)
      && (leb now (e.occurred_at + window_of r) && elim r.trigger_event [
        | none ↦ true
        | some t ↦ if str_eq t "" then true else str_eq e.event_type t
      ])

  unfoldable pub count_events : ℕ → List Event → Rule → ℕ
  count_events now events r = length (filter_by (counts now r) events)

  unfoldable pub threshold_context : ℕ → List Event → Rule → Context rt
  unfolding count_events
  threshold_context now events r =
      let n = Value.int (pos (count_events now events r)) in
      ("event.count", n)
      ∷ ("threshold.count", n)
      ∷ ("threshold.window_seconds", Value.int (pos (window_of r)))
      ∷ []

  abbrev pub threshold_entry : ℕ → List Event → Rule → Triggered
  threshold_entry now events r = record {
    rule = r;
    event_type = "";
    event_count = count_events now events r;
    window_seconds = window_of r;
  }

  unfoldable pub evaluate_threshold_rules :
      List Rule → List Event → (now : ℕ) → Option ℕ → List ℕ → Result (List Triggered)
  unfolding fire_all threshold_context
  evaluate_threshold_rules rows events now tenant_id rule_ids =
      fire_all (λ r. evaluate_expression rt r.condition_expression (threshold_context now events r))
        (threshold_entry now events)
        (filter_by (selects RuleType.threshold tenant_id rule_ids) rows)
