-- ===== src/Edge/LocalRules.antt =====
-- apps/edge-agent/agent.py, `evaluate_local_rules`, over the rules of the configuration. An event is
-- a dict of values (packages/rules/expression_parser.py has the same). `as_dict` is a value's items
-- where it is a dict, `json_loads` reads a text (`none`: JSONDecodeError), `now` is the time's text.
use operational_intelligence.Prelude.{
  String, Bool, true, false, not, Option, some, none, List, [], ◌∷◌, ◌≡◌, refl, ap, if◌then◌else◌,
  any_of, arith, str_eq, ◌∙◌,
}
use operational_intelligence.Prelude.Int.{ℤ, pos}
use operational_intelligence.Prelude.Dict.{Dict, lookup}
use operational_intelligence.Rules.Syntax.{Runtime, Value}
use operational_intelligence.Rules.Eval.{truthy}

pub data LocalOp : Type 0 where
  gt lt ge le eq ne : LocalOp

-- `_OPS.get`
unfoldable pub local_op : String → Option LocalOp
local_op s =
    if str_eq s ">"
    then some LocalOp.gt
    else if str_eq s "<"
    then some LocalOp.lt
    else if str_eq s ">="
    then some LocalOp.ge
    else if str_eq s "<="
    then some LocalOp.le
    else if str_eq s "=="
    then some LocalOp.eq
    else if str_eq s "!="
    then some LocalOp.ne
    else none

pub record LocalRule (rt : Runtime) : Type 0 where
  pub name : Option String
  pub field : Option String
  pub operator : Option String
  pub threshold : Option (Value rt)
  pub severity : Option String

pub record LocalAlert (rt : Runtime) : Type 0 where
  pub rule_name : String
  pub severity : String
  pub field : String
  pub value : Value rt
  pub threshold : Option (Value rt)
  pub operator : String
  pub event_type : Option (Value rt)
  pub entity_id : Option (Value rt)
  pub triggered_at : String

-- `float(value)`: a number, TypeError or ValueError, or OverflowError.
pub data Number (rt : Runtime) : Type 0 where
  number : rt.Float → Number rt
  refused overflow : Number rt

-- What one rule does: it alerts, it is passed over, or its exception leaves the function.
pub data RuleResult (rt : Runtime) : Type 0 where
  alert : LocalAlert rt → RuleResult rt
  skip attribute_error overflow_error : RuleResult rt

pub data LocalResult (rt : Runtime) : Type 0 where
  alerts : List (LocalAlert rt) → LocalResult rt
  attribute_error overflow_error : LocalResult rt

abbrev pub or_else {ℓ} : {A : Type ℓ} → Option A → A → A
or_else none d = d
or_else (some a) d = a

module _ {rt : Runtime} (as_dict : Value rt → Option (Dict (Value rt)))
    (json_loads : String → Option (Value rt)) where
  unfoldable pub to_float : Value rt → Number rt
  to_float Value.null = Number.refused
  to_float (Value.bool b) = of_int (if b then pos 1 else pos 0)
    where
      of_int : ℤ → Number rt
      of_int n = elim (rt.float_of_int n) [ none ↦ Number.overflow | some x ↦ number x ]
  to_float (Value.int n) = elim (rt.float_of_int n) [ none ↦ Number.overflow | some x ↦ number x ]
  to_float (Value.float x) = number x
  to_float (Value.str s) = elim (rt.float_of_text s) [ none ↦ Number.refused | some x ↦ number x ]
  to_float (Value.obj o) = Number.refused

  abbrev pub apply_op : LocalOp → rt.Float → rt.Float → Bool
  apply_op LocalOp.gt x y = rt.float_lt y x
  apply_op LocalOp.lt x y = rt.float_lt x y
  apply_op LocalOp.ge x y = rt.float_le y x
  apply_op LocalOp.le x y = rt.float_le x y
  apply_op LocalOp.eq x y = rt.float_eq x y
  apply_op LocalOp.ne x y = not (rt.float_eq x y)

  -- The payload, of which only `get` is used; `none` is a value without it.
  unfoldable pub payload_of : Dict (Value rt) → Option (Dict (Value rt))
  payload_of event = elim (lookup "payload" event) [
    | none ↦ some []
    | some (Value.str s) ↦ elim (json_loads s) [ none ↦ some [] | some v ↦ as_dict v ]
    | some v ↦ as_dict v
  ]

  -- `payload.get(field_name) or event.get(field_name)`
  unfoldable pub rule_value :
      (payload event : Dict (Value rt)) → (field_name : String) → Option (Value rt)
  unfolding truthy
  rule_value payload event field_name = elim (lookup field_name payload) [
    | none ↦ lookup field_name event
    | some v ↦ if truthy v then some v else lookup field_name event
  ]

  -- `float(value)` comes before `float(threshold)`.
  unfoldable pub compare_numbers : LocalOp → Number rt → Number rt → LocalAlert rt → RuleResult rt
  compare_numbers op (number x) (number y) found =
      if apply_op op x y then alert found else RuleResult.skip
  compare_numbers op (number x) Number.overflow found = RuleResult.overflow_error
  compare_numbers op (number x) Number.refused found = RuleResult.skip
  compare_numbers op Number.overflow y found = RuleResult.overflow_error
  compare_numbers op Number.refused y found = RuleResult.skip

  unfoldable pub local_alert :
      (now : String) → Dict (Value rt) → LocalRule rt → Value rt → LocalAlert rt
  local_alert now event rule value = record {
    rule_name = or_else rule.name "unnamed_rule";
    severity = or_else rule.severity "medium";
    field = or_else rule.field "";
    value = value;
    threshold = rule.threshold;
    operator = or_else rule.operator "";
    event_type = lookup "event_type" event;
    entity_id = lookup "entity_id" event;
    triggered_at = now;
  }

  unfoldable pub evaluate_rule :
      (now : String)
      → (payload : Option (Dict (Value rt))) → (event : Dict (Value rt)) → LocalRule rt
      → RuleResult rt
  unfolding rule_value compare_numbers to_float
  evaluate_rule now payload event rule = elim (local_op (or_else rule.operator "")) [
    | none ↦ RuleResult.skip
    | some op ↦ elim payload [
      | none ↦ RuleResult.attribute_error
      | some items ↦ elim (rule_value items event (or_else rule.field "")) [
        | none ↦ RuleResult.skip
        | some Value.null ↦ RuleResult.skip
        | some v ↦
            compare_numbers op (to_float v) (to_float (or_else rule.threshold Value.null))
              (local_alert now event rule v)
      ]
    ]
  ]

  abbrev pub with_alert : LocalAlert rt → LocalResult rt → LocalResult rt
  with_alert a (alerts found) = alerts (a ∷ found)
  with_alert a r = r

  unfoldable pub evaluate_rules :
      (now : String)
      → (payload : Option (Dict (Value rt))) → (event : Dict (Value rt)) → List (LocalRule rt)
      → LocalResult rt
  unfolding evaluate_rule
  evaluate_rules now payload event [] = alerts []
  evaluate_rules now payload event (rule ∷ rules) =
      let rest = evaluate_rules now payload event rules in
      elim (evaluate_rule now payload event rule) [
        | alert a ↦ with_alert a rest
        | RuleResult.skip ↦ rest
        | RuleResult.attribute_error ↦ LocalResult.attribute_error
        | RuleResult.overflow_error ↦ LocalResult.overflow_error
      ]

  unfoldable pub evaluate_local_rules :
      (now : String) → Dict (Value rt) → List (LocalRule rt) → LocalResult rt
  unfolding evaluate_rules payload_of
  evaluate_local_rules now event rules = evaluate_rules now (payload_of event) event rules

  -- A rule about a field whose value in the payload is falsy, as 0 is, raises no alert where the event
  -- itself has no such field, whatever its operator and threshold are.
  pub evaluate_rule_falsy :
      (now : String) (payload event : Dict (Value rt)) (rule : LocalRule rt) (v : Value rt)
      → lookup (or_else rule.field "") payload ≡ some v
      → truthy v ≡ false
      → lookup (or_else rule.field "") event ≡ none
      → evaluate_rule now (some payload) event rule ≡ RuleResult.skip
  unfolding evaluate_rule rule_value
  evaluate_rule_falsy now payload event rule v p f e = ground (arith, p, f, e)

  abbrev pub is_supported : LocalRule rt → Bool
  is_supported rule = elim (local_op (or_else rule.operator "")) [ none ↦ false | some op ↦ true ]

  evaluate_rules_no_dict :
      (now : String) (event : Dict (Value rt)) (rules : List (LocalRule rt))
      → evaluate_rules now none event rules
        ≡ (if any_of is_supported rules then LocalResult.attribute_error else alerts [])
  unfolding evaluate_rules evaluate_rule
  evaluate_rules_no_dict now event [] = refl
  evaluate_rules_no_dict now event (rule ∷ rules) =
      ground (arith, evaluate_rules_no_dict now event rules)

  -- An event whose payload is no dict, and no text that is not JSON, raises AttributeError as soon as
  -- one rule has an operator of the table, and raises no alert otherwise.
  pub evaluate_local_rules_no_dict :
      (now : String) (event : Dict (Value rt)) (rules : List (LocalRule rt))
      → payload_of event ≡ none
      → evaluate_local_rules now event rules
        ≡ (if any_of is_supported rules then LocalResult.attribute_error else alerts [])
  unfolding evaluate_local_rules
  evaluate_local_rules_no_dict now event rules h =
      ap (λ p. evaluate_rules now p event rules) h ∙ evaluate_rules_no_dict now event rules
