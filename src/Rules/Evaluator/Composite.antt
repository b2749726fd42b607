-- ===== src/Rules/Evaluator/Composite.antt =====
-- packages/rules/evaluator.py, `evaluate_composite_rules`: each rule reads its state when its turn
-- comes, and clears it when it fires. Which stores answer is given for each rule.
use operational_intelligence.Prelude.{
  ℕ, String, Bool, true, false, ◌≡◌, refl, subst, Option, some, none, List, [], ◌∷◌, filter_by,
  length, All, arith,
}
use operational_intelligence.Prelude.Int.{pos}
use operational_intelligence.Prelude.Dict.{Dict, insert}
use operational_intelligence.Rules.Syntax.{Runtime, Value, Error, Result, ok, err, invalid, ◌>>=◌}
use operational_intelligence.Rules.Eval.{Context, truthy}
use operational_intelligence.Rules.Eval.Facade.{evaluate_expression}
use operational_intelligence.Rules.State.{RuleKey, Stores, Links, clear_state, get_state}
use operational_intelligence.Rules.State.Reads.{both_up}
use operational_intelligence.Rules.Evaluator.Selected.{Escapes}
use operational_intelligence.Rules.Evaluator.{Rule, RuleType, Triggered, window_of, selects}

-- The dict of a rule's state; a field is `none` where the key is absent.
pub record CompositeState (rt : Runtime) : Type 0 where
  pub conditions_met : Option (Context rt)
  pub conditions_total : Option (Value rt)

abbrev pub no_state : {rt : Runtime} → CompositeState rt
no_state = record { conditions_met = none; conditions_total = none }

abbrev pub key_of : Rule → RuleKey
key_of r = record { rule_id = r.id; tenant_id = r.tenant_id }

module _ {rt : Runtime} where
  abbrev pub insert_all : Dict (Value rt) → Context rt → Context rt
  insert_all [] context = context
  insert_all ((key, v) ∷ items) context = insert_all items (insert key v context)

  abbrev pub conditions_of : CompositeState rt → Context rt
  conditions_of state = elim state.conditions_met [ none ↦ [] | some met ↦ met ]

  unfoldable pub composite_context : CompositeState rt → Context rt
  unfolding insert truthy
  composite_context state =
      let met = conditions_of state in
      let total : Value rt = elim state.conditions_total [
        | none ↦ Value.int (pos 0)
        | some v ↦ v
      ] in
      insert "composite.conditions_met_count"
        (Value.int (pos (length (filter_by (λ (kv : String × Value rt). truthy kv.1) met))))
        (insert "composite.conditions_total" total (insert_all met []))

module _ (rt : Runtime) (loads : String → Option (CompositeState rt))
    (reading clearing : Rule → Links) where
  unfoldable pub check_composite : Rule → Stores → Result Bool
  unfolding composite_context get_state
  check_composite r s =
      evaluate_expression rt r.condition_expression
        (composite_context (get_state loads no_state (reading r) (key_of r) s))

  abbrev pub composite_entry : Rule → Triggered
  composite_entry r = record {
    rule = r;
    event_type = "";
    event_count = 0;
    window_seconds = window_of r;
  }

  abbrev pub Outcome : Type 0
  Outcome = Result (List Triggered) × Stores

  abbrev prepend : Triggered → Outcome → Outcome
  prepend t (result, s) = ((result >>= λ more. ok (t ∷ more)), s)

  -- The rest of the loop's body, once the condition is evaluated; `next` is the rest of the loop.
  unfoldable pub after_check : Rule → Stores → Result Bool → (Stores → Outcome) → Outcome
  unfolding clear_state
  after_check r s (ok true) next =
      prepend (composite_entry r) (next (clear_state (clearing r) (key_of r) s))
  after_check r s (ok false) next = next s
  after_check r s (err (invalid p)) next = next s
  after_check r s (err e) next = (err e, s)

  unfoldable pub fire_composite : List Rule → Stores → Outcome
  unfolding check_composite after_check
  fire_composite [] s = (ok [], s)
  fire_composite (r ∷ rs) s = after_check r s (check_composite r s) (fire_composite rs)

  unfoldable pub evaluate_composite_rules : List Rule → Option ℕ → List ℕ → Stores → Outcome
  unfolding fire_composite
  evaluate_composite_rules rows tenant_id rule_ids s =
      fire_composite (filter_by (selects rt RuleType.composite tenant_id rule_ids) rows) s

-- neither store holds the key
abbrev pub Cleared : RuleKey → Stores → Type 0
Cleared k s = (s.redis k ≡ none) × (s.pg k ≡ none)

clear-Cleared : (k : RuleKey) (s : Stores) → Cleared k (clear_state both_up k s)
unfolding clear_state
clear-Cleared k s = (ground arith, ground arith)

keeps-Cleared :
    (links : Links) (k j : RuleKey) (s : Stores) → Cleared j s → Cleared j (clear_state links k s)
unfolding clear_state
keeps-Cleared links k j s h = (ground arith, ground arith)

module _ (rt : Runtime) (loads : String → Option (CompositeState rt)) (reading : Rule → Links) where
  abbrev up : Rule → Links
  up r = both_up

  after_keeps :
      (r : Rule) (s : Stores) (c : Result Bool) (next : Stores → Outcome rt loads reading up)
      (j : RuleKey)
      → ((s' : Stores) → Cleared j s' → Cleared j (next s').1)
      → Cleared j s
      → Cleared j (after_check rt loads reading up r s c next).1
  unfolding after_check
  after_keeps r s (ok true) next j k h = k _ (keeps-Cleared both_up (key_of r) j s h)
  after_keeps r s (ok false) next j k h = k s h
  after_keeps r s (err (invalid p)) next j k h = k s h
  after_keeps r s (err e) next j k h = h

  fire_keeps :
      (rs : List Rule) (s : Stores) (j : RuleKey)
      → Cleared j s
      → Cleared j (fire_composite rt loads reading up rs s).1
  unfolding fire_composite
  fire_keeps [] s j h = h
  fire_keeps (r ∷ rs) s j h =
      after_keeps r s (check_composite rt loads reading up r s) _ j (λ s' h'. fire_keeps rs s' j h')
        h

  -- every rule of a result is cleared in the stores that come with it
  abbrev AllCleared : Outcome rt loads reading up → Type 0
  AllCleared (ok out, s) = All (λ t. Cleared (key_of t.rule) s) out
  AllCleared (err e, s) = Unit

  prepend-AllCleared :
      (r : Rule) (o : Outcome rt loads reading up)
      → Cleared (key_of r) o.1
      → AllCleared o
      → AllCleared (prepend rt loads reading up (composite_entry rt loads reading up r) o)
  prepend-AllCleared r (ok out, s) h k = (h, k)
  prepend-AllCleared r (err e, s) h k = tt

  after-AllCleared :
      (r : Rule) (s : Stores) (c : Result Bool) (rs : List Rule)
      → ((s' : Stores) → AllCleared (fire_composite rt loads reading up rs s'))
      → AllCleared (after_check rt loads reading up r s c (fire_composite rt loads reading up rs))
  unfolding after_check
  after-AllCleared r s (ok true) rs k =
      prepend-AllCleared r _
        (fire_keeps rs (clear_state both_up (key_of r) s) (key_of r) (clear-Cleared (key_of r) s))
        (k (clear_state both_up (key_of r) s))
  after-AllCleared r s (ok false) rs k = k s
  after-AllCleared r s (err (invalid p)) rs k = k s
  after-AllCleared r s (err e) rs k = tt

  fire-AllCleared :
      (rs : List Rule) (s : Stores) → AllCleared (fire_composite rt loads reading up rs s)
  unfolding fire_composite
  fire-AllCleared [] s = tt
  fire-AllCleared (r ∷ rs) s =
      after-AllCleared r s (check_composite rt loads reading up r s) rs (fire-AllCleared rs)

  -- Where the stores answer every clear, each composite rule that a call reports has no state left
  -- in either store when the call returns.
  pub evaluate_composite_rules-Cleared :
      (rows : List Rule) (tenant : Option ℕ) (ids : List ℕ) (s s' : Stores) (out : List Triggered)
      → evaluate_composite_rules rt loads reading up rows tenant ids s ≡ (ok out, s')
      → All (λ t. Cleared (key_of t.rule) s') out
  unfolding evaluate_composite_rules
  evaluate_composite_rules-Cleared rows tenant ids s s' out e =
      subst AllCleared e
        (fire-AllCleared (filter_by (selects rt RuleType.composite tenant ids) rows) s)

  after_escape :
      (r : Rule) (s : Stores) (e : Error) (next : Stores → Outcome rt loads reading up)
      → Escapes e
      → after_check rt loads reading up r s (err e) next ≡ (err e, s)
  unfolding after_check
  after_escape r s (invalid p) next h = absurd h
  after_escape r s _ next h = refl

  -- Where both stores answer the clearing of each rule, and the first of the rules fires and the
  -- next raises an exception other than ExpressionValidationError, the call raises and reports
  -- nothing, and neither store has the state of the rule that fired any more.
  pub fire_composite_escape :
      (r bad : Rule) (rest : List Rule) (s : Stores) (e : Error)
      → check_composite rt loads reading up r s ≡ ok true
      → check_composite rt loads reading up bad (clear_state both_up (key_of r) s) ≡ err e
      → Escapes e
      → (fire_composite rt loads reading up (r ∷ bad ∷ rest) s).0 ≡ err e
        × Cleared (key_of r) (fire_composite rt loads reading up (r ∷ bad ∷ rest) s).1
  unfolding fire_composite
  fire_composite_escape r bad rest s e fires raises esc =
      let next = fire_composite rt loads reading up rest in
      let stop = after_escape bad (clear_state both_up (key_of r) s) e next esc in
      rw (fires, after_check)
        (rw (raises, after_check) (rw stop (refl, clear-Cleared (key_of r) s)))
