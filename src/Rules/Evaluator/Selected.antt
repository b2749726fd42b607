-- ===== src/Rules/Evaluator/Selected.antt =====
-- packages/rules/evaluator.py: which rules the evaluation of events and thresholds reports, and what ends it early.
use operational_intelligence.Prelude.{
  ℕ, String, Bool, true, false, ◌≡◌, refl, ap, ◌∙◌, sym, Option, List, [], ◌∷◌, ◌++◌, map, ◌==◌,
  filter_by, filter_by-append, All, if◌then◌else◌, Bool-cases, inl, inr, arith,
}
use operational_intelligence.Rules.Syntax.{Runtime, Error, Result, ok, err, invalid}
use operational_intelligence.Rules.Eval.Facade.{evaluate_expression}
use operational_intelligence.Rules.Evaluator.{
  Rule, RuleType, Event, EventData, Triggered, keep_if, fire_all, selects_event, event_entry,
  event_type_of, build_event_context, evaluate_event_rules, selects, threshold_context,
  threshold_entry, evaluate_threshold_rules,
}

-- the check returned, or raised ExpressionValidationError
abbrev pub Caught : Result Bool → Type 0
Caught (ok b) = Unit
Caught (err (invalid p)) = Unit
Caught (err e) = ⊥

abbrev pub Escapes : Error → Type 0
Escapes (invalid p) = ⊥
Escapes e = Unit

abbrev pub is_true : Result Bool → Bool
is_true (ok b) = b
is_true (err e) = false

module _ (check : Rule → Result Bool) (entry : Rule → Triggered) where
  keep_if_lem :
      (t : Triggered) (c : Result Bool) (out : List Triggered)
      → Caught c
      → keep_if t c (ok out) ≡ ok (if is_true c then t ∷ out else out)
  keep_if_lem t (ok true) out h = refl
  keep_if_lem t (ok false) out h = refl
  keep_if_lem t (err (invalid p)) out h = refl
  keep_if_lem t (err e) out h = absurd h

  map_if :
      (b : Bool) (r : Rule) (rs : List Rule)
      → (if b then entry r ∷ map entry rs else map entry rs) ≡ map entry (if b then r ∷ rs else rs)
  map_if true r rs = refl
  map_if false r rs = refl

  fire_all_exact :
      (rs : List Rule)
      → All (λ r. Caught (check r)) rs
      → fire_all check entry rs ≡ ok (map entry (filter_by (λ r. is_true (check r)) rs))
  unfolding fire_all
  fire_all_exact [] h = refl
  fire_all_exact (r ∷ rs) h = rw (fire_all_exact rs h.1) (
      keep_if_lem (entry r) (check r) _ h.0
      ∙ ap ok (map_if (is_true (check r)) r (filter_by (λ s. is_true (check s)) rs)))

  keep_if_err :
      (t : Triggered) (c : Result Bool) (e : Error) → Caught c → keep_if t c (err e) ≡ err e
  keep_if_err t (ok true) e h = refl
  keep_if_err t (ok false) e h = refl
  keep_if_err t (err (invalid p)) e h = refl
  keep_if_err t (err x) e h = absurd h

  keep_if_escape :
      (t : Triggered) (e : Error) (rest : Result (List Triggered))
      → Escapes e
      → keep_if t (err e) rest ≡ err e
  keep_if_escape t (invalid p) rest h = absurd h
  keep_if_escape t _ rest h = refl

  fire_all_escape :
      (before after : List Rule) (r : Rule) (e : Error)
      → All (λ s. Caught (check s)) before
      → check r ≡ err e
      → Escapes e
      → fire_all check entry (before ++ r ∷ after) ≡ err e
  unfolding fire_all
  fire_all_escape [] after r e h raised esc = rw raised (keep_if_escape (entry r) e _ esc)
  fire_all_escape (s ∷ before) after r e h raised esc =
      rw (fire_all_escape before after r e h.1 raised esc) (keep_if_err (entry s) (check s) e h.0)

module _ {ℓ} {A : Type ℓ} where
  filter_refines :
      (p q : A → Bool) (xs : List A)
      → ((x : A) → p x ≡ true → q x ≡ true)
      → filter_by p (filter_by q xs) ≡ filter_by p xs
  filter_refines p q [] h = refl
  filter_refines p q (x ∷ xs) h = elim (Bool-cases (q x)) [
    | inl e ↦ rw e (rw (filter_refines p q xs h))
    | inr e ↦ elim (Bool-cases (p x)) [
      | inl e' ↦ cc (h x e')
      | inr e' ↦ rw (e, e') (filter_refines p q xs h)
    ]
  ]

module _ (rt : Runtime) where
  abbrev pub event_check : EventData rt → Rule → Result Bool
  event_check event_data r =
      evaluate_expression rt r.condition_expression (build_event_context event_data)

  -- Where no selected rule raises anything but ExpressionValidationError, the result lists exactly
  -- the enabled event rules of the tenant for the event's type whose condition is true, in the order
  -- of the rows: a rule whose condition is invalid hides no other rule.
  pub evaluate_event_rules_exact :
      (rows : List Rule) (e : EventData rt) (tenant : ℕ)
      → All
          (λ r. Caught (event_check e r))
          (filter_by (selects_event rt tenant (event_type_of e)) rows)
      → evaluate_event_rules rt rows e tenant
        ≡ ok (
            map (event_entry rt (event_type_of e)) (
              filter_by
                (λ r. is_true (event_check e r))
                (filter_by (selects_event rt tenant (event_type_of e)) rows)))
  unfolding evaluate_event_rules
  evaluate_event_rules_exact rows e tenant h = fire_all_exact _ _ _ h

  abbrev pub of_tenant : ℕ → Rule → Bool
  of_tenant tenant r = r.tenant_id == tenant

  selects-of_tenant :
      (tenant : ℕ) (type : String) (r : Rule)
      → selects_event rt tenant type r ≡ true
      → of_tenant tenant r ≡ true
  selects-of_tenant tenant type r h = ground arith

  -- Tenant isolation: two rule tables with the same rows of the tenant give its event the same
  -- result, whatever rules the other tenants have.
  pub evaluate_event_rules_isolated :
      (rows rows' : List Rule) (e : EventData rt) (tenant : ℕ)
      → filter_by (of_tenant tenant) rows ≡ filter_by (of_tenant tenant) rows'
      → evaluate_event_rules rt rows e tenant ≡ evaluate_event_rules rt rows' e tenant
  unfolding evaluate_event_rules
  evaluate_event_rules_isolated rows rows' e tenant same =
      let sel = selects_event rt tenant (event_type_of e) in
      ap (fire_all (event_check e) (event_entry rt (event_type_of e))) (
        sym (filter_refines sel (of_tenant tenant) rows (selects-of_tenant tenant _))
        ∙ ap (filter_by sel) same
        ∙ filter_refines sel (of_tenant tenant) rows' (selects-of_tenant tenant _))

  abbrev pub threshold_check : ℕ → List Event → Rule → Result Bool
  threshold_check now events r =
      evaluate_expression rt r.condition_expression (threshold_context rt now events r)

  -- Where the selected rules before it raise nothing but ExpressionValidationError, another
  -- exception in one selected threshold rule ends the whole evaluation, which serves every tenant:
  -- no rule is reported, also none that fired before.
  pub evaluate_threshold_rules_escape :
      (before after : List Rule) (r : Rule) (events : List Event) (now : ℕ) (e : Error)
      → All
          (λ s. Caught (threshold_check now events s))
          (filter_by (selects rt RuleType.threshold Option.none []) before)
      → selects rt RuleType.threshold Option.none [] r ≡ true
      → threshold_check now events r ≡ err e
      → Escapes e
      → evaluate_threshold_rules rt (before ++ r ∷ after) events now Option.none [] ≡ err e
  unfolding evaluate_threshold_rules
  evaluate_threshold_rules_escape before after r events now e h sel raised esc =
      rw (filter_by-append (selects rt RuleType.threshold Option.none []) before (r ∷ after)) (
        rw sel (
          fire_all_escape (threshold_check now events) (threshold_entry rt now events) _ _ r e h
            raised esc))
