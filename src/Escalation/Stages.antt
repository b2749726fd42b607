-- ===== src/Escalation/Stages.antt =====
-- packages/domain/escalation.py: which stage `check_escalation` takes, and how that moves with time.
use operational_intelligence.Prelude.{
  ℕ, zero, suc, ◌+◌, ◌≤◌, ◌≡◌, refl, ap, true, false, Option, some, none, List, [], ◌∷◌,
  if◌then◌else◌, arith, Bool-cases, inl, inr, ◌⊎◌,
}
use operational_intelligence.Escalation.{
  EscalationStage, EscalationPolicy, AlertData, EscalationAction, is_due, walk_stages, is_closed,
  action_of, is_filtered, check_escalation,
}

module _ (created now : ℕ) where
  -- The stage `idx + k` is the last of `stages`, counted from `idx`, that is due.
  abbrev pub NoneDue : List EscalationStage → Type 0
  NoneDue [] = Unit
  NoneDue (s ∷ ss) = (is_due created now s ≡ false) × NoneDue ss

  -- `stage` is due, stands at place `k`, and none behind it is due.
  abbrev pub IsLastDue : List EscalationStage → ℕ → EscalationStage → Type 0
  IsLastDue [] k stage = ⊥
  IsLastDue (s ∷ ss) zero stage = (s ≡ stage) × (is_due created now s ≡ true) × NoneDue ss
  IsLastDue (s ∷ ss) (suc k) stage = IsLastDue ss k stage

  walk_cases :
      (idx : ℕ) (found : Option (ℕ × EscalationStage)) (stages : List EscalationStage)
      → NoneDue stages × (walk_stages created now idx found stages ≡ found)
        ⊎ ((k : ℕ) × (stage : EscalationStage) × IsLastDue stages k stage
            × (walk_stages created now idx found stages ≡ some (idx + k, stage)))
  unfolding walk_stages
  walk_cases idx found [] = inl (tt, refl)
  walk_cases idx found (s ∷ ss) =
      elim (walk_cases (suc idx) (if is_due created now s then some (idx, s) else found) ss) [
        | inr (k, stage, h, e) ↦
            inr (suc k, stage, h, rw e (ap (λ n. some (n, stage)) (omega arith)))
        | inl (h, e) ↦ elim (Bool-cases (is_due created now s)) [
          | inl due ↦
              inr (zero, s, (refl, due, h), rw e (rw due (ap (λ n. some (n, s)) (omega arith))))
          | inr not_due ↦ inl ((not_due, h), rw e (rw not_due refl))
        ]
      ]

-- an alert of the policy's severities, open, with a creation time
pub record IsOpen (alert : AlertData) (policy : EscalationPolicy) (created : ℕ) : Type 0 where
  pub matches : is_filtered alert policy ≡ false
  pub not_closed : is_closed alert.status ≡ false
  pub dated : alert.created_at ≡ some created

check_open :
    (now created : ℕ) (alert : AlertData) (policy : EscalationPolicy)
    → IsOpen alert policy created
    → check_escalation now alert policy
      ≡ action_of created now (walk_stages created now 0 none policy.stages)
unfolding check_escalation
check_open now created alert policy o = rw (o.matches, o.not_closed, o.dated, check_escalation) refl

-- An open alert escalates to the last stage of its policy whose waiting time is over, and not at
-- all where no stage's is.
pub check_escalation_last :
    (now created : ℕ) (alert : AlertData) (policy : EscalationPolicy)
    → IsOpen alert policy created
    → NoneDue created now policy.stages × (check_escalation now alert policy ≡ none)
      ⊎ ((k : ℕ) × (stage : EscalationStage) × IsLastDue created now policy.stages k stage
          × (check_escalation now alert policy ≡ action_of created now (some (k, stage))))
check_escalation_last now created alert policy o =
    elim (walk_cases created now 0 none policy.stages) [
      | inl (h, e) ↦ inl (h, rw (check_open now created alert policy o) (rw e refl))
      | inr (k, stage, h, e) ↦ inr (
        k,
        stage,
        h,
        rw (check_open now created alert policy o)
            (rw e (ap (λ n. action_of created now (some (n, stage))) (omega arith))),
      )
    ]

due_later :
    (created now now' : ℕ) (s : EscalationStage)
    → now ≤ now'
    → is_due created now s ≡ true
    → is_due created now' s ≡ true
due_later created now now' s le h = ground arith

-- a stage that is due stands no higher than the last one that is
IsLastDue-grows :
    (created now now' : ℕ) (stages : List EscalationStage) (k : ℕ) (stage : EscalationStage)
    → now ≤ now'
    → IsLastDue created now stages k stage
    → ¬ NoneDue created now' stages
      × ((k' : ℕ) (stage' : EscalationStage) → IsLastDue created now' stages k' stage' → k ≤ k')
IsLastDue-grows created now now' [] k stage le h = absurd h
IsLastDue-grows created now now' (s ∷ ss) zero stage le (same, due, rest) =
    (λ none_due. cc (due_later created now now' s le due, none_due.0), λ k' stage' h. omega arith)
IsLastDue-grows created now now' (s ∷ ss) (suc k) stage le h =
    let (some_due, above) = IsLastDue-grows created now now' ss k stage le h in
    (λ none_due. some_due none_due.1, higher some_due above)
  where
    higher :
        ¬ NoneDue created now' ss
        → ((k' : ℕ) (stage' : EscalationStage) → IsLastDue created now' ss k' stage' → k ≤ k')
        → (k' : ℕ) (stage' : EscalationStage) → IsLastDue created now' (s ∷ ss) k' stage'
        → suc k ≤ k'
    higher some_due above zero stage' (same, due, rest) = absurd (some_due rest)
    higher some_due above (suc k') stage' h' = omega (arith, above k' stage' h')

-- While an alert stays open, time never takes an escalation back: once it has escalated to a stage,
-- at every later time it escalates to that stage or to a later one.
pub check_escalation_monotone :
    (now now' created : ℕ) (alert : AlertData) (policy : EscalationPolicy) (a : EscalationAction)
    → IsOpen alert policy created
    → now ≤ now'
    → check_escalation now alert policy ≡ some a
    → (a' : EscalationAction) × (check_escalation now' alert policy ≡ some a')
      × (a.stage ≤ a'.stage)
check_escalation_monotone now now' created alert policy a o le h =
    elim (check_escalation_last now created alert policy o) [
      | inl (_, e) ↦ cc
      | inr (k, stage, last, e) ↦
          let (some_due, above) = IsLastDue-grows created now now' policy.stages k stage le last in
          elim (check_escalation_last now' created alert policy o) [
            | inl (none_due, _) ↦ absurd (some_due none_due)
            | inr (k', stage', last', e') ↦ (_, e', ground (arith, above k' stage' last'))
          ]
    ]
