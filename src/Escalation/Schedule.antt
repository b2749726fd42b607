-- ===== src/Escalation/Schedule.antt =====
-- packages/domain/escalation.py: quiet hours, the on-call rotation and the SLA.
use operational_intelligence.Prelude.{
  ℕ, suc, ◌+◌, ◌-◌, ◌*◌, ◌/◌, ◌%◌, ◌≤◌, ◌<◌, ◌≡◌, refl, ap, true, some, List, [], ◌∷◌, leb, ltb,
  get_elem?, length, arith, Bool-cases, inl, inr,
}
use mathlib.Core.Path.{◌∙◌}
use native.Mathlib.Nat.{add-mod_right}
use operational_intelligence.Escalation.{
  AlertData, QuietHours, is_quiet_hours, RotationType, OnCallRotation, period_of,
  get_current_oncall, track,
}

-- For hours below 24, an hour is quiet exactly when, counted round the clock from the start hour,
-- it comes before the end hour: windows within a day and over midnight are one case.
pub is_quiet_hours_circular :
    (hour : ℕ) (q : QuietHours)
    → hour < 24
    → q.start_hour < 24
    → q.end_hour < 24
    → is_quiet_hours hour q
      ≡ ltb ((hour + 24 - q.start_hour) % 24) ((q.end_hour + 24 - q.start_hour) % 24)
unfolding is_quiet_hours
is_quiet_hours_circular hour q h s e = elim (Bool-cases (leb q.start_hour q.end_hour)) [
  | inl t ↦ ground arith
  | inr f ↦ ground arith
]

get_elem?-some {ℓ} :
    {A : Type ℓ} (xs : List A) (i : ℕ) → i < length xs → (x : A) × (get_elem? xs i ≡ some x)
get_elem?-some [] i h = elim h [ ]
get_elem?-some (x ∷ xs) ℕ.zero h = (x, refl)
get_elem?-some (x ∷ xs) (suc i) h = get_elem?-some xs i (omega arith)

-- The days after which a rotation of `n` members is back at the same person.
abbrev pub cycle_of : RotationType → (n : ℕ) → ℕ
cycle_of RotationType.daily n = n
cycle_of RotationType.weekly n = n * 7

index-cycle_of :
    (t : RotationType) (i d n : ℕ)
    → 0 < n
    → (i + period_of t (d + cycle_of t n)) % n ≡ (i + period_of t d) % n
index-cycle_of RotationType.daily i d n h =
    let e : (i + (d + n)) ≡ (i + d) + n = omega arith in ap (λ k. k % n) e ∙ add-mod_right (i + d) n
index-cycle_of RotationType.weekly i d n h =
    let e : (i + (d + n * 7) / 7) ≡ (i + d / 7) + n = omega arith in
    ap (λ k. k % n) e ∙ add-mod_right (i + d / 7) n

module _ {Member : Type 0} (r : OnCallRotation Member) (staffed : 0 < length r.members) where
  -- A rotation with members has somebody on call every day.
  pub get_current_oncall-some : (days : ℕ) → (m : Member) × (get_current_oncall days r ≡ some m)
  unfolding get_current_oncall
  get_current_oncall-some days = get_elem?-some r.members _ (omega arith)

  -- A daily rotation with members returns to the same person after as many days as it has members,
  -- a weekly one after as many weeks.
  pub get_current_oncall_cycle :
      (days : ℕ)
      → get_current_oncall (days + cycle_of r.rotation_type (length r.members)) r
        ≡ get_current_oncall days r
  unfolding get_current_oncall
  get_current_oncall_cycle days =
      ap (get_elem? r.members) (index-cycle_of r.rotation_type r.current_index days _ staffed)

-- An SLA that is breached stays breached at every later time.
pub track_monotone :
    (now now' target : ℕ) (alert : AlertData)
    → now ≤ now'
    → (track now target (some alert)).breached ≡ true
    → (track now' target (some alert)).breached ≡ true
unfolding track
track_monotone now now' target alert le h = ground arith
