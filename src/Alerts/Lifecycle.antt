-- ===== src/Alerts/Lifecycle.antt =====
-- packages/domain/alert_service.py, status transitions: what they change, for whom, and what the statistics add up to.
use operational_intelligence.Prelude.{
  ℕ, suc, ◌+◌, ◌≡◌, refl, Bool, true, false, ◌&&◌, Option, some, none, List, [], ◌∷◌, ◌==◌,
  if◌then◌else◌, filter_by, length, arith, Bool-cases, Option-cases, inl, inr, ap, sym,
}
use operational_intelligence.Alerts.{
  AlertStatus, status_eq, Alert, Table, Outcome, done, not_found, integrity_error, is_row,
  change_row, acknowledge, acknowledge_alert, get_alert_stats,
}

abbrev pub of_tenant : ℕ → Alert → Bool
of_tenant tenant a = a.tenant_id == tenant

abbrev rows_of : Option (Alert × Table) → Table
rows_of none = []
rows_of (some (a, rows)) = rows

module _ (id tenant other : ℕ) (f : Alert → Alert)
    (keeps : (a : Alert) → (f a).tenant_id ≡ a.tenant_id) (apart : (tenant == other) ≡ false) where
  change_row_foreign :
      (rows rows' : Table) (a : Alert)
      → change_row (is_row id tenant) f rows ≡ some (a, rows')
      → filter_by (of_tenant other) rows' ≡ filter_by (of_tenant other) rows
  unfolding change_row
  change_row_foreign [] rows' a h = cc
  change_row_foreign (r ∷ rows) rows' a h = elim (Bool-cases (is_row id tenant r)) [
    | inl e ↦
        let same : f r ∷ rows ≡ rows' = ap rows_of (rw (e, change_row) at h) in
        rw (← same) (ground (arith, keeps r))
    | inr e ↦ elim (Option-cases (change_row (is_row id tenant) f rows)) [
      | inl e' ↦ cc (rw (e, e', change_row) at h)
      | inr ((b, rest), e') ↦
          let same : r ∷ rest ≡ rows' = ap rows_of (rw (e, e', change_row) at h) in
          rw (← same) (ground (arith, change_row_foreign rows rest b e'))
    ]
  ]

-- `acknowledge_alert` of one tenant changes no row of another.
pub acknowledge_alert_foreign :
    (id tenant user other : ℕ) (table table' : Table) (a : Alert)
    → (tenant == other) ≡ false
    → acknowledge_alert id tenant user table ≡ done a table'
    → filter_by (of_tenant other) table' ≡ filter_by (of_tenant other) table
unfolding acknowledge_alert
acknowledge_alert_foreign id tenant user other table table' a apart h =
    elim (Option-cases (change_row (is_row id tenant) (acknowledge user) table)) [
      | inl e ↦ cc (rw e at h)
      | inr ((b, rows), e) ↦
          let same : rows ≡ table' = ap table_of (rw e at h) in
          rw (← same)
            (change_row_foreign id tenant other (acknowledge user) (λ r. refl) apart table rows b e)
    ]
  where
    table_of : Outcome Alert → Table
    table_of (done b rows) = rows
    table_of not_found = []
    table_of integrity_error = []

split_count :
    (b : Bool) (s : AlertStatus) (n a k r p : ℕ)
    → n ≡ a + k + r + p
    → (if b then suc n else n)
      ≡ (if b && status_eq s AlertStatus.active then suc a else a)
        + (if b && status_eq s AlertStatus.acknowledged then suc k else k)
        + (if b && status_eq s AlertStatus.resolved then suc r else r)
        + (if b && status_eq s AlertStatus.suppressed then suc p else p)
split_count b s n a k r p h = ground arith

length_if {ℓ} :
    {A : Type ℓ} (b : Bool) (x : A) (xs : List A)
    → length (if b then x ∷ xs else xs) ≡ (if b then suc (length xs) else length xs)
length_if true x xs = refl
length_if false x xs = refl

-- The total of `get_alert_stats` is the number of the tenant's alerts.
pub get_alert_stats-total :
    (tenant : ℕ) (table : Table)
    → (get_alert_stats tenant table).total ≡ length (filter_by (of_tenant tenant) table)
unfolding get_alert_stats
get_alert_stats-total tenant [] = refl
get_alert_stats-total tenant (a ∷ rows) =
    let ih = get_alert_stats-total tenant rows in
    simp length_if (sym (split_count (a.tenant_id == tenant) a.status _ _ _ _ _ (sym ih)))
