-- ===== src/Alerts/Dedup.antt =====
-- packages/domain/alert_service.py: the guard of `create_alert` against the table's unique constraint.
use operational_intelligence.Prelude.{
  ℕ, ◌≡◌, refl, sym, ap, subst, String, Bool, true, false, Option, some, none, List, [], ◌∷◌, ◌++◌,
  ◌==◌, any_of, eq_iff, eq_refl, arith, Bool-cases, inl, inr,
}
use operational_intelligence.Alerts.{
  AlertStatus, status_eq, Alert, Table, NewAlert, Outcome, done, not_found, integrity_error,
  has_key, has_active_key, key_of, new_row, create_alert, is_row, change_row, loaded, acknowledge,
  acknowledge_alert,
}

-- No two rows of a tenant share a dedup key: what `uq_alerts_tenant_dedup` keeps.
abbrev pub IsUnique : Table → Type 0
IsUnique [] = Unit
IsUnique (a ∷ rows) = (any_of (has_key a.tenant_id a.dedup_key) rows ≡ false) × IsUnique rows

any_of-append {ℓ} :
    {A : Type ℓ} (p : A → Bool) (xs ys : List A)
    → any_of p xs ≡ false
    → any_of p ys ≡ false
    → any_of p (xs ++ ys) ≡ false
any_of-append p [] ys h k = k
any_of-append p (x ∷ xs) ys h k = ground (arith, any_of-append p xs ys)

has_key_sym :
    (a b : Alert)
    → has_key a.tenant_id a.dedup_key b ≡ false
    → has_key b.tenant_id b.dedup_key a ≡ false
has_key_sym a b h = ground (arith, eq_iff a.dedup_key b.dedup_key, eq_iff b.dedup_key a.dedup_key)

snoc-IsUnique :
    (rows : Table) (a : Alert)
    → IsUnique rows
    → any_of (has_key a.tenant_id a.dedup_key) rows ≡ false
    → IsUnique (rows ++ a ∷ [])
snoc-IsUnique [] a u h = (refl, tt)
snoc-IsUnique (b ∷ rows) a u h = (
  any_of-append _ rows (a ∷ []) u.0 (ground (arith, has_key_sym a b)),
  snoc-IsUnique rows a u.1 (ground arith),
)

-- a row with the key that is not active, and none that is: what a resolved alert leaves behind
any_of-weaken :
    (tenant : ℕ) (key : String) (rows : Table)
    → any_of (has_key tenant key) rows ≡ false
    → any_of (has_active_key tenant key) rows ≡ false
any_of-weaken tenant key [] h = refl
any_of-weaken tenant key (a ∷ rows) h = ground (arith, any_of-weaken tenant key rows)

abbrev table_of : {A : Type 0} → Table → Outcome A → Table
table_of d (done a rows) = rows
table_of d not_found = d
table_of d integrity_error = d

change_row_skip :
    (p : Alert → Bool) (f : Alert → Alert) (rows : Table) (a : Alert)
    → any_of p rows ≡ false
    → p a ≡ true
    → change_row p f (rows ++ a ∷ []) ≡ some (f a, rows ++ f a ∷ [])
unfolding change_row
change_row_skip p f [] a h k = rw (k, change_row) refl
change_row_skip p f (b ∷ rows) a h k = elim (Bool-cases (p b)) [
  | inl e ↦ cc (rw e at h)
  | inr e ↦ rw (e, change_row) (rw (change_row_skip p f rows a (rw e at h) k) refl)
]

no_row :
    (id tenant : ℕ) (rows : Table)
    → any_of (λ r. r.id == id) rows ≡ false
    → any_of (is_row id tenant) rows ≡ false
no_row id tenant [] h = refl
no_row id tenant (a ∷ rows) h = ground (arith, no_row id tenant rows)

any_of_snoc {ℓ} :
    {A : Type ℓ} (p : A → Bool) (xs : List A) (x : A) → p x ≡ true → any_of p (xs ++ x ∷ []) ≡ true
any_of_snoc p [] x h = rw h refl
any_of_snoc p (y ∷ xs) x h = ground (arith, any_of_snoc p xs x)

module _ (digest : ℕ → ℕ → String → ℕ → String) (id : ℕ) (n : NewAlert) (table : Table) where
  abbrev row : Alert
  row = new_row digest id n

  abbrev key : String
  key = key_of digest n

  -- A call that creates its alert found no row of the tenant with the key, and appends one.
  created_cases :
      (a : Alert) (table' : Table)
      → create_alert digest id n table ≡ done (some a) table'
      → (any_of (has_key n.tenant_id key) table ≡ false) × (table' ≡ table ++ row ∷ [])
  unfolding create_alert
  created_cases a table' e = elim (Bool-cases (any_of (has_active_key n.tenant_id key) table)) [
    | inl x ↦ cc (rw x at e)
    | inr x ↦ elim (Bool-cases (any_of (has_key n.tenant_id key) table)) [
      | inl y ↦ cc (rw (x, y) at e)
      | inr y ↦ (y, sym (ap (table_of []) (rw (x, y) at e)))
    ]
  ]

  -- From a table in which no two rows of a tenant share a dedup key, a call that returns leaves
  -- such a table.
  pub create_alert-IsUnique :
      (o : Option Alert) (table' : Table)
      → IsUnique table
      → create_alert digest id n table ≡ done o table'
      → IsUnique table'
  unfolding create_alert
  create_alert-IsUnique o table' u e =
      elim (Bool-cases (any_of (has_active_key n.tenant_id key) table)) [
        | inl x ↦ subst IsUnique (ap (table_of []) (rw x at e)) u
        | inr x ↦ elim (Bool-cases (any_of (has_key n.tenant_id key) table)) [
          | inl y ↦ cc (rw (x, y) at e)
          | inr y ↦ subst IsUnique (ap (table_of []) (rw (x, y) at e)) (snoc-IsUnique table row u y)
        ]
      ]

  pub create_alert_twice :
      (a : Alert) (table' : Table) (id' : ℕ)
      → create_alert digest id n table ≡ done (some a) table'
      → create_alert digest id' n table' ≡ done none table'
  unfolding create_alert
  create_alert_twice a table' id' e =
      let (free, same) = created_cases a table' e in
      rw (same, any_of_snoc (has_active_key n.tenant_id key) table row (row_active))
    where
      row_active : has_active_key n.tenant_id key row ≡ true
      row_active = ground (arith, eq_refl key)

  module _ (f : Alert → Alert) (keeps : (has_key n.tenant_id key (f row)) ≡ true)
      (ends : status_eq (f row).status AlertStatus.active ≡ false) where
    closed_blocks :
        (id' : ℕ)
        → any_of (has_key n.tenant_id key) table ≡ false
        → create_alert digest id' n (table ++ f row ∷ []) ≡ integrity_error
    unfolding create_alert
    closed_blocks id' free = rw (
      any_of-append (has_active_key n.tenant_id key) table (f row ∷ [])
          (any_of-weaken n.tenant_id key table free) (ground arith),
      any_of_snoc (has_key n.tenant_id key) table (f row) keeps,
    )

    closed_after :
        (a b : Alert) (table' table'' : Table) (id' : ℕ)
        → any_of (λ r. r.id == id) table ≡ false
        → create_alert digest id n table ≡ done (some a) table'
        → loaded (change_row (is_row id n.tenant_id) f table') ≡ done b table''
        → create_alert digest id' n table'' ≡ integrity_error
    closed_after a b table' table'' id' fresh e r =
        let (free, same) = created_cases a table' e in
        let changed =
          change_row_skip (is_row id n.tenant_id) f table row (no_row id n.tenant_id table fresh)
            (ground arith) in
        let after : table ++ f row ∷ [] ≡ table'' =
          ap (table_of []) (rw changed at (rw same at r)) in
        rw (← after) (closed_blocks id' free)

  -- When a call creates an alert under an id that no row had, and that alert is acknowledged, the
  -- next call with the same tenant, rule, entity and window raises IntegrityError as well: an
  -- alert that somebody works on suppresses nothing.
  pub create_alert_after_acknowledge :
      (a b : Alert) (table' table'' : Table) (user id' : ℕ)
      → any_of (λ r. r.id == id) table ≡ false
      → create_alert digest id n table ≡ done (some a) table'
      → acknowledge_alert id n.tenant_id user table' ≡ done b table''
      → create_alert digest id' n table'' ≡ integrity_error
  unfolding acknowledge_alert
  create_alert_after_acknowledge a b table' table'' user id' fresh e r =
      closed_after (acknowledge user) (ground (arith, eq_refl key)) refl a b table' table'' id'
        fresh e r
