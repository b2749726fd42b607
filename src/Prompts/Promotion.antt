-- ===== src/Prompts/Promotion.antt =====
-- packages/ai/prompt_registry.py, `promote_prompt`: what becomes of the rows of a slot.
use operational_intelligence.Prelude.{
  ℕ, ◌≡◌, refl, sym, ap, subst, ◌∙◌, String, Bool, true, false, some, none, List, [], ◌∷◌, ◌++◌,
  ◌==◌, eq_refl, eq_iff, filter_by, filter_by-append, any_of, map, Bool-cases, inl, inr, arith, All,
}
use operational_intelligence.Prelude.Dict.{Dict}
use operational_intelligence.Prompts.{
  PromptTemplate, PromptEvaluation, Table, found, newest, is_active_in, in_slot, get_active_prompt,
  find_prompt, promoted_row, evaluate_prompt, promote_prompt,
}

-- The ids are a primary key.
abbrev pub IsKeyed : Table → Type 0
IsKeyed [] = Unit
IsKeyed (r ∷ rows) = (any_of (λ q. q.id == r.id) rows ≡ false) × IsKeyed rows

module _ (t : PromptTemplate) where
  abbrev active : PromptTemplate
  active = record t { is_active = true }

  abbrev slot : PromptTemplate → Bool
  slot = is_active_in t.task_type t.model_family

  row_of_other : (r : PromptTemplate) → (r.id == t.id) ≡ false → slot (promoted_row t r) ≡ false
  row_of_other r h = elim (Bool-cases (slot r)) [
    | inl e ↦ rw (h, e) (ground arith)
    | inr e ↦ rw (h, e) e
  ]

  -- Rows of other ids are not active in the slot afterwards.
  others_inactive :
      (rows : Table)
      → any_of (λ q. q.id == t.id) rows ≡ false
      → filter_by slot (map (promoted_row t) rows) ≡ []
  others_inactive [] h = refl
  others_inactive (r ∷ rows) h =
      rw (row_of_other r (ground (arith, h)), others_inactive rows (ground (arith, h))) refl

  found_first :
      (rows : Table)
      → any_of (λ q. q.id == t.id) rows ≡ false
      → filter_by slot (map (promoted_row t) (t ∷ rows)) ≡ active ∷ []
  found_first rows h =
      let self : (t.id == t.id) ≡ true = ground arith in
      rw (self, eq_refl t.task_type, eq_refl t.model_family, others_inactive rows h) refl

  promoted_alone :
      (rows : Table)
      → IsKeyed rows
      → find_prompt t.id rows ≡ some t
      → filter_by slot (map (promoted_row t) rows) ≡ active ∷ []
  unfolding find_prompt
  promoted_alone [] keyed e = cc e
  promoted_alone (r ∷ rows) keyed e = elim (Bool-cases (r.id == t.id)) [
    | inl h ↦
        let same : r ≡ t = ap (λ o. elim o [ some x ↦ x | none ↦ t ]) (rw h at e) in
        subst
          (λ (x : PromptTemplate). filter_by slot (map (promoted_row t) (x ∷ rows)) ≡ active ∷ [])
          (sym same)
          (found_first rows
            (subst (λ (x : PromptTemplate). any_of (λ q. q.id == x.id) rows ≡ false) same keyed.0))
    | inr h ↦ rw (row_of_other r h) (promoted_alone rows keyed.1 (rw h at e))
  ]

  -- A row of another slot than the promoted prompt's is active there as before.
  module _ (task_type model_family : String)
      (foreign : in_slot task_type model_family t ≡ false) where
    row_elsewhere : (r : PromptTemplate) → slot r ≡ true → in_slot task_type model_family r ≡ false
    row_elsewhere r h =
        ground (arith, eq_iff r.task_type t.task_type, eq_iff r.model_family t.model_family)

    filter_elsewhere :
        (r : PromptTemplate) (rows changed : Table)
        → ((r.id == t.id) ≡ true → r ≡ t)
        → changed ≡ filter_by (is_active_in task_type model_family) rows
        → filter_by (is_active_in task_type model_family) (promoted_row t r ∷ []) ++ changed
          ≡ filter_by (is_active_in task_type model_family) (r ∷ rows)
    filter_elsewhere r rows changed same rest = elim (Bool-cases (r.id == t.id)) [
      | inl h ↦
          let away : in_slot task_type model_family r ≡ false =
            subst (λ x. in_slot task_type model_family x ≡ false) (sym (same h)) foreign in
          rw (h, away) rest
      | inr h ↦ elim (Bool-cases (slot r)) [
        | inl a ↦ rw (h, a, row_elsewhere r a) rest
        | inr a ↦ rw (h, a, rest) (ground arith)
      ]
    ]

    All-elsewhere :
        (rows : Table)
        → All (λ r. (r.id == t.id) ≡ true → r ≡ t) rows
        → filter_by (is_active_in task_type model_family) (map (promoted_row t) rows)
          ≡ filter_by (is_active_in task_type model_family) rows
    All-elsewhere [] same = refl
    All-elsewhere (r ∷ rows) same =
        cons_filter (promoted_row t r) (map (promoted_row t) rows)
        ∙ filter_elsewhere r rows _ same.0 (All-elsewhere rows same.1)
      where
        cons_filter :
            (x : PromptTemplate) (xs : Table)
            → filter_by (is_active_in task_type model_family) (x ∷ xs)
              ≡ filter_by (is_active_in task_type model_family) (x ∷ [])
                ++ filter_by (is_active_in task_type model_family) xs
        cons_filter x xs = filter_by-append (is_active_in task_type model_family) (x ∷ []) xs

  no_other :
      (rows : Table)
      → any_of (λ q. q.id == t.id) rows ≡ false
      → All (λ r. (r.id == t.id) ≡ true → r ≡ t) rows
  no_other [] h = tt
  no_other (r ∷ rows) h =
      let differs : (r.id == t.id) ≡ false = ground (arith, h) in
      (λ e. cc (rw differs at e), no_other rows (ground (arith, h)))

  -- A key names one row.
  only_row :
      (rows : Table)
      → IsKeyed rows
      → find_prompt t.id rows ≡ some t
      → All (λ r. (r.id == t.id) ≡ true → r ≡ t) rows
  unfolding find_prompt
  only_row [] keyed e = tt
  only_row (r ∷ rows) keyed e = elim (Bool-cases (r.id == t.id)) [
    | inl h ↦
        let same : r ≡ t = ap (λ o. elim o [ some x ↦ x | none ↦ t ]) (rw h at e) in
        (
          λ x. same,
          no_other rows (
              subst (λ (x : PromptTemplate). any_of (λ q. q.id == x.id) rows ≡ false) same keyed.0),
        )
    | inr h ↦ (λ x. cc (rw h at x), only_row rows keyed.1 (rw h at e))
  ]

find-id : (id : ℕ) (t : PromptTemplate) (rows : Table) → find_prompt id rows ≡ some t → t.id ≡ id
unfolding find_prompt
find-id id t [] e = cc e
find-id id t (r ∷ rows) e = elim (Bool-cases (r.id == id)) [
  | inl h ↦ ap (λ o. elim o [ some x ↦ x.id | none ↦ id ]) (sym (rw h at e)) ∙ ground (arith, h)
  | inr h ↦ find-id id t rows (rw h at e)
]

module _ (score_key : PromptEvaluation → String) (show_average : Dict ℕ → String) (id : ℕ)
    (evaluations : List PromptEvaluation) (t : PromptTemplate) (table table' : Table) where
  promoted_table :
      find_prompt id table ≡ some t
      → promote_prompt score_key show_average id evaluations table ≡ (true, table')
      → map (promoted_row t) table ≡ table'
  unfolding promote_prompt
  promoted_table f e =
      elim (Bool-cases (evaluate_prompt score_key show_average id evaluations).passed) [
        | inl h ↦ ap (λ r. r.1) (rw (h, f) at e)
        | inr h ↦ cc (rw h at e)
      ]

  -- When ids are unique and a promotion succeeds, the promoted prompt is the one active prompt of
  -- its task type and model family, and so what get_active_prompt returns for them.
  pub promote_prompt-active :
      IsKeyed table
      → find_prompt id table ≡ some t
      → promote_prompt score_key show_average id evaluations table ≡ (true, table')
      → (filter_by (is_active_in t.task_type t.model_family) table'
          ≡ record t { is_active = true } ∷ [])
        × (get_active_prompt t.task_type t.model_family table'
            ≡ found (record t { is_active = true }))
  unfolding get_active_prompt newest
  promote_prompt-active keyed f e =
      let own : find_prompt t.id table ≡ some t =
        subst (λ i. find_prompt i table ≡ some t) (sym (find-id id t table f)) f in
      let alone = promoted_alone t table keyed own in
      let same = promoted_table f e in rw (← same) (alone, rw alone refl)

  -- When ids are unique and a promotion succeeds, every other pair of a task type and a model family
  -- has the active prompts that it had.
  pub promote_prompt-elsewhere :
      (task_type model_family : String)
      → IsKeyed table
      → find_prompt id table ≡ some t
      → promote_prompt score_key show_average id evaluations table ≡ (true, table')
      → in_slot task_type model_family t ≡ false
      → filter_by (is_active_in task_type model_family) table'
        ≡ filter_by (is_active_in task_type model_family) table
  promote_prompt-elsewhere task_type model_family keyed f e foreign =
      let own : find_prompt t.id table ≡ some t =
        subst (λ i. find_prompt i table ≡ some t) (sym (find-id id t table f)) f in
      rw (← promoted_table f e)
        (All-elsewhere t task_type model_family foreign table (only_row t table keyed own))
