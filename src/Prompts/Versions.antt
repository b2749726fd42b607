-- ===== src/Prompts/Versions.antt =====
-- packages/ai/prompt_registry.py, `register_prompt`: the versions of a name.
use operational_intelligence.Prelude.{
  ℕ, ◌+◌, ◌≤◌, ◌<◌, ◌≡◌, refl, sym, ap, ◌∙◌, String, true, false, Option, some, none, [], ◌∷◌, ◌++◌,
  ◌==◌, str_eq, eq_refl, filter_by, filter_by-append, append-nil, any_of, Bool-cases, inl, inr,
  arith,
}
use operational_intelligence.Prompts.{
  PromptTemplate, Table, found, PromptData, Registered, registered, has_version, is_active_in,
  max_version, next_version, get_prompt_by_version, get_active_prompt, register_prompt, required,
  insert_prompt, version_of,
}

-- No row of the name has a version beyond the greatest.
max_cases :
    (name : String) (r : PromptTemplate) (rows : Table)
    → str_eq r.name name ≡ true
    → (max_version name rows ≤ max_version name (r ∷ rows))
      × (r.version ≤ max_version name (r ∷ rows))
unfolding max_version
max_cases name r rows e = rw e (ground arith)

none_above :
    (name : String) (v : ℕ) (table : Table)
    → max_version name table < v
    → filter_by (has_version name v) table ≡ []
unfolding max_version
none_above name v [] h = refl
none_above name v (r ∷ rows) h = elim (Bool-cases (str_eq r.name name)) [
  | inl e ↦
      let (rest, own) = max_cases name r rows e in
      let below : max_version name rows < v = omega (arith, rest, h) in
      let differs : (r.version == v) ≡ false = ground (arith, own, h) in
      rw (e, differs) (none_above name v rows below)
  | inr e ↦ rw e (none_above name v rows (rw e at h))
]

required_cases :
    (key : String) (o : Option String) (next : String → Registered) (r : PromptTemplate)
    (table : Table)
    → required key o next ≡ registered r table
    → (s : String) × (o ≡ some s) × (next s ≡ registered r table)
required_cases key none next r table e = cc e
required_cases key (some s) next r table e = (s, refl, e)

inserted :
    (q r : PromptTemplate) (table table' : Table)
    → insert_prompt q table ≡ registered r table'
    → (r ≡ q) × (table' ≡ table ++ q ∷ [])
inserted q r table table' e = elim (Bool-cases (any_of (λ x. x.id == q.id) table)) [
  | inl h ↦ cc (rw h at e)
  | inr h ↦ (
    sym (ap (λ o. elim o [ registered x rows ↦ x | _ ↦ q ]) (rw h at e)),
    sym (ap (λ o. elim o [ registered x rows ↦ rows | _ ↦ [] ]) (rw h at e)),
  )
]

-- What a registration appends: an inactive row, with the version that is asked for or the next.
register_row :
    (id : ℕ) (prompt_data : PromptData) (r : PromptTemplate) (table table' : Table)
    → register_prompt id prompt_data table ≡ registered r table'
    → (table' ≡ table ++ r ∷ [])
      × (r.is_active ≡ false)
      × (r.version ≡ version_of prompt_data.version r.name table)
unfolding register_prompt
register_row id prompt_data r table table' e =
    let (name, has_name, e1) = required_cases "name" prompt_data.name _ r table' e in
    let (task_type, has_task, e2) =
      required_cases "task_type" prompt_data.task_type _ r table' e1 in
    let (family, has_family, e3) =
      required_cases "model_family" prompt_data.model_family _ r table' e2 in
    let (system, has_system, e4) =
      required_cases "system_prompt" prompt_data.system_prompt _ r table' e3 in
    let (user, has_user, e5) =
      required_cases "user_template" prompt_data.user_template _ r table' e4 in
    let (same, grown) = inserted _ r table table' e5 in
    (
      grown ∙ ap (λ q. table ++ q ∷ []) (sym same),
      ap (λ q. q.is_active) same,
      ap (λ q. q.version) same
          ∙ ap (λ n. version_of prompt_data.version n table) (sym (ap (λ q. q.name) same)),
    )

module _ (id : ℕ) (prompt_data : PromptData) (r : PromptTemplate) (table table' : Table) where
  -- A prompt that is registered without a version is what its name and its new version read
  -- afterwards, and its version is greater than every version of the name before.
  pub register_prompt-get :
      prompt_data.version ≡ none
      → register_prompt id prompt_data table ≡ registered r table'
      → (get_prompt_by_version r.name r.version table' ≡ found r)
        × (max_version r.name table < r.version)
  unfolding get_prompt_by_version next_version
  register_prompt-get fresh e =
      let (grown, inactive, version) = register_row id prompt_data r table table' e in
      let next : r.version ≡ max_version r.name table + 1 =
        version ∙ ap (λ v. version_of v r.name table) fresh in
      let above : max_version r.name table < r.version = omega (arith, next) in
      let self : (r.version == r.version) ≡ true = ground arith in
      (
        rw
            (
              grown,
              filter_by-append (has_version r.name r.version) table (r ∷ []),
              none_above r.name r.version table above,
              eq_refl r.name,
              self,
            )
            refl,
        above,
      )

  -- A registration changes the active prompt of no task type and model family.
  pub register_prompt-get_active :
      (task_type model_family : String)
      → register_prompt id prompt_data table ≡ registered r table'
      → get_active_prompt task_type model_family table'
        ≡ get_active_prompt task_type model_family table
  unfolding get_active_prompt
  register_prompt-get_active task_type model_family e =
      let (grown, inactive, version) = register_row id prompt_data r table table' e in
      let hidden : is_active_in task_type model_family r ≡ false = rw inactive (ground arith) in
      rw
        (
          grown,
          filter_by-append (is_active_in task_type model_family) table (r ∷ []),
          hidden,
          append-nil (filter_by (is_active_in task_type model_family) table),
        )
        refl
