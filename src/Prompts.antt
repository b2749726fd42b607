-- ===== src/Prompts.antt =====
-- packages/ai/prompt_registry.py, class `PromptRegistry`, over the rows of the tables of
-- packages/db/models/prompt.py. Schemas and creation times are left out, scores are hundredths, and
-- versions are no negative numbers.
pub mod Versions
pub mod Promotion
pub mod Scores
pub mod PromptsTests
use operational_intelligence.Prelude.{
  ℕ, zero, suc, ◌+◌, ◌*◌, ◌≡◌, refl, String, Bool, true, false, ◌&&◌, not, Option, some, none, List,
  [], ◌∷◌, ◌++◌, ◌==◌, leb, if◌then◌else◌, str_eq, filter_by, any_of, map, length,
}
use operational_intelligence.Prelude.Dict.{Dict, insert}

pub record PromptTemplate : Type 0 where
  pub id : ℕ
  pub name : String
  pub version : ℕ
  pub task_type : String
  pub model_family : String
  pub system_prompt : String
  pub user_template : String
  pub is_active : Bool

abbrev pub Table : Type 0
Table = List PromptTemplate

pub record PromptEvaluation : Type 0 where
  pub id : ℕ
  pub prompt_template_id : ℕ
  pub evaluation_type : String

-- The dict of a new prompt; a field is `none` where the key is absent.
pub record PromptData : Type 0 where
  pub name : Option String
  pub version : Option ℕ
  pub task_type : Option String
  pub model_family : Option String
  pub system_prompt : Option String
  pub user_template : Option String

-- What a lookup returns: a row, the ValueError of no row, or SQLAlchemy's MultipleResultsFound.
pub data Found : Type 0 where
  found : PromptTemplate → Found
  no_prompt : Found
  multiple_results : Found

abbrev pub in_slot : (task_type model_family : String) → PromptTemplate → Bool
in_slot task_type model_family r =
    str_eq r.task_type task_type && str_eq r.model_family model_family

abbrev pub is_active_in : (task_type model_family : String) → PromptTemplate → Bool
is_active_in task_type model_family r = in_slot task_type model_family r && r.is_active

-- ORDER BY version DESC LIMIT 1; of rows with one version the database may return any
unfoldable pub newest : List PromptTemplate → Found
newest [] = no_prompt
newest (r ∷ rows) = elim (newest rows) [
  | found best ↦ if leb best.version r.version then found r else found best
  | other ↦ found r
]

unfoldable pub get_active_prompt : (task_type model_family : String) → Table → Found
unfolding newest
get_active_prompt task_type model_family table =
    newest (filter_by (is_active_in task_type model_family) table)

-- scalar_one_or_none, where no row is a ValueError
abbrev pub one_row : List PromptTemplate → Found
one_row [] = no_prompt
one_row (r ∷ []) = found r
one_row (r ∷ s ∷ rows) = multiple_results

abbrev pub has_version : (name : String) (version : ℕ) → PromptTemplate → Bool
has_version name version r = str_eq r.name name && (r.version == version)

unfoldable pub get_prompt_by_version : (name : String) (version : ℕ) → Table → Found
get_prompt_by_version name version table = one_row (filter_by (has_version name version) table)

-- SELECT max(version), 0 for no row
unfoldable pub max_version : (name : String) → Table → ℕ
max_version name [] = 0
max_version name (r ∷ rows) =
    let rest = max_version name rows in
    if str_eq r.name name && leb rest r.version then r.version else rest

unfoldable pub next_version : (name : String) → Table → ℕ
unfolding max_version
next_version name table = max_version name table + 1

-- What `register_prompt` returns, with the table, or raises: KeyError, or IntegrityError of the
-- primary key.
pub data Registered : Type 0 where
  registered : PromptTemplate → Table → Registered
  key_error : String → Registered
  integrity_error : Registered

-- prompt_data[key], and then `next`
abbrev pub required : String → Option String → (String → Registered) → Registered
required key none next = key_error key
required key (some s) next = next s

abbrev pub insert_prompt : PromptTemplate → Table → Registered
insert_prompt r table =
    if any_of (λ q. q.id == r.id) table then integrity_error else registered r (table ++ r ∷ [])

-- A version is assigned if not provided.
abbrev pub version_of : Option ℕ → (name : String) → Table → ℕ
version_of none name table = next_version name table
version_of (some v) name table = v

-- The id is the caller's or a fresh one.
unfoldable pub register_prompt : (id : ℕ) → PromptData → Table → Registered
unfolding next_version
register_prompt id prompt_data table = required "name" prompt_data.name λ name.
    required "task_type" prompt_data.task_type λ task_type.
      required "model_family" prompt_data.model_family λ model_family.
        required "system_prompt" prompt_data.system_prompt λ system_prompt.
          required "user_template" prompt_data.user_template λ user_template.
            insert_prompt
              (record {
                id = id;
                name = name;
                version = version_of prompt_data.version name table;
                task_type = task_type;
                model_family = model_family;
                system_prompt = system_prompt;
                user_template = user_template;
                is_active = false;
              })
              table

pub record EvaluationResult : Type 0 where
  pub passed : Bool
  pub scores : Dict ℕ
  pub failures : List String

-- scores[f"{ev.evaluation_type}:{ev.id}"] = 1.0, with the key given by `score_key`
unfoldable pub score_all : (PromptEvaluation → String) → List PromptEvaluation → Dict ℕ → Dict ℕ
unfolding insert
score_all score_key [] scores = scores
score_all score_key (ev ∷ evaluations) scores =
    score_all score_key evaluations (insert (score_key ev) 100 scores)

abbrev pub total : Dict ℕ → ℕ
total [] = 0
total ((key, score) ∷ scores) = score + total scores

-- sum(scores.values()) / len(scores) >= 0.80 if scores else 0.0 >= 0.80
abbrev pub reaches_threshold : Dict ℕ → Bool
reaches_threshold [] = false
reaches_threshold (s ∷ scores) = leb (80 * length (s ∷ scores)) (total (s ∷ scores))

-- SELECT by the primary key
unfoldable pub find_prompt : (id : ℕ) → Table → Option PromptTemplate
find_prompt id [] = none
find_prompt id (r ∷ rows) = let rest = find_prompt id rows in if r.id == id then some r else rest

-- The UPDATE of the other rows of the slot, and the assignment to the row itself.
abbrev pub promoted_row : PromptTemplate → PromptTemplate → PromptTemplate
promoted_row template r =
    if r.id == template.id
    then record r { is_active = true }
    else (if is_active_in template.task_type template.model_family r
        then record r { is_active = false }
        else r)

module _ (score_key : PromptEvaluation → String) (show_average : Dict ℕ → String) where
  abbrev pub score_result : List PromptEvaluation → EvaluationResult
  score_result [] = record {
    passed = false;
    scores = [];
    failures = "No evaluation examples found for this prompt template." ∷ [];
  }
  score_result (ev ∷ evaluations) =
      let scores = score_all score_key (ev ∷ evaluations) [] in
      let passed = reaches_threshold scores in
      record {
        passed = passed;
        scores = scores;
        failures = if passed then [] else show_average scores ∷ [];
      }

  unfoldable pub evaluate_prompt : (id : ℕ) → List PromptEvaluation → EvaluationResult
  unfolding score_all
  evaluate_prompt id evaluations =
      score_result (filter_by (λ ev. ev.prompt_template_id == id) evaluations)

  unfoldable pub promote_prompt : (id : ℕ) → List PromptEvaluation → Table → Bool × Table
  unfolding evaluate_prompt find_prompt
  promote_prompt id evaluations table =
      if (evaluate_prompt id evaluations).passed
      then elim (find_prompt id table) [
        | none ↦ (false, table)
        | some template ↦ (true, map (promoted_row template) table)
      ]
      else (false, table)
