-- ===== src/Copilot/CopilotTests.antt =====
-- A model that asks for one tool and then answers, and chunks of two documents.
use operational_intelligence.Prelude.{
  ℕ, ◌≤◌, ◌≡◌, ◌≢◌, ◌⊎◌, refl, String, Bool, true, false, Option, some, none, List, [], ◌∷◌, codes,
}
use operational_intelligence.Guard.{Text, Context, contains, check_input, check_output}
use operational_intelligence.Tools.{Server, ToolResult, Listed, Called, get_available_tools}
use operational_intelligence.Copilot.{
  Block, Response, ChatMessage, Reply, call_anthropic, query, refusal, flagged, KnowledgeChunk,
  Source, source_id_of, extract_sources,
}
use operational_intelligence.Prelude.Int.{ℤ, pos}
use operational_intelligence.Prelude.Dict.{Dict, insert, lookup}
use operational_intelligence.Copilot.Router.{
  Setting, route, guard_context, with_model, route-check_input,
}
use operational_intelligence.Copilot.Rounds.{call_anthropic-ends, query-guarded}

abbrev answers : List (ChatMessage ℕ) → Option (Response ℕ)
answers (ChatMessage.said role content ∷ []) =
    some (record { wants_tools = true; content = Block.tool_use "t1" "sql__count" none ∷ [] })
answers messages = some (record { wants_tools = false; content = Block.text "done" ∷ [] })

abbrev sql : Server ℕ
sql = record {
  name = some "sql";
  list_tools = some (Listed.object "count" "counts rows" none ∷ []);
  call_tool = some (λ name arguments. Called.returned (ToolResult.succeeded arguments));
}

abbrev servers : Dict (Server ℕ)
servers = ("sql", sql) ∷ []

abbrev dumps_result : ToolResult ℕ → Option String
dumps_result t = some "{}"

abbrev dumps_error : Option String → String
dumps_error e = "{}"

listed : get_available_tools servers ≢ none
unfolding get_available_tools
listed e = cc e

call_anthropic-ends_example :
    (reply : Reply) × (call_anthropic dumps_result dumps_error answers 0 servers "how many?" []
      ≡ some reply)
    × (reply.tool_use_rounds ≤ 4)
call_anthropic-ends_example =
    call_anthropic-ends dumps_result dumps_error answers 0 servers "how many?" [] listed
      (λ server tool arguments t e k. cc k)

one_round :
    call_anthropic dumps_result dumps_error answers 0 servers "how many?" []
    ≡ some (record { response_text = "done"; tool_use_rounds = 1 })
unfolding call_anthropic lookup
one_round = refl

-- A result that json.dumps does not take ends the call with its exception.
no_json : call_anthropic (λ t. none) dumps_error answers 0 servers "how many?" [] ≡ none
unfolding call_anthropic lookup
no_json = refl

abbrev plain_search : String → Text → Bool
plain_search pattern text = contains (codes pattern) text

abbrev ctx : Context
ctx = record {
  requested_model = none;
  tenant_allowed_models = none;
  requested_tools = "sql" ∷ [];
  tenant_allowed_tools = some [];
  document_classifications = [];
}

abbrev free : Context
free = record ctx { tenant_allowed_tools = none }

abbrev promise : String → String
promise text = "I promise"

query-guarded_example :
    ((check_output plain_search
        (λ s. s)
        (codes (query plain_search (λ s. s) promise "how many?" free).response)).allowed
      ≡ true)
    ⊎ (((query plain_search (λ s. s) promise "how many?" free).response ≡ flagged)
        ⊎ ((query plain_search (λ s. s) promise "how many?" free).response ≡ refusal))
query-guarded_example = query-guarded plain_search (λ s. s) promise "how many?" free

promise-flagged : (query plain_search (λ s. s) promise "how many?" free).response ≡ flagged
unfolding query
promise-flagged = refl

abbrev chunk : Option String → Option String → KnowledgeChunk ℕ
chunk document_id source_id = record {
  document_id = document_id;
  source_id = source_id;
  title = none;
  relevance_score = some 90;
  chunk_index = none;
}

abbrev source : String → Source ℕ
source id = record { document_id = id; title = ""; relevance_score = some 90; chunk_index = none }

each_once :
    extract_sources []
      (chunk (some "a") none ∷ chunk none (some "b") ∷ chunk (some "") (some "a") ∷ [])
    ≡ source "a" ∷ source "b" ∷ []
unfolding extract_sources source_id_of
each_once = refl

abbrev same_text : Text → Text
same_text t = t

-- A request whose filter allows one model and names another.
abbrev filter : Dict (Setting ℕ)
filter =
    ("requested_model", Setting.text "small")
    ∷ ("tenant_allowed_models", Setting.texts ("small" ∷ []))
    ∷ []

abbrev int_of : Setting ℕ → Option ℤ
int_of (Setting.other n) = some (pos n)
int_of v = none

abbrev float_of : Setting ℕ → Option ℕ
float_of (Setting.other n) = some n
float_of v = none

abbrev as_tenths : ℕ → ℕ
as_tenths n = n

overridden :
    route as_tenths int_of float_of "anthropic" "small" "question_answering"
      (insert "model_override" (Setting.text "large") filter)
    ≡ some (record {
      provider = Setting.text "anthropic";
      model_name = Setting.text "large";
      max_tokens = pos 4096;
      temperature = 2;
    })
unfolding route insert lookup
overridden = refl

route-check_input_example :
    (route as_tenths int_of float_of "anthropic" "small" "question_answering"
        (insert "model_override" (Setting.text "large") filter)
      ≡ with_model as_tenths int_of float_of
          (Setting.text "large")
          (route as_tenths int_of float_of "anthropic" "small" "question_answering" filter))
    × (check_input plain_search same_text
          (codes "hi")
          (guard_context (insert "model_override" (Setting.text "large") filter))
        ≡ check_input plain_search same_text (codes "hi") (guard_context filter))
route-check_input_example =
    route-check_input as_tenths int_of float_of plain_search same_text "anthropic" "small"
      "question_answering" (codes "hi") (Setting.text "large") filter
