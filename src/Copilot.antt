-- ===== src/Copilot.antt =====
-- packages/ai/ai_service.py, class `AIService`: the guards around a query, the tool-use rounds with
-- the model's API, and the sources of an answer. `create` is a call of the API with the messages of the
-- conversation, `dumps_result` and `dumps_error` are json.dumps of what a tool returned, with `none`
-- for an exception, and of an error text; latencies, telemetry and the log are left out.
pub mod Rounds
pub mod Sources
pub mod CopilotTests
pub mod Router
use Prim.Native.Char.{code}
use Prim.Native.String.{◌++◌}
use operational_intelligence.Prelude.{
  ℕ, zero, suc, ◌+◌, String, Bool, true, false, ◌&&◌, not, Option, some, none, List, [], ◌∷◌,
  ◌++◌ as append, ◌==◌, map, codes, filter_by, str_eq, str_in, if◌then◌else◌,
}
use operational_intelligence.Prelude.Dict.{Dict}
use operational_intelligence.Guard.{
  Text, Context, Violation, PolicyResult, check_input, check_output,
}
use operational_intelligence.Tools.{
  Server, ToolCall, ToolResult, CallResult, execute_tools, get_available_tools, ApiTool,
}

-- A content block of a response.
pub data Block (Data : Type 0) : Type 0 where
  text : String → Block Data
  tool_use : (id name : String) → (input : Option Data) → Block Data
  other : (type : String) → Block Data

pub record Response (Data : Type 0) : Type 0 where
  pub wants_tools : Bool
  pub content : List (Block Data)

-- A block of type "tool_result".
pub record ToolResultBlock : Type 0 where
  pub tool_use_id : String
  pub content : String
  pub is_error : Bool

-- A message of the conversation.
pub data ChatMessage (Data : Type 0) : Type 0 where
  said : (role content : String) → ChatMessage Data
  assistant : List (Block Data) → ChatMessage Data
  tool_results : List ToolResultBlock → ChatMessage Data

-- The text and `tool_use_rounds`.
pub record Reply : Type 0 where
  pub response_text : String
  pub tool_use_rounds : ℕ

-- "\n".join(parts)
abbrev pub join_lines : List String → String
join_lines [] = ""
join_lines (s ∷ []) = s
join_lines (s ∷ t ∷ rest) = s ++ "\n" ++ join_lines (t ∷ rest)

-- name.split("__", 1), where there is a "__"
abbrev pub cut_name : String → Option (String × String)
cut_name String.[] = none
cut_name (String.◌∷◌ c String.[]) = none
cut_name (String.◌∷◌ c (String.◌∷◌ d s)) =
    let rest = cut_name (String.◌∷◌ d s) in
    if (code c == 95) && (code d == 95)
    then some ("", s)
    else elim rest [ none ↦ none | some p ↦ some (String.◌∷◌ c p.0, p.1) ]

-- The server and the tool of a name.
abbrev pub server_and_tool : (name : String) → String × String
server_and_tool name = elim (cut_name name) [ none ↦ ("unknown", name) | some p ↦ p ]

abbrev pub exhausted_text : String
exhausted_text =
    "I was unable to complete the request within the allowed number of tool-use rounds."

abbrev pub failed_text : String
failed_text = "I encountered an error while processing your request. Please try again later."

module _ {Data : Type 0} where
  abbrev pub texts_of : List (Block Data) → List String
  texts_of [] = []
  texts_of (text s ∷ blocks) = s ∷ texts_of blocks
  texts_of (tool_use id name input ∷ blocks) = texts_of blocks
  texts_of (other type ∷ blocks) = texts_of blocks

  abbrev pub is_tool_use : Block Data → Bool
  is_tool_use (text s) = false
  is_tool_use (tool_use id name input) = true
  is_tool_use (other type) = false

  abbrev pub block_id : Block Data → String
  block_id (text s) = ""
  block_id (tool_use id name input) = id
  block_id (other type) = ""

  abbrev pub tool_call : Block Data → ToolCall Data
  tool_call (tool_use id name input) = record {
    server = some (server_and_tool name).0;
    tool = some (server_and_tool name).1;
    arguments = input;
  }
  tool_call b = record { server = some "unknown"; tool = some ""; arguments = none }

  module _ (dumps_result : ToolResult Data → Option String)
      (dumps_error : Option String → String) where
    -- json.dumps(result.get("result") or {"error": …}); a dict of a ToolResult is never empty.
    abbrev pub result_text : CallResult Data → Option String
    result_text r = elim r.result [ none ↦ some (dumps_error r.error) | some t ↦ dumps_result t ]

    -- The loop over zip(tool_use_blocks, tool_results)
    abbrev pub zip_results :
        List (Block Data) → List (CallResult Data) → Option (List ToolResultBlock)
    zip_results [] results = some []
    zip_results (b ∷ blocks) [] = some []
    zip_results (b ∷ blocks) (r ∷ results) =
        let rest = zip_results blocks results in
        elim (result_text r) [
          | none ↦ none
          | some content ↦ elim rest [
            | none ↦ none
            | some more ↦ some (
                record { tool_use_id = block_id b; content = content; is_error = not r.success }
                ∷ more)
          ]
        ]

  -- The reply once the loop is left: by the last round, or by a response without a block to run.
  abbrev pub exhausted : List (Block Data) → (tool_use_rounds : ℕ) → Reply
  exhausted content tool_use_rounds = record {
    response_text = elim (texts_of content) [
      | [] ↦ exhausted_text
      | s ∷ rest ↦ join_lines (s ∷ rest)
    ];
    tool_use_rounds = tool_use_rounds;
  }

  -- Messages of the history without the system's, and the query.
  unfoldable pub build_messages :
      (query : String) → List (String × String) → List (ChatMessage Data)
  build_messages query [] = said "user" query ∷ []
  build_messages query ((role, content) ∷ history) =
      let rest = build_messages query history in
      if str_eq role "system" then rest else said role content ∷ rest

  module _ (dumps_result : ToolResult Data → Option String) (dumps_error : Option String → String)
      (create : List (ChatMessage Data) → Option (Response Data)) (no_arguments : Data)
      (servers : Dict (Server Data)) where
    -- The messages of the next round; `none` is the exception of json.dumps.
    abbrev pub with_results :
        List (ChatMessage Data)
        → (content tool_use_blocks : List (Block Data)) → List (CallResult Data)
        → Option (List (ChatMessage Data))
    with_results messages content tool_use_blocks results =
        elim (zip_results dumps_result dumps_error tool_use_blocks results) [
          | none ↦ none
          | some blocks ↦ some (append messages (assistant content ∷ tool_results blocks ∷ []))
        ]

    -- The loop over the rounds; `last` is the content of the last response, and `none` an exception
    -- that leaves the method.
    unfoldable pub tool_loop :
        (rounds : ℕ)
        → List (ChatMessage Data)
        → (tool_use_rounds : ℕ) → (last : List (Block Data)) → Option Reply
    unfolding execute_tools
    tool_loop zero messages tool_use_rounds last = some (exhausted last tool_use_rounds)
    tool_loop (suc rounds) messages tool_use_rounds last = elim (create messages) [
      | none ↦ some (record { response_text = failed_text; tool_use_rounds = tool_use_rounds })
      | some response ↦
          if response.wants_tools
          then elim (filter_by is_tool_use response.content) [
            | [] ↦ some (exhausted response.content (tool_use_rounds + 1))
            | b ∷ blocks ↦ elim (execute_tools no_arguments servers (map tool_call (b ∷ blocks))) [
              | none ↦ none
              | some results ↦ elim (with_results messages response.content (b ∷ blocks) results) [
                | none ↦ none
                | some more ↦ tool_loop rounds more (tool_use_rounds + 1) response.content
              ]
            ]
          ]
          else some (record {
            response_text = join_lines (texts_of response.content);
            tool_use_rounds = tool_use_rounds;
          })
    ]

    -- `_call_anthropic` with a key and the SDK: _MAX_TOOL_ROUNDS + 1 rounds.
    unfoldable pub call_anthropic :
        (query : String) → (history : List (String × String)) → Option Reply
    unfolding build_messages tool_loop get_available_tools
    call_anthropic query history = elim (get_available_tools servers) [
      | none ↦ none
      | some tools ↦ tool_loop 4 (build_messages query history) 0 []
    ]

-- The texts that `query` puts in place of an answer.
abbrev pub refusal : String
refusal =
    "I'm unable to process this request due to policy restrictions. Please rephrase your question."

abbrev pub flagged : String
flagged =
    "I generated a response but it was flagged by our safety system. Please try rephrasing your question."

-- What `query` returns, of its answer and its telemetry.
pub record Answer : Type 0 where
  pub response : String
  pub rejected : Bool
  pub output_filtered : Bool
  pub violations : List Violation

module _ (search : String → Text → Bool) (lower : Text → Text) where
  -- The output guard and the answer.
  abbrev pub guarded : String → Answer
  guarded response_text =
      let output_result = check_output search lower (codes response_text) in
      if output_result.allowed
      then record {
        response = response_text;
        rejected = false;
        output_filtered = false;
        violations = [];
      }
      else record {
        response = flagged;
        rejected = false;
        output_filtered = true;
        violations = output_result.violations;
      }

  -- `query`, where `answer` is the part between the guards: the prompt, the context and the call of
  -- the model.
  unfoldable pub query : (answer : String → String) → (query_text : String) → Context → Answer
  unfolding check_input check_output
  query answer query_text ctx =
      let input_result = check_input search lower (codes query_text) ctx in
      if input_result.allowed then guarded (answer query_text) else record {
        response = refusal;
        rejected = true;
        output_filtered = false;
        violations = input_result.violations;
      }

-- The keys of a knowledge chunk that the sources use.
pub record KnowledgeChunk (Score : Type 0) : Type 0 where
  pub document_id : Option String
  pub source_id : Option String
  pub title : Option String
  pub relevance_score : Option Score
  pub chunk_index : Option ℕ

-- A source; of `relevance_score`, `none` is the default 0.0.
pub record Source (Score : Type 0) : Type 0 where
  pub document_id : String
  pub title : String
  pub relevance_score : Option Score
  pub chunk_index : Option ℕ

-- value or default, where an empty text is false
abbrev or_text : Option String → String → String
or_text none default = default
or_text (some s) default = if str_eq s "" then default else s

-- chunk.get("title", "")
abbrev title_or_empty : Option String → String
title_or_empty none = ""
title_or_empty (some s) = s

module _ {Score : Type 0} where
  unfoldable pub source_id_of : KnowledgeChunk Score → String
  source_id_of chunk = or_text chunk.document_id (or_text chunk.source_id "")

  abbrev pub source_of : KnowledgeChunk Score → Source Score
  source_of chunk = record {
    document_id = source_id_of chunk;
    title = title_or_empty chunk.title;
    relevance_score = chunk.relevance_score;
    chunk_index = chunk.chunk_index;
  }

  -- `_extract_sources`
  unfoldable pub extract_sources :
      (seen : List String) → List (KnowledgeChunk Score) → List (Source Score)
  unfolding source_id_of
  extract_sources seen [] = []
  extract_sources seen (chunk ∷ chunks) = elim (str_eq (source_id_of chunk) "") [
    | true ↦ source_of chunk ∷ extract_sources seen chunks
    | false ↦ elim (str_in (source_id_of chunk) seen) [
      | true ↦ extract_sources seen chunks
      | false ↦ source_of chunk ∷ extract_sources (source_id_of chunk ∷ seen) chunks
    ]
  ]
