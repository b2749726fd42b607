-- ===== src/Assembly.antt =====
-- packages/ai/context_assembly.py, class `ContextAssembler`. A text is the list of its code points.
-- `scale m p` is int(m * x) for the float x of p hundredths, `percent` the rounded utilization;
-- relevance scores are compared by `less`. Messages and tool results have texts where they have keys.
pub mod Budget
pub mod AssemblyTests
use operational_intelligence.Prelude.{
  ℕ, suc, ◌+◌, ◌-◌, ◌*◌, ◌/◌, String, Bool, true, false, not, Option, some, none, List, [], ◌∷◌,
  ◌++◌, map, if◌then◌else◌, leb, ◌==◌, length, take, filter_by, str_eq, codes,
}
use mathlib.Core.List.{reverse}

abbrev pub Text : Type 0
Text = List ℕ

pub record Message : Type 0 where
  pub role : Option String
  pub content : Option Text

pub record Chunk (Score : Type 0) : Type 0 where
  pub text : Option Text
  pub relevance_score : Score

pub record ToolResult : Type 0 where
  pub tool_name : Option Text
  pub output : Option Text

pub record Budgets : Type 0 where
  pub system_prompt : ℕ
  pub conversation_history : ℕ
  pub knowledge_retrieval : ℕ
  pub tool_results : ℕ
  pub reserve : ℕ

pub record AssembledContext (Percent : Type 0) : Type 0 where
  pub system_prompt : Text
  pub messages : List Message
  pub knowledge_context : Text
  pub tool_context : Option Text
  pub total_tokens : ℕ
  pub utilization_pct : Percent
  pub budget_breakdown : Budgets

unfoldable pub estimate_tokens : Text → ℕ
estimate_tokens text = length text / 4

unfoldable pub truncate_to_budget : Text → (max_tokens : ℕ) → Text
truncate_to_budget text max_tokens =
    if leb (length text) (max_tokens * 4) then text else take (max_tokens * 4) text

-- `d.get(key, default)`
abbrev pub text_or : Text → Option Text → Text
text_or default none = default
text_or default (some text) = text

unfoldable pub message_tokens : Message → ℕ
unfolding estimate_tokens
message_tokens m = estimate_tokens (text_or [] m.content)

unfoldable pub tokens_of : List Message → ℕ
unfolding message_tokens
tokens_of [] = 0
tokens_of (m ∷ ms) = message_tokens m + tokens_of ms

abbrev pub is_system : Message → Bool
is_system m = elim m.role [ none ↦ false | some role ↦ str_eq role "system" ]

-- From newest to oldest, up to the first message there is no room for.
unfoldable pub keep_newest : (remaining : ℕ) → List Message → List Message
unfolding message_tokens
keep_newest remaining [] = []
keep_newest remaining (m ∷ ms) =
    let rest = keep_newest (remaining - message_tokens m) ms in
    if leb (message_tokens m) remaining then m ∷ rest else []

unfoldable pub prune_conversation_history : List Message → (max_tokens : ℕ) → List Message
unfolding keep_newest tokens_of
prune_conversation_history messages max_tokens =
    let system_msgs = filter_by is_system messages in
    let non_system = filter_by (λ m. not (is_system m)) messages in
    if leb max_tokens (tokens_of system_msgs)
    then system_msgs
    else system_msgs
      ++ reverse (keep_newest (max_tokens - tokens_of system_msgs) (reverse non_system))

abbrev pub join : Text → List Text → Text
join separator [] = []
join separator (t ∷ []) = t
join separator (t ∷ u ∷ ts) = t ++ (separator ++ join separator (u ∷ ts))

module _ {Score : Type 0} (less : Score → Score → Bool) where
  -- `sorted(..., reverse=True)`: the higher score first, equal ones in their order
  unfoldable pub place : Chunk Score → List (Chunk Score) → List (Chunk Score)
  place c [] = c ∷ []
  place c (d ∷ ds) =
      let rest = place c ds in
      if less c.relevance_score d.relevance_score then d ∷ rest else c ∷ d ∷ ds

  unfoldable pub sort_chunks : List (Chunk Score) → List (Chunk Score)
  unfolding place
  sort_chunks [] = []
  sort_chunks (c ∷ cs) = place c (sort_chunks cs)

  unfoldable pub keep_chunks : (used max_tokens : ℕ) → List (Chunk Score) → List (Chunk Score)
  unfolding estimate_tokens
  keep_chunks used max_tokens [] = []
  keep_chunks used max_tokens (c ∷ cs) =
      let tokens = estimate_tokens (text_or [] c.text) in
      let rest = keep_chunks (used + tokens) max_tokens cs in
      if leb (used + tokens) max_tokens then c ∷ rest else []

  unfoldable pub rank_and_truncate_knowledge :
      List (Chunk Score) → (max_tokens : ℕ) → List (Chunk Score)
  unfolding keep_chunks sort_chunks
  rank_and_truncate_knowledge chunks max_tokens = keep_chunks 0 max_tokens (sort_chunks chunks)

-- `chunk["text"]` of each chunk; `none` is KeyError
unfoldable pub texts_of : {Score : Type 0} → List (Chunk Score) → Option (List Text)
texts_of [] = some []
texts_of (c ∷ cs) = elim c.text [
  | none ↦ none
  | some t ↦ elim (texts_of cs) [ none ↦ none | some ts ↦ some (t ∷ ts) ]
]

unfoldable pub tool_line : ToolResult → Text
tool_line tr =
    codes "[" ++ (text_or (codes "unknown") tr.tool_name ++ (codes "]\n" ++ text_or [] tr.output))

unfoldable pub tool_text : Option (List ToolResult) → (max_tokens : ℕ) → Option Text
unfolding truncate_to_budget tool_line
tool_text none max_tokens = none
tool_text (some []) max_tokens = none
tool_text (some (tr ∷ trs)) max_tokens =
    some (truncate_to_budget (join (codes "\n\n") (map tool_line (tr ∷ trs))) max_tokens)

-- An empty text counts as no text, and as no tokens either way.
abbrev pub tool_tokens : Option Text → ℕ
tool_tokens none = 0
tool_tokens (some text) = estimate_tokens text

unfoldable pub allocate_budgets : (scale : ℕ → ℕ → ℕ) → (max_tokens : ℕ) → Budgets
allocate_budgets scale max_tokens = record {
  system_prompt = scale max_tokens 15;
  conversation_history = scale max_tokens 15;
  knowledge_retrieval = scale max_tokens 40;
  tool_results = scale max_tokens 20;
  reserve = scale max_tokens 10;
}

module _ {Score Percent : Type 0} (less : Score → Score → Bool) (scale : ℕ → ℕ → ℕ)
    (percent : (total max_tokens : ℕ) → Percent) (zero_percent : Percent) where
  unfoldable pub assemble_texts :
      (max_tokens : ℕ)
      → (system : Text) → (messages : List Message) → (knowledge : Text) → Option Text
      → AssembledContext Percent
  unfolding estimate_tokens tokens_of
  assemble_texts max_tokens system messages knowledge tool =
      let total =
        estimate_tokens system
        + tokens_of messages
        + estimate_tokens knowledge
        + tool_tokens tool in
      record {
        system_prompt = system;
        messages = messages;
        knowledge_context = knowledge;
        tool_context = tool;
        total_tokens = total;
        utilization_pct = if max_tokens == 0 then zero_percent else percent total max_tokens;
        budget_breakdown = record {
          system_prompt = estimate_tokens system;
          conversation_history = tokens_of messages;
          knowledge_retrieval = estimate_tokens knowledge;
          tool_results = tool_tokens tool;
          reserve = (allocate_budgets scale max_tokens).reserve;
        };
      }

  -- `none` is the KeyError of a kept chunk without a text.
  unfoldable pub assemble :
      (max_tokens : ℕ)
      → (system_prompt : Text) → (conversation_history : List Message)
      → (knowledge_chunks : List (Chunk Score)) → (tool_results : Option (List ToolResult))
      → Option (AssembledContext Percent)
  unfolding assemble_texts prune_conversation_history rank_and_truncate_knowledge tool_text
  assemble max_tokens system_prompt conversation_history knowledge_chunks tool_results =
      let budgets = allocate_budgets scale max_tokens in
      elim (texts_of
        (rank_and_truncate_knowledge less knowledge_chunks budgets.knowledge_retrieval)) [
          | none ↦ none
          | some texts ↦ some (
              assemble_texts max_tokens (truncate_to_budget system_prompt budgets.system_prompt)
                (prune_conversation_history conversation_history budgets.conversation_history)
                (truncate_to_budget (join (codes "\n\n---\n\n") texts) budgets.knowledge_retrieval)
                (tool_text tool_results budgets.tool_results))
        ]
