-- ===== src/Copilot/Rounds.antt =====
-- packages/ai/ai_service.py: the tool-use loop ends, and what the guards let through.
use operational_intelligence.Prelude.{
  ℕ, zero, suc, ◌+◌, ◌≤◌, ◌≡◌, ◌≢◌, refl, String, Bool, true, false, Option, some, none, List, [],
  ◌∷◌, ◌⊎◌, inl, inr, map, subst, not, ◌++◌ as append, List-cases, codes, filter_by, All,
  Bool-cases, Option-cases, arith,
}
use operational_intelligence.Prelude.Dict.{Dict}
use operational_intelligence.Guard.{Text, Context, check_input, check_output}
use operational_intelligence.Tools.{
  Server, ToolCall, ToolResult, CallResult, names_of, or_given, execute_tools, execute_single_tool,
  get_available_tools,
}
use operational_intelligence.Tools.Calls.{execute_tools-names}
use operational_intelligence.Copilot.{
  assistant, tool_results, block_id, Block, Response, ToolResultBlock, result_text, zip_results,
  ChatMessage, Reply, tool_call, with_results, exhausted, is_tool_use, tool_loop, refusal, flagged,
  guarded, query, failed_text, join_lines, texts_of, call_anthropic, build_messages,
}

abbrev or_nil : {A : Type 0} → Option (List A) → List A
or_nil none = []
or_nil (some xs) = xs

module _ {Data : Type 0} where
  has_names : (b : Block Data) → names_of (tool_call b) ≢ none
  has_names (Block.text s) e = cc e
  has_names (Block.tool_use id name input) e = cc e
  has_names (Block.other type) e = cc e

  All-named :
      (blocks : List (Block Data))
      → All (λ (c : ToolCall Data). names_of c ≢ none) (map tool_call blocks)
  All-named [] = tt
  All-named (b ∷ blocks) = (has_names b, All-named blocks)

  -- A property of every single call holds of the results of a round.
  execute_tools-All :
      (P : CallResult Data → Type 0) (no_arguments : Data) (servers : Dict (Server Data))
      → ((server tool : String) (arguments : Data)
          → P (execute_single_tool servers server tool arguments))
      → (calls : List (ToolCall Data)) (results : List (CallResult Data))
      → execute_tools no_arguments servers calls ≡ some results
      → All P results
  unfolding execute_tools
  execute_tools-All P no_arguments servers each [] results e = subst (λ o. All P (or_nil o)) e tt
  execute_tools-All P no_arguments servers each (c ∷ calls) results e =
      elim (Option-cases (names_of c)) [
        | inl unnamed ↦ cc (rw (unnamed, execute_tools) at e)
        | inr (n, named) ↦ elim (Option-cases (execute_tools no_arguments servers calls)) [
          | inl failed ↦ cc (rw (named, failed, execute_tools) at e)
          | inr (rest, run) ↦
              let arguments = or_given c.arguments no_arguments in
              subst (λ o. All P (or_nil o)) (rw (named, run, execute_tools) at e)
                (
                  each n.0 n.1 arguments,
                  execute_tools-All P no_arguments servers each calls rest run,
                )
        ]
      ]

  module _ (dumps_result : ToolResult Data → Option String)
      (dumps_error : Option String → String) where
    abbrev IsJson : CallResult Data → Type 0
    IsJson r = result_text dumps_result dumps_error r ≢ none

    zip_results-IsJson :
        (blocks : List (Block Data)) (results : List (CallResult Data))
        → All IsJson results
        → (zipped : List ToolResultBlock) × (zip_results dumps_result dumps_error blocks results
            ≡ some zipped)
    zip_results-IsJson [] results h = ([], refl)
    zip_results-IsJson (b ∷ blocks) [] h = ([], refl)
    zip_results-IsJson (b ∷ blocks) (r ∷ results) h =
        let (rest, zipped) = zip_results-IsJson blocks results h.1 in
        elim (Option-cases (result_text dumps_result dumps_error r)) [
          | inl e ↦ elim (h.0 e) [ ]
          | inr (content, e) ↦ (
            record { tool_use_id = block_id b; content = content; is_error = not r.success } ∷ rest,
            rw (zip_results, e, zipped) refl,
          )
        ]

    result-IsJson :
        (r : CallResult Data)
        → ((t : ToolResult Data) → r.result ≡ some t → dumps_result t ≢ none)
        → IsJson r
    result-IsJson r h = elim (Option-cases r.result) [
      | inl e ↦ λ k. cc (rw e at k)
      | inr (t, e) ↦ λ k. h t e (rw e at k)
    ]

    module _ (create : List (ChatMessage Data) → Option (Response Data)) (no_arguments : Data)
        (servers : Dict (Server Data)) where
      -- json.dumps takes whatever a call of a tool of the servers returns.
      abbrev pub AllJson : Type 0
      AllJson =
          (server tool : String) (arguments : Data) (t : ToolResult Data)
          → (execute_single_tool servers server tool arguments).result ≡ some t
          → dumps_result t ≢ none

      next_messages :
          AllJson
          → (messages : List (ChatMessage Data)) (content blocks : List (Block Data))
            (calls : List (ToolCall Data)) (results : List (CallResult Data))
          → execute_tools no_arguments servers calls ≡ some results
          → (more : List (ChatMessage Data)) × (with_results dumps_result dumps_error create
                no_arguments servers messages content blocks results
              ≡ some more)
      next_messages json messages content blocks calls results run =
          let json_results =
            execute_tools-All IsJson no_arguments servers
              (λ s t a. result-IsJson (execute_single_tool servers s t a) (json s t a)) calls
              results run in
          let (zipped, e) = zip_results-IsJson blocks results json_results in
          (
            append messages (assistant content ∷ tool_results zipped ∷ []),
            rw (with_results, e) refl,
          )

      -- The loop returns a reply after at most as many rounds as it may take, whatever the model
      -- answers and whether the calls of tools succeed.
      pub tool_loop-ends :
          AllJson
          → (rounds : ℕ) (messages : List (ChatMessage Data)) (n : ℕ) (last : List (Block Data))
          → (reply : Reply) × (tool_loop dumps_result dumps_error create no_arguments servers rounds
                messages n last
              ≡ some reply)
            × (reply.tool_use_rounds ≤ n + rounds)
      unfolding tool_loop
      tool_loop-ends json zero messages n last = (exhausted last n, refl, omega arith)
      tool_loop-ends json (suc rounds) messages n last = elim (Option-cases (create messages)) [
        | inl e ↦ (
          record { response_text = failed_text; tool_use_rounds = n },
          rw (tool_loop, e) refl,
          omega arith,
        )
        | inr (r, e) ↦ elim (Bool-cases r.wants_tools) [
          | inr done ↦ (
            record { response_text = join_lines (texts_of r.content); tool_use_rounds = n },
            rw (tool_loop, e, done) refl,
            omega arith,
          )
          | inl wants ↦ elim (List-cases (filter_by is_tool_use r.content)) [
            | inl bare ↦
                (exhausted r.content (n + 1), rw (tool_loop, e, wants, bare) refl, omega arith)
            | inr (b, blocks, some_blocks) ↦
                let calls = map tool_call (b ∷ blocks) in
                let (results, run, names) =
                  execute_tools-names no_arguments servers calls (All-named (b ∷ blocks)) in
                let (more, zipped) =
                  next_messages json messages r.content (b ∷ blocks) calls results run in
                let (reply, rest, bound) = tool_loop-ends json rounds more (n + 1) r.content in
                (
                  reply,
                  rw (tool_loop, e, wants, some_blocks, run) (rw zipped rest),
                  omega (arith, bound),
                )
          ]
        ]
      ]

      -- Where the tools can be listed and json.dumps takes what the tools return, a call returns a
      -- reply with at most four rounds of tools, whatever the model answers and whether the calls of
      -- tools succeed.
      pub call_anthropic-ends :
          (query : String) (history : List (String × String))
          → get_available_tools servers ≢ none
          → AllJson
          → (reply : Reply) × (call_anthropic dumps_result dumps_error create no_arguments servers
                query history
              ≡ some reply)
            × (reply.tool_use_rounds ≤ 4)
      unfolding call_anthropic
      call_anthropic-ends query history listed json =
          elim (Option-cases (get_available_tools servers)) [
            | inl e ↦ elim (listed e) [ ]
            | inr (tools, e) ↦
                let (reply, run, bound) =
                  tool_loop-ends json 4 (build_messages query history) 0 [] in
                (reply, rw (call_anthropic, e) run, omega (arith, bound))
          ]

module _ (search : String → Text → Bool) (lower : Text → Text) where
  guarded-passes :
      (response_text : String)
      → ((check_output search lower (codes (guarded search lower response_text).response)).allowed
          ≡ true)
        ⊎ ((guarded search lower response_text).response ≡ flagged)
  guarded-passes response_text =
      elim (Bool-cases (check_output search lower (codes response_text)).allowed) [
        | inl e ↦ inl (rw e e)
        | inr e ↦ inr (rw e refl)
      ]

  -- Whatever the model answers, the response of a query passes the output guard or is one of the two
  -- fixed texts.
  pub query-guarded :
      (answer : String → String) (query_text : String) (ctx : Context)
      → ((check_output search lower
            (codes (query search lower answer query_text ctx).response)).allowed
          ≡ true)
        ⊎ (((query search lower answer query_text ctx).response ≡ flagged)
            ⊎ ((query search lower answer query_text ctx).response ≡ refusal))
  unfolding query
  query-guarded answer query_text ctx =
      elim (Bool-cases (check_input search lower (codes query_text) ctx).allowed) [
        | inl e ↦
            rw (query, e)
              (elim (guarded-passes (answer query_text)) [ inl p ↦ inl p | inr f ↦ inr (inl f) ])
        | inr e ↦ inr (inr (rw (query, e) refl))
      ]

  -- A query that the input guard rejects gets the same answer whatever the model is: it is not
  -- asked.
  pub query-rejected :
      (answer other : String → String) (query_text : String) (ctx : Context)
      → (check_input search lower (codes query_text) ctx).allowed ≡ false
      → query search lower answer query_text ctx ≡ query search lower other query_text ctx
  unfolding query
  query-rejected answer other query_text ctx e = rw (query, e) refl
