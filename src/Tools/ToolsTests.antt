-- ===== src/Tools/ToolsTests.antt =====
-- Two tools of one server, whose data are numbers.
use operational_intelligence.Prelude.{map, ℕ, ◌+◌, ◌≡◌, refl, some, none, List, [], ◌∷◌}
use operational_intelligence.Tools.{
  ToolDefinition, ToolResult, Server, ToolCall, Called, CallResult, execute_tools, list_tools,
  new_coordinator, get_available_tools,
}
use operational_intelligence.Tools.Calls.{call_name, execute_tools-names}

abbrev next_tool : ToolDefinition ℕ
next_tool = record {
  name = "next";
  description = "adds one";
  parameters = 0;
  handler = λ n. some (n + 1);
}

abbrev broken_tool : ToolDefinition ℕ
broken_tool = record {
  name = "broken";
  description = "raises";
  parameters = 0;
  handler = λ n. none;
}

abbrev counter : Server ℕ
counter = record {
  name = some "counter";
  list_tools = none;
  call_tool = some (λ name n. Called.returned (ToolResult.succeeded n));
}

abbrev calls : List (ToolCall ℕ)
calls =
    record { server = some "counter"; tool = some "next"; arguments = some 3 }
    ∷ record { server = some "other"; tool = some "next"; arguments = none }
    ∷ []

execute_tools-names_example :
    (results : List (CallResult ℕ)) × (execute_tools 0 (("counter", counter) ∷ []) calls
      ≡ some results)
    × (map (λ (r : CallResult ℕ). some r.tool) results ≡ map call_name calls)
execute_tools-names_example =
    execute_tools-names 0 (("counter", counter) ∷ []) calls ((λ e. cc e), ((λ e. cc e), tt))

-- A list of dicts, as MCPServer gives it, cannot be read as objects.
no_tools :
    get_available_tools
      (("mcp", record counter { list_tools = some (list_tools (("next", next_tool) ∷ [])) }) ∷ [])
    ≡ none
unfolding get_available_tools
no_tools = refl

-- A server without a name makes no coordinator.
no_name : new_coordinator (counter ∷ record counter { name = none } ∷ []) [] ≡ none
unfolding new_coordinator
no_name = refl
