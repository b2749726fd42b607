-- ===== src/Tools/Calls.antt =====
-- packages/ai/mcp_base.py and packages/ai/tool_coordinator.py: calls of tools.
use operational_intelligence.Prelude.{
  ◌≡◌, ◌≢◌, ◌∙◌, refl, sym, ap, String, Option, some, none, List, [], ◌∷◌, map, Bool-cases,
  Option-cases, inl, inr, All, str_eq, if◌then◌else◌,
}
use operational_intelligence.Prelude.Dict.{Dict, lookup, lookup-insert}
use operational_intelligence.Tools.{
  ToolDefinition, Server, CallResult, ToolCall, Called, register_tool, run_handler, execute_tool,
  execute_single_tool, names_of, label, execute_tools, call_on, result_of, or_given,
}

abbrev named_call : Option (String × String) → Option String
named_call none = none
named_call (some names) = some (label names.0 names.1)

module _ {Data : Type 0} where
  -- After a tool is registered, its name runs its handler, also where the name was taken before, and
  -- every other name runs what it ran before.
  pub execute_tool-register :
      (definition : ToolDefinition Data) (tools : Dict (ToolDefinition Data)) (name : String)
      (arguments : Data)
      → execute_tool name arguments (register_tool definition tools) ≡ (
          if str_eq definition.name name
          then run_handler name (some definition) arguments
          else execute_tool name arguments tools)
  unfolding execute_tool register_tool
  execute_tool-register definition tools name arguments =
      ap (λ o. run_handler name o arguments) (lookup-insert definition.name name definition tools)
      ∙ (elim (Bool-cases (str_eq definition.name name)) [ inl e ↦ rw e refl | inr e ↦ rw e refl ])

  called : {tool : String} (c : Called Data) → (result_of tool c).tool ≡ tool
  called (Called.returned r) = refl
  called Called.timed_out = refl
  called (Called.raised e) = refl

  call_label :
      (tool tool_name : String) (arguments : Data) (o : Option (Server Data))
      → (call_on tool tool_name arguments o).tool ≡ tool
  call_label tool tool_name arguments none = refl
  call_label tool tool_name arguments (some server) = elim (Option-cases server.call_tool) [
    | inl e ↦ rw e refl
    | inr (call, e) ↦ rw e (called (call tool_name arguments))
  ]

  -- server.tool of a call that has both keys
  abbrev pub call_name : ToolCall Data → Option String
  call_name c = named_call (names_of c)

  -- Calls that all name a server and a tool each have one result, in their order, whatever happens
  -- to them.
  pub execute_tools-names :
      (no_arguments : Data) (servers : Dict (Server Data)) (calls : List (ToolCall Data))
      → All (λ (c : ToolCall Data). names_of c ≢ none) calls
      → (results : List (CallResult Data)) × (execute_tools no_arguments servers calls
          ≡ some results)
        × (map (λ (r : CallResult Data). some r.tool) results ≡ map call_name calls)
  unfolding execute_tools execute_single_tool
  execute_tools-names no_arguments servers [] h = ([], refl, refl)
  execute_tools-names no_arguments servers (c ∷ calls) h =
      let (results, run, names) = execute_tools-names no_arguments servers calls h.1 in
      elim (Option-cases (names_of c)) [
        | inl e ↦ elim (h.0 e) [ ]
        | inr (n, e) ↦
            let arguments = or_given c.arguments no_arguments in
            let first = execute_single_tool servers n.0 n.1 arguments in
            let named = call_label (label n.0 n.1) n.1 arguments (lookup n.0 servers) in
            (
              first ∷ results,
              rw (execute_tools, e, run) refl,
              ap (λ s. some s ∷ map (λ (r : CallResult Data). some r.tool) results) named
                  ∙ ap (λ o. named_call o ∷ map (λ (r : CallResult Data). some r.tool) results)
                      (sym e)
                  ∙ ap (λ l. call_name c ∷ l) names,
            )
      ]
