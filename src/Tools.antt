-- ===== src/Tools.antt =====
-- packages/ai/mcp_base.py, class `MCPServer`, and packages/ai/tool_coordinator.py, class
-- `ToolCoordinator`. Python looks attributes up when they are used: a server's `name` and
-- `call_tool` are `none` where its class has no such attribute. Latencies are left out.
pub mod Calls
pub mod ToolsTests
use Prim.Native.String.{◌++◌}
use operational_intelligence.Prelude.{
  ℕ, String, Bool, true, false, Option, some, none, List, [], ◌∷◌, ◌++◌ as append, map,
}
use operational_intelligence.Prelude.Dict.{Dict, lookup, insert}

-- `Data` is what handlers take and return.
module _ (Data : Type 0) where
  pub record ToolDefinition : Type 0 where
    pub name : String
    pub description : String
    pub parameters : Data
    -- `none` is an exception
    pub handler : Data → Option Data

  pub data ToolResult : Type 0 where
    succeeded : Data → ToolResult
    failed : (error : String) → ToolResult

  -- A tool in the list of a server: a dict, or an object with attributes.
  pub data Listed : Type 0 where
    dict : (name description : String) → (parameters : Data) → Listed
    object : (name description : String) → (input_schema : Option Data) → Listed

  -- What a call of a server's tool does within the timeout.
  pub data Called : Type 0 where
    returned : ToolResult → Called
    timed_out : Called
    raised : (error : String) → Called

  pub record Server : Type 0 where
    pub name : Option String
    -- `none` is an exception
    pub list_tools : Option (List Listed)
    pub call_tool : Option (String → Data → Called)

  -- The result of one call.
  pub record CallResult : Type 0 where
    pub tool : String
    pub success : Bool
    pub result : Option ToolResult
    pub error : Option String

  -- A tool call; a field is `none` where the key is absent.
  pub record ToolCall : Type 0 where
    pub server : Option String
    pub tool : Option String
    pub arguments : Option Data

  -- A tool in the format of the model's API.
  pub record ApiTool : Type 0 where
    pub name : String
    pub description : String
    pub input_schema : Option Data

-- f"{server_name}.{tool_name}"
abbrev pub label : (server_name tool_name : String) → String
label server_name tool_name = server_name ++ "." ++ tool_name

module _ {Data : Type 0} where
  -- `MCPServer.register_tool`, over `self.tools`
  unfoldable pub register_tool :
      ToolDefinition Data → Dict (ToolDefinition Data) → Dict (ToolDefinition Data)
  unfolding insert
  register_tool definition tools = insert definition.name definition tools

  abbrev pub listed : String × ToolDefinition Data → Listed Data
  listed entry = dict entry.1.name entry.1.description entry.1.parameters

  -- `MCPServer.list_tools`
  abbrev pub list_tools : Dict (ToolDefinition Data) → List (Listed Data)
  list_tools tools = map listed tools

  abbrev pub run_handler : (name : String) → Option (ToolDefinition Data) → Data → ToolResult Data
  run_handler name none arguments = failed ("Unknown tool: " ++ name)
  run_handler name (some defn) arguments = elim (defn.handler arguments) [
    | none ↦ failed (name ++ " failed")
    | some d ↦ succeeded d
  ]

  -- `MCPServer.execute_tool`; the error's text is shortened
  unfoldable pub execute_tool :
      (name : String) → Data → Dict (ToolDefinition Data) → ToolResult Data
  unfolding lookup
  execute_tool name arguments tools = run_handler name (lookup name tools) arguments

  -- `ToolCoordinator.__init__`; `none` is AttributeError
  abbrev add_server : Option String → Server Data → Dict (Server Data) → Option (Dict (Server Data))
  add_server none server servers = none
  add_server (some name) server servers = some (insert name server servers)

  unfoldable pub new_coordinator :
      List (Server Data) → Dict (Server Data) → Option (Dict (Server Data))
  unfolding insert
  new_coordinator [] servers = some servers
  new_coordinator (server ∷ rest) servers = elim (add_server server.name server servers) [
    | none ↦ none
    | some more ↦ new_coordinator rest more
  ]

  -- tool_def.name; `none` is the AttributeError of a dict
  abbrev pub api_tool : (server_name : String) → Listed Data → Option (ApiTool Data)
  api_tool server_name (dict name description parameters) = none
  api_tool server_name (object name description input_schema) = some (record {
    name = server_name ++ "__" ++ name;
    description = description;
    input_schema = input_schema;
  })

  -- The loop over the tools of one server.
  abbrev pub api_tools : (server_name : String) → List (Listed Data) → Option (List (ApiTool Data))
  api_tools server_name [] = some []
  api_tools server_name (t ∷ ts) =
      let rest = api_tools server_name ts in
      elim (api_tool server_name t) [
        | none ↦ none
        | some x ↦ elim rest [ none ↦ none | some xs ↦ some (x ∷ xs) ]
      ]

  abbrev pub server_tools : String × Server Data → Option (List (ApiTool Data))
  server_tools entry = elim entry.1.list_tools [
    | none ↦ some []
    | some tools ↦ api_tools entry.0 tools
  ]

  unfoldable pub get_available_tools : Dict (Server Data) → Option (List (ApiTool Data))
  get_available_tools [] = some []
  get_available_tools (entry ∷ servers) =
      let rest = get_available_tools servers in
      elim (server_tools entry) [
        | none ↦ none
        | some xs ↦ elim rest [ none ↦ none | some ys ↦ some (append xs ys) ]
      ]

  abbrev pub result_of : (tool : String) → Called Data → CallResult Data
  result_of tool (returned r) = record {
    tool = tool;
    success = true;
    result = some r;
    error = none;
  }
  result_of tool timed_out = record {
    tool = tool;
    success = false;
    result = none;
    error = some "Tool execution timed out";
  }
  result_of tool (raised e) = record { tool = tool; success = false; result = none; error = some e }

  abbrev pub call_on : (tool tool_name : String) → Data → Option (Server Data) → CallResult Data
  call_on tool tool_name arguments none = record {
    tool = tool;
    success = false;
    result = none;
    error = some "MCP server not found";
  }
  call_on tool tool_name arguments (some server) = result_of tool (elim server.call_tool [
    | none ↦ raised "AttributeError: no attribute 'call_tool'"
    | some call ↦ call tool_name arguments
  ])

  -- `_execute_single_tool`
  unfoldable pub execute_single_tool :
      Dict (Server Data) → (server_name tool_name : String) → Data → CallResult Data
  unfolding lookup
  execute_single_tool servers server_name tool_name arguments =
      call_on (label server_name tool_name) tool_name arguments (lookup server_name servers)

  -- tc.get("arguments", {})
  abbrev pub or_given : Option Data → Data → Data
  or_given none other = other
  or_given (some a) other = a

  -- The names of a call; `none` is the KeyError of `server` or `tool`.
  abbrev pub names_of : ToolCall Data → Option (String × String)
  names_of c = elim c.server [
    | none ↦ none
    | some s ↦ elim c.tool [ none ↦ none | some t ↦ some (s, t) ]
  ]

  -- `execute_tools`: gather keeps the order of the calls. `no_arguments` is {}.
  unfoldable pub execute_tools :
      (no_arguments : Data)
      → Dict (Server Data)
      → List (ToolCall Data)
      → Option (List (CallResult Data))
  unfolding execute_single_tool
  execute_tools no_arguments servers [] = some []
  execute_tools no_arguments servers (c ∷ calls) =
      let rest = execute_tools no_arguments servers calls in
      elim (names_of c) [
        | none ↦ none
        | some names ↦ elim rest [
          | none ↦ none
          | some results ↦ some (
              execute_single_tool servers names.0 names.1 (or_given c.arguments no_arguments)
              ∷ results)
        ]
      ]
