-- ===== src/Nokia/Mcp.antt =====
-- integrations/nokia/mcp.py: the client of the carrier's tool server, with its allowlist.
--
-- Reading the command from the JSON file of the configuration is outside.
use zonegate_backend.Prelude.{
  Bool, get_or, List, Result, String, if◌then◌else◌, Option, true, ◌∷◌, not, false, contains, ok,
  err, [], map, keep,
}
use zonegate_backend.Nokia.Json.{Members, object, Json, no_members}
use zonegate_backend.Prelude.Text.{◌<>◌}

pub record McpTool : Type 0 where
  pub name : String
  pub description : Option String
  pub input_schema : Option Json

-- A part of a tool's output: one with a text, or another, shown by `str`.
pub data Content : Type 0 where
  with_text : String → Content
  without_text : String → Content

-- A session with the server, from `stdio_client` to its end: what it gives, or the text of what it
-- raises.
pub record McpServer : Type 0 where
  pub initialize : Result String (Unit {0})
  pub tools : Result String (List McpTool)
  pub call : String → Members → Result String (List Content)

pub record NokiaMcpClient : Type 0 where
  pub static_allowlist : List String
  pub args : List String
  pub server : McpServer

-- `UnauthorizedMCPToolError` and `NokiaMCPError`.
pub data McpError : Type 0 where
  unauthorized_tool : String → McpError
  nokia_mcp_error : String → McpError

unfoldable pub is_empty : {A : Type 0} → List A → Bool
is_empty [] = true
is_empty (x ∷ xs) = false

unfoldable pub is_tool_allowed : NokiaMcpClient → String → Bool
unfolding is_empty
is_tool_allowed client tool_name =
    if is_empty client.static_allowlist then true else contains tool_name client.static_allowlist

unfoldable pub check_health : NokiaMcpClient → Bool
unfolding is_empty
check_health client =
    if is_empty client.args
    then false
    else elim client.server.initialize [ ok done ↦ true | err e ↦ false ]

-- An entry of the list that is returned.
pub record ListedTool : Type 0 where
  pub name : String
  pub description : String
  pub input_schema : Json

unfoldable pub listed : McpTool → ListedTool
listed tool = record {
  name = tool.name;
  description = get_or tool.description "";
  input_schema = get_or tool.input_schema (object no_members);
}

unfoldable pub list_mcp_tools : NokiaMcpClient → Result String (List ListedTool)
unfolding is_empty listed is_tool_allowed
list_mcp_tools client = if is_empty client.args then ok [] else elim client.server.tools [
  | err e ↦ err ("Failed to list tools from Nokia MCP server: " <> e)
  | ok tools ↦ ok (map listed (keep (λ tool. is_tool_allowed client tool.name) tools))
]

-- `"\n".join(output_parts)`
unfoldable pub output_text : List Content → String
output_text [] = ""
output_text (with_text s ∷ []) = s
output_text (without_text s ∷ []) = s
output_text (with_text s ∷ part ∷ parts) = s <> "\n" <> output_text (part ∷ parts)
output_text (without_text s ∷ part ∷ parts) = s <> "\n" <> output_text (part ∷ parts)

abbrev pub unauthorized_text : String → String
unauthorized_text name =
    "Tool '" <> name <> "' is not in the Nokia MCP static allowlist and cannot be executed"

-- `call_tool`, and the tools that a session with the server was opened for.
unfoldable pub call_mcp_tool :
    NokiaMcpClient → String → Members → List String × Result McpError String
unfolding is_tool_allowed is_empty output_text
call_mcp_tool client name arguments =
    if not (is_tool_allowed client name)
    then ([], err (unauthorized_tool (unauthorized_text name)))
    else if is_empty client.args
    then ([], err (nokia_mcp_error "Nokia MCP client has no command arguments configured"))
    else (
      name ∷ [],
      elim (client.server.call name arguments) [
        | err e ↦
            err (
              nokia_mcp_error
                ("Failed to execute tool '" <> name <> "' on Nokia MCP server: " <> e))
        | ok content ↦ ok (output_text content)
      ],
    )
