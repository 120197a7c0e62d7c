-- ===== src/Tools.antt =====
-- src/agent/tools: the tool interface, the registry and the ticket tools.
pub mod Execute
mod Tests
use agentdesk_nestjs.Base.{
  Bool, Dict, Option, String, Text, Action, lookup, insert, values, has as has_key, map, List,
  units,
}
use agentdesk_nestjs.Json.{Json, str, obj, Fields, end, field}
use agentdesk_nestjs.Llm.{ToolDefinition}

-- tool.interface.ts
pub data ToolErrorCode : Type 0 where
  not_found validation_error internal_error rejected_by_user : ToolErrorCode

pub record ToolError : Type 0 where
  pub code : ToolErrorCode
  pub message : Text

pub data ToolResult : Type 0 where
  success : Json → ToolResult
  failure : ToolError → ToolResult

-- An absent flag counts as false in every test that the program makes of it.
pub record Tool (Schema S : Type 0) : Type 0 where
  pub name : String
  pub description : String
  pub input_schema : Schema
  pub mutating : Bool
  pub requires_approval : Bool
  pub execute : Fields → Action S ToolResult

-- The schema library: `safeParse` gives the parsed input or the text of its error, and
-- `toJSONSchema` the schema that the model sees.
pub data Parsed : Type 0 where
  parsed : Fields → Parsed
  invalid : Text → Parsed

pub record SchemaLibrary (Schema : Type 0) : Type 0 where
  pub safe_parse : Schema → Fields → Parsed
  pub to_json_schema : Schema → Json

abbrev pub code_text : ToolErrorCode → Text
code_text not_found = units "NOT_FOUND"
code_text validation_error = units "VALIDATION_ERROR"
code_text internal_error = units "INTERNAL_ERROR"
code_text rejected_by_user = units "REJECTED_BY_USER"

abbrev pub error_json : ToolError → Json
error_json e = obj (field "code" (str (code_text e.code)) (field "message" (str e.message) end))

-- `result.success ? result.data : result.error`
abbrev pub payload : ToolResult → Json
payload (success d) = d
payload (failure e) = error_json e

-- `result.success`
abbrev pub succeeded : ToolResult → Bool
succeeded (success d) = Bool.true
succeeded (failure e) = Bool.false

-- tool-registry.service.ts: the map of tools by name.
abbrev pub Registry : Type 0 → Type 0 → Type 0
Registry Schema S = Dict (Tool Schema S)

module _ {Schema S : Type 0} where
  unfoldable pub register : Tool Schema S → Registry Schema S → Registry Schema S
  register tool tools = insert tool.name tool tools

  abbrev definition_of : Tool Schema S → ToolDefinition Schema
  definition_of t = record {
    name = t.name;
    description = t.description;
    input_schema = t.input_schema;
  }

  unfoldable pub get_definitions : Registry Schema S → List (ToolDefinition Schema)
  get_definitions tools = map definition_of (values tools)

  unfoldable pub get_tool : String → Registry Schema S → Option (Tool Schema S)
  get_tool name tools = lookup name tools

  unfoldable pub has : String → Registry Schema S → Bool
  has name tools = has_key name tools
