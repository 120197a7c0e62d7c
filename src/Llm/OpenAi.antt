-- ===== src/Llm/OpenAi.antt =====
-- src/llm/openai-compatible.provider.ts and tool-schema.ts: a request as the chat-completions API
-- takes it, and the stop reasons that it gives.
pub mod Response
pub mod Calls
use agentdesk_nestjs.Base.{
  ℕ, List, [], ◌∷◌, ◌++◌, map, Option, none, some, or_else, String, Text, str_eq, if◌then◌else◌,
}
use agentdesk_nestjs.Json.{Json, obj, stringify}
use agentdesk_nestjs.Llm.{
  Role, LlmStopReason, end_turn, tool_use, stop_sequence, LlmToolCall, ChatMessage, ToolDefinition,
  LlmRequest,
}

-- tool-schema.ts; the schema library's `toJSONSchema` is the parameter.
pub record JsonSchemaTool : Type 0 where
  pub name : String
  pub description : String
  pub input_schema : Json

unfoldable pub to_json_schema_tools :
    {Schema : Type 0} → (Schema → Json) → List (ToolDefinition Schema) → List JsonSchemaTool
to_json_schema_tools to_json_schema = map (λ tool. record {
  name = tool.name;
  description = tool.description;
  input_schema = to_json_schema tool.input_schema;
})

-- A call as the API takes it: its arguments are a text.
pub record OpenAiToolCall : Type 0 where
  pub id : String
  pub name : String
  pub arguments : Text

pub data OpenAiMessage : Type 0 where
  system user : Text → OpenAiMessage
  assistant : Option Text → Option (List OpenAiToolCall) → OpenAiMessage
  tool : Text → String → OpenAiMessage

-- `content || null`
abbrev non_empty : Text → Option Text
non_empty [] = none
non_empty text = some text

-- A list that is absent if it has no items.
abbrev pub non_empty_list : {A : Type 0} → List A → Option (List A)
non_empty_list [] = none
non_empty_list xs = some xs

abbrev pub to_open_ai_call : LlmToolCall → OpenAiToolCall
to_open_ai_call call = record {
  id = call.id;
  name = call.name;
  arguments = stringify (obj call.arguments);
}

unfoldable pub to_open_ai_message : ChatMessage → OpenAiMessage
to_open_ai_message message = elim message.role [
  | Role.user ↦ user message.content
  | Role.assistant ↦
      assistant (non_empty message.content)
        (non_empty_list (map to_open_ai_call (or_else message.tool_calls [])))
  | Role.tool ↦ tool message.content (or_else message.tool_call_id "")
]

-- A system text that is absent or empty is not sent.
abbrev pub system_messages : Option Text → List OpenAiMessage
system_messages none = []
system_messages (some []) = []
system_messages (some text) = system text ∷ []

unfoldable pub to_open_ai_messages : {Schema : Type 0} → LlmRequest Schema → List OpenAiMessage
to_open_ai_messages request =
    system_messages request.system ++ map to_open_ai_message request.messages

-- The body of the request to the API.
pub record OpenAiRequest : Type 0 where
  pub model : String
  pub max_tokens : ℕ
  pub messages : List OpenAiMessage
  pub tools : Option (List JsonSchemaTool)

unfoldable pub open_ai_request :
    {Schema : Type 0} → (Schema → Json) → String → ℕ → LlmRequest Schema → OpenAiRequest
open_ai_request to_json_schema default_model default_max_tokens request = record {
  model = if str_eq default_model "" then request.model else default_model;
  max_tokens = or_else request.max_tokens default_max_tokens;
  messages = to_open_ai_messages request;
  tools = non_empty_list (to_json_schema_tools to_json_schema (or_else request.tools []));
}

unfoldable pub map_finish_reason : Option String → LlmStopReason
map_finish_reason none = stop_sequence
map_finish_reason (some reason) =
    if str_eq reason "stop"
    then end_turn
    else if str_eq reason "tool_calls"
    then tool_use
    else if str_eq reason "length"
    then LlmStopReason.max_tokens
    else stop_sequence
