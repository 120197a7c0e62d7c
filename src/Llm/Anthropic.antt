-- ===== src/Llm/Anthropic.antt =====
-- src/llm/anthropic-llm.provider.ts: the provider over the Anthropic API, which is a parameter.
use agentdesk_nestjs.Base.{
  ℕ, List, [], ◌∷◌, ◌++◌, map, concat_map, Option, none, some, or_else, String, Text, units, str_eq,
  if◌then◌else◌, Action, ◌>>=◌, pure,
}
use agentdesk_nestjs.Json.{Json, Fields, end}
use agentdesk_nestjs.Llm.{
  Role, LlmStopReason, end_turn, stop_sequence, error, LlmToolCall, ChatMessage, LlmUsage,
  LlmRequest, LlmResponse,
}
use agentdesk_nestjs.Llm.OpenAi.{JsonSchemaTool, to_json_schema_tools, non_empty_list}

-- The blocks of a message that is sent.
pub data ContentBlockParam : Type 0 where
  text : Text → ContentBlockParam
  tool_use : String → String → Fields → ContentBlockParam
  tool_result : String → Text → ContentBlockParam

pub data Content : Type 0 where
  plain : Text → Content
  blocks : List ContentBlockParam → Content

pub data Speaker : Type 0 where
  user assistant : Speaker

pub record MessageParam : Type 0 where
  pub role : Speaker
  pub content : Content

-- `if (message.content) { … }`
abbrev pub text_block : Text → List ContentBlockParam
text_block [] = []
text_block t = text t ∷ []

abbrev pub tool_use_block : LlmToolCall → ContentBlockParam
tool_use_block call = tool_use call.id call.name call.arguments

unfoldable pub to_anthropic_message : ChatMessage → MessageParam
to_anthropic_message message = elim message.role [
  | Role.tool ↦ record {
    role = user;
    content = blocks (tool_result (or_else message.tool_call_id "") message.content ∷ []);
  }
  | Role.assistant ↦ record {
    role = assistant;
    content =
        blocks (text_block message.content ++ map tool_use_block (or_else message.tool_calls []));
  }
  | Role.user ↦ record { role = user; content = plain message.content }
]

-- The body of the request.
pub record MessageCreateParams : Type 0 where
  pub model : String
  pub system : Option Text
  pub max_tokens : ℕ
  pub messages : List MessageParam
  pub tools : Option (List JsonSchemaTool)

-- What the API answers; blocks of other types are not read.
pub data ContentBlock : Type 0 where
  text_out : Text → ContentBlock
  tool_use_out : String → String → Option Fields → ContentBlock
  other_out : ContentBlock

pub record Message : Type 0 where
  pub content : List ContentBlock
  pub stop_reason : Option String
  pub usage : LlmUsage
  pub model : String

unfoldable pub map_stop_reason : Option String → LlmStopReason
map_stop_reason none = error
map_stop_reason (some reason) =
    if str_eq reason "end_turn"
    then end_turn
    else if str_eq reason "tool_use"
    then LlmStopReason.tool_use
    else if str_eq reason "max_tokens"
    then LlmStopReason.max_tokens
    else if str_eq reason "stop_sequence"
    then stop_sequence
    else error

abbrev text_of : ContentBlock → List Text
text_of (text_out t) = t ∷ []
text_of _ = []

abbrev call_of : ContentBlock → List LlmToolCall
call_of (tool_use_out id name input) =
    record { id = id; name = name; arguments = or_else input end } ∷ []
call_of _ = []

-- `texts.join('\n')`
unfoldable pub join_lines : List Text → Text
join_lines [] = []
join_lines (t ∷ []) = t
join_lines (t ∷ u ∷ ts) = t ++ (units "\n" ++ join_lines (u ∷ ts))

unfoldable pub from_message : Message → LlmResponse
from_message message = record {
  content = join_lines (concat_map text_of message.content);
  tool_calls = concat_map call_of message.content;
  stop_reason = map_stop_reason message.stop_reason;
  usage = message.usage;
  model = message.model;
}

module _ {Schema P : Type 0} (to_json_schema : Schema → Json)
    (create : MessageCreateParams → Action P Message) (default_max_tokens : ℕ) where
  unfoldable pub params : LlmRequest Schema → MessageCreateParams
  params request = record {
    model = request.model;
    system = request.system;
    max_tokens = or_else request.max_tokens default_max_tokens;
    messages = map to_anthropic_message request.messages;
    tools = non_empty_list (to_json_schema_tools to_json_schema (or_else request.tools []));
  }

  unfoldable pub complete : LlmRequest Schema → Action P LlmResponse
  complete request = create (params request) >>= λ message. pure (from_message message)
