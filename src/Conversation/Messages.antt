-- ===== src/Conversation/Messages.antt =====
-- src/agent/conversation.service.ts and src/llm/llm.types.ts: how messages lie in the column of a
-- row, by `toJsonValue` and the casts back.
use mathlib.Core.Path.{ap₂}
use agentdesk_nestjs.Base.{
  List, [], ◌∷◌, Option, none, some, String, Text, units, decode, decode-units, ◌≡◌, refl, str_eq,
  if◌then◌else◌,
}
use agentdesk_nestjs.Json.{
  Json, null, str, arr, obj, Items, nil, cons, Fields, end, field, get_field,
}
use agentdesk_nestjs.Llm.{Role, LlmToolCall, ChatMessage}
use agentdesk_nestjs.Conversation.{StoredMessages, other}

-- `toJsonValue`: messages as the client stores them. A property that is undefined is left out.
abbrev pub role_text : Role → String
role_text Role.user = "user"
role_text Role.assistant = "assistant"
role_text Role.tool = "tool"

abbrev pub call_json : LlmToolCall → Json
call_json call = obj (
    field "id" (str (units call.id))
      (field "name" (str (units call.name)) (field "arguments" (obj call.arguments) end)))

unfoldable pub calls_json : List LlmToolCall → Items
calls_json [] = nil
calls_json (call ∷ calls) = cons (call_json call) (calls_json calls)

abbrev pub with_calls : Option (List LlmToolCall) → Fields → Fields
with_calls none fs = fs
with_calls (some calls) fs = field "toolCalls" (arr (calls_json calls)) fs

abbrev pub with_id : Option String → Fields
with_id none = end
with_id (some id) = field "toolCallId" (str (units id)) end

abbrev pub message_json : ChatMessage → Json
message_json m = obj (
    field "role" (str (units (role_text m.role)))
      (field "content" (str m.content) (with_calls m.tool_calls (with_id m.tool_call_id))))

unfoldable pub to_json_value : List ChatMessage → Items
to_json_value [] = nil
to_json_value (m ∷ ms) = cons (message_json m) (to_json_value ms)

-- The casts back: the properties of an item that has the shape of a message.
abbrev pub text_in : Option Json → Option Text
text_in (some (str t)) = some t
text_in _ = none

abbrev pub with_arguments : Option Text → Option Text → Option Json → Option LlmToolCall
with_arguments (some id) (some name) (some (obj fs)) =
    some (record { id = decode id; name = decode name; arguments = fs })
with_arguments _ _ _ = none

abbrev pub call_in : Json → Option LlmToolCall
call_in (obj fs) =
    with_arguments (text_in (get_field "id" fs)) (text_in (get_field "name" fs))
      (get_field "arguments" fs)
call_in _ = none

abbrev pub both_in : {A : Type 0} → Option A → Option (List A) → Option (List A)
both_in (some a) (some later) = some (a ∷ later)
both_in _ _ = none

unfoldable pub calls_in : Items → Option (List LlmToolCall)
calls_in nil = some []
calls_in (cons v xs) = both_in (call_in v) (calls_in xs)

abbrev pub tool_calls_in : Option Json → Option (List LlmToolCall)
tool_calls_in (some (arr xs)) = calls_in xs
tool_calls_in _ = none

abbrev pub id_in : Option Text → Option String
id_in none = none
id_in (some t) = some (decode t)

abbrev pub role_in : Text → Option Role
role_in t =
    if str_eq (decode t) "user"
    then some Role.user
    else if str_eq (decode t) "assistant"
    then some Role.assistant
    else if str_eq (decode t) "tool"
    then some Role.tool
    else none

abbrev pub with_content : Option Role → Option Text → Fields → Option ChatMessage
with_content (some role) (some content) fs = some (record {
  role = role;
  content = content;
  tool_calls = tool_calls_in (get_field "toolCalls" fs);
  tool_call_id = id_in (text_in (get_field "toolCallId" fs));
})
with_content _ _ fs = none

abbrev pub role_of : Option Text → Option Role
role_of none = none
role_of (some t) = role_in t

abbrev pub message_in : Json → Option ChatMessage
message_in (obj fs) =
    with_content (role_of (text_in (get_field "role" fs))) (text_in (get_field "content" fs)) fs
message_in _ = none

unfoldable pub messages_in : Items → Option (List ChatMessage)
messages_in nil = some []
messages_in (cons v xs) = both_in (message_in v) (messages_in xs)

abbrev pub stored_or : Json → Option (List ChatMessage) → StoredMessages
stored_or v none = other v
stored_or v (some ms) = StoredMessages.messages ms

-- The `messages` column of a row.
abbrev pub stored_in : Option Json → StoredMessages
stored_in none = other null
stored_in (some (arr xs)) = stored_or (arr xs) (messages_in xs)
stored_in (some v) = other v

role_in-text : (role : Role) → role_in (units (role_text role)) ≡ some role
role_in-text Role.user = rw (decode-units "user") refl
role_in-text Role.assistant = rw (decode-units "assistant") refl
role_in-text Role.tool = rw (decode-units "tool") refl

abbrev call_with : Fields → String → String → LlmToolCall
call_with fs id name = record { id = id; name = name; arguments = fs }

call_in-json : (call : LlmToolCall) → call_in (call_json call) ≡ some call
call_in-json call =
    ap₂ (λ (id name : String). some (call_with call.arguments id name)) (decode-units call.id)
      (decode-units call.name)

calls_in-json : (calls : List LlmToolCall) → calls_in (calls_json calls) ≡ some calls
unfolding calls_in calls_json
calls_in-json [] = refl
calls_in-json (call ∷ calls) = ap₂ both_in (call_in-json call) (calls_in-json calls)

message_in-json : (m : ChatMessage) → message_in (message_json m) ≡ some m
message_in-json m = in_parts m.role m.content m.tool_calls m.tool_call_id
  where
    in_parts :
        (role : Role) (content : Text) (tool_calls : Option (List LlmToolCall)) (id : Option String)
        → let m : ChatMessage = record {
          role = role;
          content = content;
          tool_calls = tool_calls;
          tool_call_id = id;
        } in
          message_in (message_json m) ≡ some m
    in_parts role content none none = rw (role_in-text role) refl
    in_parts role content none (some id) = rw (role_in-text role, decode-units id) refl
    in_parts role content (some calls) none = rw (role_in-text role, calls_in-json calls) refl
    in_parts role content (some calls) (some id) =
        rw (role_in-text role, calls_in-json calls, decode-units id) refl

-- Messages that are stored are read back as they were.
pub messages_in-json : (ms : List ChatMessage) → messages_in (to_json_value ms) ≡ some ms
unfolding messages_in to_json_value
messages_in-json [] = refl
messages_in-json (m ∷ ms) = ap₂ both_in (message_in-json m) (messages_in-json ms)
