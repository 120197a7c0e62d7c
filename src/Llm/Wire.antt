-- ===== src/Llm/Wire.antt =====
-- What the two providers send of a history: its tool calls and its answers.
use mathlib.Core.Path.{ap₂}
use agentdesk_nestjs.Base.{
  ◌≡◌, ◌≢◌, refl, sym, ap, ◌∙◌, List, [], ◌∷◌, ◌++◌, map, map-append, concat_map, Option, none,
  some, or_else, String, Text, All,
}
use agentdesk_nestjs.Llm.{Role, LlmToolCall, ChatMessage, LlmRequest}
use agentdesk_nestjs.Llm.OpenAi.{
  OpenAiMessage, OpenAiToolCall, to_open_ai_call, to_open_ai_message, to_open_ai_messages,
  system_messages, non_empty_list,
}
use agentdesk_nestjs.Llm.OpenAi
use agentdesk_nestjs.Llm.Anthropic.{
  ContentBlockParam, Content, MessageParam, text_block, tool_use_block, to_anthropic_message,
}
use agentdesk_nestjs.Llm.Anthropic
use agentdesk_nestjs.Agent.Approval.{answered_ids, assistant_calls, answer_of, calls_of}

-- The ids of the calls and of the answers in the messages of the chat-completions API.
abbrev open_ai_ids : Option (List OpenAiToolCall) → List String
open_ai_ids none = []
open_ai_ids (some calls) = map (λ call. call.id) calls

abbrev pub open_ai_calls : OpenAiMessage → List String
open_ai_calls (OpenAi.assistant content calls) = open_ai_ids calls
open_ai_calls _ = []

abbrev pub open_ai_answers : OpenAiMessage → List String
open_ai_answers (OpenAi.tool content id) = id ∷ []
open_ai_answers _ = []

-- The same in the messages of the Anthropic API.
abbrev block_calls : ContentBlockParam → List String
block_calls (Anthropic.tool_use id name input) = id ∷ []
block_calls _ = []

abbrev block_answers : ContentBlockParam → List String
block_answers (Anthropic.tool_result id content) = id ∷ []
block_answers _ = []

abbrev in_content : (ContentBlockParam → List String) → Content → List String
in_content f (Anthropic.plain t) = []
in_content f (Anthropic.blocks bs) = concat_map f bs

abbrev pub anthropic_calls : MessageParam → List String
anthropic_calls m = in_content block_calls m.content

abbrev pub anthropic_answers : MessageParam → List String
anthropic_answers m = in_content block_answers m.content

abbrev pub call_ids : List LlmToolCall → List String
call_ids = map (λ (tc : LlmToolCall). tc.id)

-- Every tool message says which call it answers.
abbrev pub SaysId : ChatMessage → Type 0
SaysId m = elim m.role [ Role.tool ↦ m.tool_call_id ≢ none | _ ↦ Unit {0} ]

call_ids-to_open_ai_call :
    (calls : List LlmToolCall)
    → open_ai_ids (non_empty_list (map to_open_ai_call calls)) ≡ call_ids calls
call_ids-to_open_ai_call [] = refl
call_ids-to_open_ai_call (c ∷ cs) = ap (λ (l : List String). c.id ∷ l) (ids cs)
  where
    ids :
        (calls : List LlmToolCall) → open_ai_ids (some (map to_open_ai_call calls)) ≡ call_ids calls
    ids [] = refl
    ids (d ∷ ds) = ap (λ (l : List String). d.id ∷ l) (ids ds)

call_ids-tool_use_block :
    (calls : List LlmToolCall)
    → (concat_map block_calls (map tool_use_block calls) ≡ call_ids calls)
      × (concat_map block_answers (map tool_use_block calls) ≡ [])
call_ids-tool_use_block [] = (refl, refl)
call_ids-tool_use_block (c ∷ cs) =
    let (calls, answers) = call_ids-tool_use_block cs in
    (ap (λ (l : List String). c.id ∷ l) calls, answers)

-- One message, as each provider sends it.
abbrev SentOpenAi : ChatMessage → Type 0
SentOpenAi m =
    (open_ai_calls (to_open_ai_message m) ≡ call_ids (calls_of m))
    × (open_ai_answers (to_open_ai_message m) ≡ answer_of m)

abbrev SentAnthropic : ChatMessage → Type 0
SentAnthropic m =
    (anthropic_calls (to_anthropic_message m) ≡ call_ids (calls_of m))
    × (anthropic_answers (to_anthropic_message m) ≡ answer_of m)

message-Sent :
    (role : Role) (content : Text) (tool_calls : Option (List LlmToolCall))
    (tool_call_id : Option String)
    → let m : ChatMessage = record {
      role = role;
      content = content;
      tool_calls = tool_calls;
      tool_call_id = tool_call_id;
    } in
      SaysId m → SentOpenAi m × SentAnthropic m
unfolding to_open_ai_message to_anthropic_message
message-Sent Role.user content tool_calls tool_call_id says = ((refl, refl), (refl, refl))
message-Sent Role.tool content tool_calls none says = elim (says refl) [ ]
message-Sent Role.tool content tool_calls (some id) says = ((refl, refl), (refl, refl))
message-Sent Role.assistant [] tool_calls tool_call_id says =
    let (calls, answers) = call_ids-tool_use_block (or_else tool_calls []) in
    ((call_ids-to_open_ai_call (or_else tool_calls []), refl), (calls, answers))
message-Sent Role.assistant (c ∷ content) tool_calls tool_call_id says =
    let (calls, answers) = call_ids-tool_use_block (or_else tool_calls []) in
    ((call_ids-to_open_ai_call (or_else tool_calls []), refl), (calls, answers))

messages-Sent :
    (ms : List ChatMessage)
    → All SaysId ms
    → ((concat_map open_ai_calls (map to_open_ai_message ms) ≡ call_ids (assistant_calls ms))
        × (concat_map open_ai_answers (map to_open_ai_message ms) ≡ answered_ids ms))
      × (concat_map anthropic_calls (map to_anthropic_message ms) ≡ call_ids (assistant_calls ms))
      × (concat_map anthropic_answers (map to_anthropic_message ms) ≡ answered_ids ms)
unfolding assistant_calls answered_ids
messages-Sent [] says = ((refl, refl), refl, refl)
messages-Sent (m ∷ ms) says =
    let ((calls, answers), (calls', answers')) =
      message-Sent m.role m.content m.tool_calls m.tool_call_id says.0 in
    let ((later, later_answers), later', later_answers') = messages-Sent ms says.1 in
    let split = map-append (λ (tc : LlmToolCall). tc.id) (calls_of m) (assistant_calls ms) in
    (
      (
        ap₂ (λ (x y : List String). x ++ y) calls later ∙ sym split,
        ap₂ (λ (x y : List String). x ++ y) answers later_answers,
      ),
      ap₂ (λ (x y : List String). x ++ y) calls' later' ∙ sym split,
      ap₂ (λ (x y : List String). x ++ y) answers' later_answers',
    )

system_messages-silent :
    (text : Option Text) (ms : List OpenAiMessage)
    → (concat_map open_ai_calls (system_messages text ++ ms) ≡ concat_map open_ai_calls ms)
      × (concat_map open_ai_answers (system_messages text ++ ms) ≡ concat_map open_ai_answers ms)
system_messages-silent none ms = (refl, refl)
system_messages-silent (some []) ms = (refl, refl)
system_messages-silent (some (c ∷ text)) ms = (refl, refl)

-- If every tool message says which call it answers, then both providers send the ids of exactly
-- the calls that the history's assistant messages make and of exactly the answers that its tool
-- messages give, each in the history's order: what is pending in the history is what is pending in
-- what the model sees.
pub providers-same_calls :
    {Schema : Type 0} (request : LlmRequest Schema)
    → All SaysId request.messages
    → ((concat_map open_ai_calls (to_open_ai_messages request)
          ≡ call_ids (assistant_calls request.messages))
        × (concat_map open_ai_answers (to_open_ai_messages request)
            ≡ answered_ids request.messages))
      × (concat_map anthropic_calls (map to_anthropic_message request.messages)
          ≡ call_ids (assistant_calls request.messages))
      × (concat_map anthropic_answers (map to_anthropic_message request.messages)
          ≡ answered_ids request.messages)
unfolding to_open_ai_messages
providers-same_calls request says =
    let ((calls, answers), calls', answers') = messages-Sent request.messages says in
    let (silent, silent') =
      system_messages-silent request.system (map to_open_ai_message request.messages) in
    ((silent ∙ calls, silent' ∙ answers), calls', answers')
