-- ===== src/Agent/Approval.antt =====
-- src/agent/agent.service.ts: `approve`, `chat` and `loadConversation`.
pub mod Decisions
pub mod Verdicts
pub mod Execution
pub mod Outcomes
pub mod Outage
use agentdesk_nestjs.Base.{
  Bool, true, false, not, List, [], ◌∷◌, ◌++◌, Option, none, some, or_else, String, Text, units,
  Dict, lookup, insert, has, any, select, concat_map, str_eq, if◌then◌else◌, Action, Result, ok,
  raise, and_then, lift, Exception, bad_request, ◌>>=◌, ◌>>◌, pure,
}
use agentdesk_nestjs.Llm.{Role, LlmToolCall, ChatMessage}
use agentdesk_nestjs.Tools.{ToolResult, failure, rejected_by_user, Tool, Registry, get_tool}
use agentdesk_nestjs.Tools.Execute.{execute}
use agentdesk_nestjs.Conversation.{ConversationIdAndMessages, to_messages}
use agentdesk_nestjs.Agent.{
  ChatResponse, World, AgentService, Run, Event, fresh_acc, record_answer, on_store, emit,
}
use agentdesk_nestjs.Agent.Batch.{approval_flag}
use agentdesk_nestjs.Agent.Loop.{is_empty, run_loop}

pub record ApproveDecision : Type 0 where
  pub tool_call_id : String
  pub approved : Bool

-- The ids that the tool messages answer.
abbrev pub answer_of : ChatMessage → List String
answer_of m = elim m.role [
  | Role.tool ↦ elim m.tool_call_id [ none ↦ [] | some id ↦ id ∷ [] ]
  | _ ↦ []
]

unfoldable pub answered_ids : List ChatMessage → List String
answered_ids messages = concat_map answer_of messages

-- The calls that the assistant messages made.
abbrev pub calls_of : ChatMessage → List LlmToolCall
calls_of m = elim m.role [ Role.assistant ↦ or_else m.tool_calls [] | _ ↦ [] ]

unfoldable pub assistant_calls : List ChatMessage → List LlmToolCall
assistant_calls messages = concat_map calls_of messages

abbrev pub contains : List String → String → Bool
contains ids id = any (λ j. str_eq j id) ids

-- The calls that no tool message answers.
unfoldable pub pending_calls : List ChatMessage → List LlmToolCall
pending_calls messages =
    select (λ tc. not (contains (answered_ids messages) tc.id)) (assistant_calls messages)

abbrev pub duplicate_decision : String → Exception
duplicate_decision id =
    bad_request (units "Duplicate decision for toolCallId \"" ++ (units id ++ units "\"."))

abbrev pub unknown_call : String → Exception
unknown_call id = bad_request (units "Unknown toolCallId \"" ++ (units id ++ units "\"."))

abbrev pub not_in_flow : String → Exception
not_in_flow name =
    bad_request (units "Tool \"" ++ (units name ++ units "\" is not part of the approval flow."))

abbrev pub nothing_pending : Exception
nothing_pending = bad_request (units "No pending approval tool calls found for this conversation.")

abbrev pub is_pending : List LlmToolCall → String → Bool
is_pending pending id = any (λ (tc : LlmToolCall). str_eq tc.id id) pending

-- The loop that checks the decisions and fills `decisionById`.
unfoldable pub decide : List LlmToolCall → Dict Bool → List ApproveDecision → Result (Dict Bool)
decide pending by_id [] = ok by_id
decide pending by_id (d ∷ decisions) =
    let rest = decide pending (insert d.tool_call_id d.approved by_id) decisions in
    if has d.tool_call_id by_id
    then raise (duplicate_decision d.tool_call_id)
    else if not (is_pending pending d.tool_call_id)
    then raise (unknown_call d.tool_call_id)
    else rest

-- The loop that checks that every pending call is one of the approval flow.
unfoldable pub check_flow :
    {Schema S : Type 0} → Registry Schema S → List LlmToolCall → Result (Unit {0})
check_flow tools [] = ok tt
check_flow tools (tc ∷ tcs) =
    let rest = check_flow tools tcs in
    if approval_flag (get_tool tc.name tools) then rest else raise (not_in_flow tc.name)

-- `allDecided.has(tc.id) ? decisionById.get(tc.id) === true : false`
unfoldable pub is_approved : Dict Bool → LlmToolCall → Bool
is_approved by_id tc = elim (lookup tc.id by_id) [ none ↦ false | some approved ↦ approved ]

abbrev pub denied : ToolResult
denied =
    failure (record { code = rejected_by_user; message = units "The user denied this action." })

abbrev pub effective : Dict Bool → List LlmToolCall → List (LlmToolCall × Bool)
effective by_id [] = []
effective by_id (tc ∷ tcs) = (tc, is_approved by_id tc) ∷ effective by_id tcs

-- The checks of `approve`, in their order: the pending calls with their decisions.
unfoldable pub review :
    {Schema S : Type 0}
    → Registry Schema S
    → List ChatMessage
    → List ApproveDecision
    → Result (List (LlmToolCall × Bool))
review tools messages decisions =
    let pending = pending_calls messages in
    if is_empty pending
    then raise nothing_pending
    else and_then (decide pending [] decisions)
        λ by_id. and_then (check_flow tools pending) λ _. ok (effective by_id pending)

-- A conversation id that is absent or empty starts a new conversation.
abbrev pub given : Option String → Option String
given none = none
given (some id) = if str_eq id "" then none else some id

abbrev pub user_message : Text → ChatMessage
user_message text = record {
  role = Role.user;
  content = text;
  tool_calls = none;
  tool_call_id = none;
}

-- The history that a turn starts from.
abbrev pub start_messages :
    Option String → Option (List ChatMessage) → List ChatMessage → List ChatMessage
start_messages none (some history) stored = history
start_messages _ _ stored = stored

module _ {Schema S P : Type 0} (service : AgentService Schema S P) where
  -- The result of one decided call: only an approved one is executed.
  unfoldable pub carry_out : Bool → LlmToolCall → Action S ToolResult
  carry_out true tc = execute service.zod service.registry tc.name tc.arguments
  carry_out false tc = pure denied

  abbrev pub decision_event : Bool → LlmToolCall → Run → Event
  decision_event true tc run = Event.approval_granted tc.id tc.name run.acc.iterations
  decision_event false tc run = Event.approval_denied tc.id tc.name run.acc.iterations

  -- The loop over the pending calls, each with its decision.
  unfoldable pub apply_decisions : List (LlmToolCall × Bool) → Run → Action (World S P) Run
  apply_decisions [] run = pure run
  apply_decisions ((tc, approved) ∷ rest) run = do
    result ← on_store (carry_out approved tc)
    emit (decision_event approved tc run)
    apply_decisions rest (record_answer tc result run)

  unfoldable pub load_conversation : String → Action S ConversationIdAndMessages
  load_conversation id = service.conversations.find id >>= λ c.
      pure (record { id = c.id; messages = to_messages c.messages })

  unfoldable pub approve : String → List ApproveDecision → Action (World S P) ChatResponse
  approve conversation_id decisions = do
    existing ← on_store (load_conversation conversation_id)
    decided ← lift (review service.registry existing.messages decisions)
    run ← apply_decisions decided (record { messages = existing.messages; acc = fresh_acc 1 })
    run_loop service conversation_id service.default_system_prompt run

  unfoldable pub open_conversation :
      Option String → Option (List ChatMessage) → Option String → Action S ConversationIdAndMessages
  open_conversation (some id) history user_id = load_conversation id
  open_conversation none history user_id = service.conversations.create (or_else history []) user_id

  -- `user_id` is the user of the request's tenant context.
  unfoldable pub chat :
      Option String
      → Text
      → Option (List ChatMessage)
      → Option Text
      → Option String
      → Action (World S P) ChatResponse
  chat user_id text history system_prompt conversation_id = do
    existing ← on_store (open_conversation (given conversation_id) history user_id)
    run_loop service existing.id (or_else system_prompt service.default_system_prompt) (record {
      messages =
          start_messages (given conversation_id) history existing.messages
          ++ user_message text ∷ [];
      acc = fresh_acc 0;
    })
