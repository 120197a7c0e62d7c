-- ===== src/Agent/Loop.antt =====
-- src/agent/agent.service.ts: `runLoop`, round by round.
pub mod Bounds
pub mod Fuel
use agentdesk_nestjs.Base.{
  ℕ, zero, suc, ◌+◌, ◌-◌, Bool, true, false, ◌||◌, not, List, [], ◌∷◌, ◌++◌, Option, none, some,
  String, Text, units, length, ltb, if◌then◌else◌, Action, ◌>>=◌, ◌>>◌, pure,
}
use agentdesk_nestjs.Llm.{Role, LlmStopReason, LlmToolCall, ChatMessage, LlmUsage, LlmResponse}
use agentdesk_nestjs.Tools.{get_definitions}
use agentdesk_nestjs.Conversation.{ConversationStatus}
use agentdesk_nestjs.Agent.{
  ChatResponse, World, AgentService, Run, Event, on_store, emit, read_clock,
}
use agentdesk_nestjs.Agent.Retry.{call_llm_with_retry, check_budget}
use agentdesk_nestjs.Agent.Batch.{Buckets, partition, execute_read_only, execute_mutating}

-- How a round ends: the run returns, or it goes on.
pub data Outcome : Type 0 where
  finished : ChatResponse → Outcome
  again : Run → Outcome

abbrev pub is_tool_use : LlmStopReason → Bool
is_tool_use LlmStopReason.tool_use = true
is_tool_use _ = false

abbrev pub is_empty : {A : Type 0} → List A → Bool
is_empty [] = true
is_empty (x ∷ xs) = false

-- `response.stopReason !== 'tool_use' || response.toolCalls.length === 0`
abbrev pub is_final : LlmResponse → Bool
is_final response = not (is_tool_use response.stop_reason) || is_empty response.tool_calls

abbrev pub add_usage : LlmUsage → LlmUsage → LlmUsage
add_usage u v = record {
  input_tokens = u.input_tokens + v.input_tokens;
  output_tokens = u.output_tokens + v.output_tokens;
}

-- A response with no approval pending.
abbrev pub respond : String → Run → Text → LlmStopReason → ChatResponse
respond conversation_id run message stop_reason = record {
  conversation_id = conversation_id;
  message = message;
  tool_calls = run.acc.tool_calls;
  tool_results = run.acc.tool_results;
  usage = run.acc.usage;
  stop_reason = stop_reason;
  iterations = run.acc.iterations;
  awaiting_approval = none;
}

abbrev pub pause_message : Text
pause_message = units "I need your approval before proceeding with the following actions."

abbrev pub exhausted_message : Text
exhausted_message =
    units
      "I reached the maximum number of actions for this request. Please try again with a simpler request."

abbrev pub stopped_message : Text → Text
stopped_message reason =
    units "I stopped early: " ++ (reason ++ units ". Please try a simpler request.")

abbrev pub assistant_message : LlmResponse → ChatMessage
assistant_message response = record {
  role = Role.assistant;
  content = response.content;
  tool_calls = some response.tool_calls;
  tool_call_id = none;
}

-- The response of a paused run.
abbrev pub respond_paused : String → Run → List LlmToolCall → ChatResponse
respond_paused conversation_id run needs_approval =
    record (respond conversation_id run pause_message LlmStopReason.tool_use) {
      tool_calls = run.acc.tool_calls ++ needs_approval;
      awaiting_approval = some (record { tool_calls = needs_approval });
    }

-- `acc.iterations++`, and the usage of the response added.
abbrev pub count_response : Run → LlmResponse → Run
count_response run response = record run {
  acc = record (run.acc) {
    iterations = suc run.acc.iterations;
    usage = add_usage run.acc.usage response.usage;
  };
}

abbrev pub iteration_event : Run → LlmResponse → Event
iteration_event run response =
    Event.iteration (suc run.acc.iterations) response.stop_reason (length response.tool_calls)
      response.usage

abbrev pub push_message : ChatMessage → Run → Run
push_message m run = record run { messages = run.messages ++ m ∷ [] }

-- The run returns, or the next round follows.
abbrev pub continue_with :
    {W : Type 0} → (Run → Action W ChatResponse) → Outcome → Action W ChatResponse
continue_with next (finished response) = pure response
continue_with next (again run) = next run

module _ {Schema S P : Type 0} (service : AgentService Schema S P) (conversation_id : String) where
  -- The `persist` callback of both entry points.
  unfoldable pub persist : Run → ConversationStatus → Action (World S P) (List ChatMessage)
  persist run status =
      on_store (service.conversations.update_messages conversation_id run.messages (some status))

  -- A terminal point that stores the history as completed.
  unfoldable pub finish : Run → Text → LlmStopReason → Action (World S P) Outcome
  finish run message stop_reason =
      persist run ConversationStatus.completed
      >> pure (finished (respond conversation_id run message stop_reason))

  -- What follows the safe calls: a pause if some call needs approval.
  unfoldable pub pause_or_go_on : List LlmToolCall → Run → Action (World S P) Outcome
  pause_or_go_on [] run = pure (again run)
  pause_or_go_on needs_approval run =
      emit (Event.awaiting_approval needs_approval run.acc.iterations)
      >> (persist run ConversationStatus.paused
          >> pure (finished (respond_paused conversation_id run needs_approval)))

  -- The calls of a response: read-only ones first, then the mutating ones, then the pause.
  unfoldable pub act : Buckets → Run → Action (World S P) Outcome
  act b run = do
    run₁ ← execute_read_only service (service.completes run.acc.iterations) b.read_only run
    run₂ ← execute_mutating service b.mutating run₁
    pause_or_go_on b.needs_approval run₂

  unfoldable pub after_response : LlmResponse → Run → Action (World S P) Outcome
  after_response response run =
      if is_final response
      then finish run response.content response.stop_reason
      else act (partition service.registry response.tool_calls)
          (push_message (assistant_message response) run)

  -- One call of the model and what follows it.
  unfoldable pub ask : Text → Run → Action (World S P) Outcome
  ask system run = do
    response ← call_llm_with_retry service run.messages (get_definitions service.registry) system
    emit (iteration_event run response)
    after_response response (count_response run response)

  -- What follows the budget check: an early stop, or a call of the model.
  unfoldable pub after_check : Text → Run → Option Text → Action (World S P) Outcome
  after_check system run (some reason) =
      finish run (stopped_message reason) LlmStopReason.max_iterations
  after_check system run none = ask system run

  -- The body of the `while` loop.
  unfoldable pub round : Text → ℕ → Run → Action (World S P) Outcome
  round system start run =
      check_budget service run.acc.iterations run.acc.usage start >>= after_check system run

  -- What follows the loop.
  unfoldable pub exhausted : Run → Action (World S P) ChatResponse
  exhausted run =
      persist run ConversationStatus.completed
      >> pure (respond conversation_id run exhausted_message LlmStopReason.max_iterations)

  -- The loop with a bound on its rounds. Its own test stops it as soon as the bound is at least
  -- the number of iterations that are left.
  unfoldable pub loop : ℕ → Text → ℕ → Run → Action (World S P) ChatResponse
  loop zero system start run = exhausted run
  loop (suc fuel) system start run =
      let more = round system start run >>= continue_with (λ next. loop fuel system start next) in
      if ltb run.acc.iterations service.budget.max_iterations then more else exhausted run

  unfoldable pub run_loop : Text → Run → Action (World S P) ChatResponse
  run_loop system run = do
    start ← read_clock service.now
    loop (service.budget.max_iterations - run.acc.iterations) system start run
