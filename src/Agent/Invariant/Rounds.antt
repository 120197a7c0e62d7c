-- ===== src/Agent/Invariant/Rounds.antt =====
-- The rounds of `runLoop` keep what the tools and the conversation store keep.
use agentdesk_nestjs.Base.{
  ℕ, zero, suc, List, [], ◌∷◌, Option, none, some, String, Text, ◌>>=◌, ◌>>◌, pure, Keeps,
  Keeps-bind, Keeps-try_catch, Keeps-if, arith, ltb, Exception,
}
use agentdesk_nestjs.Llm.{
  LlmToolCall, LlmRequest, LlmResponse, LlmStopReason, ChatMessage, ToolDefinition, LlmUsage,
}
use agentdesk_nestjs.Tools.{get_definitions}
use agentdesk_nestjs.Conversation.{ConversationStatus}
use agentdesk_nestjs.Agent.{AgentService, Run, on_provider, emit, wait}
use agentdesk_nestjs.Agent.Retry.{
  retry, back_off, backoff_ms, request_for, call_llm_with_retry, check_budget,
}
use agentdesk_nestjs.Agent.Batch.{Buckets, execute_read_only, execute_mutating, partition}
use agentdesk_nestjs.Agent.Loop.{
  Outcome, finished, again, persist, finish, pause_or_go_on, act, after_response, ask, after_check,
  round, exhausted, push_message, assistant_message, iteration_event, count_response, respond,
  respond_paused, exhausted_message, continue_with, loop, run_loop, is_final,
}
use agentdesk_nestjs.Agent.Invariant.{
  ToolsKeep, StoreKeeps, Holds, on_store-Keeps, execute_read_only-Keeps, execute_mutating-Keeps,
}

module _ {Schema S P : Type 0} (I : S → Type 0) (service : AgentService Schema S P)
    (tools : ToolsKeep I service.registry) (store : StoreKeeps I service.conversations) where
  persist-Keeps :
      (cid : String) (run : Run) (status : ConversationStatus)
      → Keeps (Holds I service tools store) (persist service cid run status)
  unfolding persist
  persist-Keeps cid run status =
      on_store-Keeps I service tools store
        (service.conversations.update_messages cid run.messages (some status))
        (store.update_keeps cid run.messages (some status))

  persist_then-Keeps :
      {A : Type 0} (cid : String) (run : Run) (status : ConversationStatus) (a : A)
      → Keeps (Holds I service tools store) (persist service cid run status >> pure a)
  persist_then-Keeps cid run status a =
      Keeps-bind (Holds I service tools store) (persist service cid run status) (λ _. pure a)
        (persist-Keeps cid run status) (λ _ w h. h)

  pause_or_go_on-Keeps :
      (cid : String) (calls : List LlmToolCall) (run : Run)
      → Keeps (Holds I service tools store) (pause_or_go_on service cid calls run)
  unfolding pause_or_go_on
  pause_or_go_on-Keeps cid [] run w h = h
  pause_or_go_on-Keeps cid (tc ∷ tcs) run w h =
      persist_then-Keeps cid run ConversationStatus.paused
        (finished (respond_paused cid run (tc ∷ tcs))) _ h

  finish-Keeps :
      (cid : String) (run : Run) (message : Text) (reason : LlmStopReason)
      → Keeps (Holds I service tools store) (finish service cid run message reason)
  unfolding finish
  finish-Keeps cid run message reason =
      persist_then-Keeps cid run ConversationStatus.completed
        (finished (respond cid run message reason))

  act-Keeps :
      (cid : String) (b : Buckets) (run : Run)
      → Keeps (Holds I service tools store) (act service cid b run)
  unfolding act
  act-Keeps cid b run =
      Keeps-bind (Holds I service tools store)
        (execute_read_only service (service.completes run.acc.iterations) b.read_only run)
        (λ run₁.
          execute_mutating service b.mutating run₁ >>= pause_or_go_on service cid b.needs_approval)
        (execute_read_only-Keeps I service tools store (service.completes run.acc.iterations)
          b.read_only run)
        (λ run₁.
          Keeps-bind (Holds I service tools store) (execute_mutating service b.mutating run₁)
            (pause_or_go_on service cid b.needs_approval)
            (execute_mutating-Keeps I service tools store b.mutating run₁)
            (pause_or_go_on-Keeps cid b.needs_approval))

  after_response-Keeps :
      (cid : String) (response : LlmResponse) (run : Run)
      → Keeps (Holds I service tools store) (after_response service cid response run)
  unfolding after_response
  after_response-Keeps cid response run =
      Keeps-if (Holds I service tools store) (is_final response)
        (finish service cid run response.content response.stop_reason)
        (act service cid (partition service.registry response.tool_calls)
          (push_message (assistant_message response) run))
        (finish-Keeps cid run response.content response.stop_reason)
        (act-Keeps cid (partition service.registry response.tool_calls)
          (push_message (assistant_message response) run))

  retry-Keeps :
      (request : LlmRequest Schema) (left attempt : ℕ) (last_error : Option Exception)
      → Keeps (Holds I service tools store) (retry service request left attempt last_error)
  unfolding retry
  retry-Keeps request zero attempt last_error = λ w h. h
  retry-Keeps request (suc left) attempt last_error =
      Keeps-try_catch (Holds I service tools store) (on_provider (service.llm request))
        (λ err. back_off service attempt >> retry service request left (suc attempt) (some err))
        (λ w h. h)
        (λ err.
          Keeps-bind (Holds I service tools store) (back_off service attempt)
            (λ _. retry service request left (suc attempt) (some err))
            (Keeps-if (Holds I service tools store) (ltb attempt service.max_retries)
              (wait (backoff_ms attempt)) (pure tt) (λ w h. h) (λ w h. h))
            (λ _. retry-Keeps request left (suc attempt) (some err)))

  call_llm-Keeps :
      (messages : List ChatMessage) (definitions : List (ToolDefinition Schema)) (system : Text)
      → Keeps
          (Holds I service tools store)
          (call_llm_with_retry service messages definitions system)
  unfolding call_llm_with_retry
  call_llm-Keeps messages definitions system =
      retry-Keeps (request_for service messages definitions system) service.max_retries 1 none

  ask-Keeps :
      (cid : String) (system : Text) (run : Run)
      → Keeps (Holds I service tools store) (ask service cid system run)
  unfolding ask
  ask-Keeps cid system run =
      Keeps-bind (Holds I service tools store)
        (call_llm_with_retry service run.messages (get_definitions service.registry) system)
        (λ response.
          emit (iteration_event run response)
          >> after_response service cid response (count_response run response))
        (call_llm-Keeps run.messages (get_definitions service.registry) system)
        (λ response w h. after_response-Keeps cid response (count_response run response) _ h)

  check_budget-Keeps :
      (iterations : ℕ) (usage : LlmUsage) (start : ℕ)
      → Keeps (Holds I service tools store) (check_budget service iterations usage start)
  unfolding check_budget
  check_budget-Keeps iterations usage start w h = ground arith

  round-Keeps :
      (cid : String) (system : Text) (start : ℕ) (run : Run)
      → Keeps (Holds I service tools store) (round service cid system start run)
  unfolding round
  round-Keeps cid system start run =
      Keeps-bind (Holds I service tools store)
        (check_budget service run.acc.iterations run.acc.usage start)
        (after_check service cid system run)
        (check_budget-Keeps run.acc.iterations run.acc.usage start) checked
    where
      checked :
          (early : Option Text)
          → Keeps (Holds I service tools store) (after_check service cid system run early)
      checked (some reason) =
          unfold after_check in finish-Keeps cid run _ LlmStopReason.max_iterations
      checked none = unfold after_check in ask-Keeps cid system run

  exhausted-Keeps :
      (cid : String) (run : Run) → Keeps (Holds I service tools store) (exhausted service cid run)
  unfolding exhausted
  exhausted-Keeps cid run =
      persist_then-Keeps cid run ConversationStatus.completed
        (respond cid run exhausted_message LlmStopReason.max_iterations)

  loop-Keeps :
      (cid : String) (fuel : ℕ) (system : Text) (start : ℕ) (run : Run)
      → Keeps (Holds I service tools store) (loop service cid fuel system start run)
  unfolding loop
  loop-Keeps cid zero system start run = exhausted-Keeps cid run
  loop-Keeps cid (suc fuel) system start run =
      Keeps-if (Holds I service tools store) (ltb run.acc.iterations service.budget.max_iterations)
        (round service cid system start run
          >>= continue_with (λ next. loop service cid fuel system start next))
        (exhausted service cid run)
        (Keeps-bind (Holds I service tools store) (round service cid system start run)
          (continue_with (λ next. loop service cid fuel system start next))
          (round-Keeps cid system start run)
          (continued (λ next. loop-Keeps cid fuel system start next)))
        (exhausted-Keeps cid run)
    where
      continued :
          ((next : Run)
            → Keeps (Holds I service tools store) (loop service cid fuel system start next))
          → (outcome : Outcome)
          → Keeps
              (Holds I service tools store)
              (continue_with (λ next. loop service cid fuel system start next) outcome)
      continued ih (finished response) w h = h
      continued ih (again next) w h = ih next w h

  -- The loop keeps what the tools and the conversation store keep.
  pub run_loop-Keeps :
      (cid : String) (system : Text) (run : Run)
      → Keeps (Holds I service tools store) (run_loop service cid system run)
  unfolding run_loop
  run_loop-Keeps cid system run w h = loop-Keeps cid _ system _ run _ h
