-- ===== src/Agent.antt =====
-- src/agent/agent.service.ts: the types of the agent, its injected services and the world that it
-- acts on.
pub mod Retry
pub mod Batch
pub mod Loop
pub mod Approval
pub mod Disarm
pub mod Safety
pub mod History
pub mod Invariant
pub mod Fixture
mod Tests
use agentdesk_nestjs.Base.{
  ℕ, suc, Bool, List, [], ◌∷◌, ◌++◌, Option, none, some, String, Text, Action, Result,
}
use agentdesk_nestjs.Json.{Json, stringify}
use agentdesk_nestjs.Llm.{
  Role, LlmStopReason, LlmToolCall, ChatMessage, LlmUsage, LlmRequest, LlmResponse,
}
use agentdesk_nestjs.Tools.{SchemaLibrary, ToolResult, Registry, payload, succeeded}
use agentdesk_nestjs.Conversation.{Conversations}

pub record ToolCallResult : Type 0 where
  pub id : String
  pub name : String
  pub success : Bool
  pub result : Json

pub record PendingApproval : Type 0 where
  pub tool_calls : List LlmToolCall

pub record ChatResponse : Type 0 where
  pub conversation_id : String
  pub message : Text
  pub tool_calls : List LlmToolCall
  pub tool_results : List ToolCallResult
  pub usage : LlmUsage
  pub stop_reason : LlmStopReason
  pub iterations : ℕ
  pub awaiting_approval : Option PendingApproval

pub record LoopBudget : Type 0 where
  pub max_iterations : ℕ
  pub max_total_tokens : ℕ
  pub max_wall_clock_ms : ℕ

pub record LoopAccumulators : Type 0 where
  pub tool_calls : List LlmToolCall
  pub tool_results : List ToolCallResult
  pub usage : LlmUsage
  pub iterations : ℕ

-- What the agent emits.
pub data Event : Type 0 where
  iteration : ℕ → LlmStopReason → ℕ → LlmUsage → Event
  awaiting_approval : List LlmToolCall → ℕ → Event
  approval_granted : String → String → ℕ → Event
  approval_denied : String → String → ℕ → Event

-- `store` is the database, `provider` the state of the LLM provider, `clock` the number of readings
-- of `Date.now()` so far, and `delays` the waits between attempts, in milliseconds.
pub record World (S P : Type 0) : Type 0 where
  pub store : S
  pub provider : P
  pub events : List Event
  pub clock : ℕ
  pub delays : List ℕ

-- The injected services and the settings. `now n` is the n-th reading of the clock. `completes n`
-- is the order in which the concurrent calls of the n-th iteration finish, as positions; calls that
-- it leaves out finish last, in their own order.
pub record AgentService (Schema S P : Type 0) : Type 0 where
  pub llm : LlmRequest Schema → Action P LlmResponse
  pub registry : Registry Schema S
  pub zod : SchemaLibrary Schema
  pub conversations : Conversations S
  pub budget : LoopBudget
  pub default_system_prompt : Text
  pub max_retries : ℕ
  pub model : String
  pub now : ℕ → ℕ
  pub completes : ℕ → List ℕ

-- The mutable state of one run: the message history and the accumulators.
pub record Run : Type 0 where
  pub messages : List ChatMessage
  pub acc : LoopAccumulators

abbrev pub no_usage : LlmUsage
no_usage = record { input_tokens = 0; output_tokens = 0 }

abbrev pub fresh_acc : ℕ → LoopAccumulators
fresh_acc n = record { tool_calls = []; tool_results = []; usage = no_usage; iterations = n }

abbrev pub result_entry : LlmToolCall → ToolResult → ToolCallResult
result_entry tc result = record {
  id = tc.id;
  name = tc.name;
  success = succeeded result;
  result = payload result;
}

abbrev pub tool_message : LlmToolCall → Json → ChatMessage
tool_message tc content = record {
  role = Role.tool;
  content = stringify content;
  tool_calls = none;
  tool_call_id = some tc.id;
}

-- The three pushes that follow every answered call.
unfoldable pub record_answer : LlmToolCall → ToolResult → Run → Run
record_answer tc result run = record {
  messages = run.messages ++ tool_message tc (payload result) ∷ [];
  acc = record (run.acc) {
    tool_calls = run.acc.tool_calls ++ tc ∷ [];
    tool_results = run.acc.tool_results ++ result_entry tc result ∷ [];
  };
}

module _ {S P A : Type 0} where
  abbrev pub on_store : Action S A → Action (World S P) A
  on_store m w = let (r, s) = m w.store in (r, record w { store = s })

  abbrev pub on_provider : Action P A → Action (World S P) A
  on_provider m w = let (r, p) = m w.provider in (r, record w { provider = p })

module _ {S P : Type 0} where
  abbrev pub emit : Event → Action (World S P) (Unit {0})
  emit e w = (Result.ok tt, record w { events = w.events ++ e ∷ [] })

  abbrev pub wait : ℕ → Action (World S P) (Unit {0})
  wait ms w = (Result.ok tt, record w { delays = w.delays ++ ms ∷ [] })

  -- `Date.now()`
  abbrev pub read_clock : (ℕ → ℕ) → Action (World S P) ℕ
  read_clock now w = (Result.ok (now w.clock), record w { clock = suc w.clock })
