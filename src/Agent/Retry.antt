-- ===== src/Agent/Retry.antt =====
-- src/agent/agent.service.ts: `callLlmWithRetry` and `checkBudget`.
pub mod Attempts
use agentdesk_nestjs.Base.{
  ℕ, zero, suc, ◌+◌, ◌-◌, ◌*◌, ◌^◌, List, Option, none, some, or_else, Text, units, decimal, ltb,
  leb, if◌then◌else◌, ◌++◌, Action, Exception, failure, ◌>>=◌, ◌>>◌, pure, throw, try_catch,
}
use agentdesk_nestjs.Llm.{ChatMessage, LlmUsage, LlmRequest, LlmResponse, ToolDefinition}
use agentdesk_nestjs.Agent.{World, AgentService, on_provider, wait, read_clock}

abbrev pub no_attempts : Exception
no_attempts = failure (units "LLM call failed after retries")

-- 500 * 2 ** (attempt - 1)
abbrev pub backoff_ms : ℕ → ℕ
backoff_ms attempt = 500 * 2 ^ (attempt - 1)

module _ {Schema S P : Type 0} (service : AgentService Schema S P) where
  -- The wait before the next attempt, if there is one.
  abbrev pub back_off : ℕ → Action (World S P) (Unit {0})
  back_off attempt = if ltb attempt service.max_retries then wait (backoff_ms attempt) else pure tt

  -- One attempt, and the rest of the `for` loop: `left` attempts are left, the next is `attempt`.
  unfoldable pub retry :
      LlmRequest Schema → ℕ → ℕ → Option Exception → Action (World S P) LlmResponse
  retry request zero attempt last_error = throw (or_else last_error no_attempts)
  retry request (suc left) attempt last_error =
      try_catch (on_provider (service.llm request))
        (λ err. back_off attempt >> retry request left (suc attempt) (some err))

  abbrev pub request_for :
      List ChatMessage → List (ToolDefinition Schema) → Text → LlmRequest Schema
  request_for messages tools system = record {
    model = service.model;
    system = some system;
    messages = messages;
    tools = some tools;
    max_tokens = none;
  }

  unfoldable pub call_llm_with_retry :
      List ChatMessage → List (ToolDefinition Schema) → Text → Action (World S P) LlmResponse
  call_llm_with_retry messages tools system =
      retry (request_for messages tools system) service.max_retries 1 none

  abbrev pub iterations_reason : Text
  iterations_reason =
      units "max iterations reached (" ++ (decimal service.budget.max_iterations ++ units ")")

  abbrev pub tokens_reason : LlmUsage → Text
  tokens_reason usage =
      units "token budget exceeded ("
      ++ (decimal (usage.input_tokens + usage.output_tokens)
          ++ (units "/" ++ (decimal service.budget.max_total_tokens ++ units ")")))

  abbrev pub clock_reason : Text
  clock_reason =
      units "wall clock budget exceeded ("
      ++ (decimal service.budget.max_wall_clock_ms ++ units "ms)")

  -- The clock is read only if the other two tests pass.
  unfoldable pub check_budget : ℕ → LlmUsage → ℕ → Action (World S P) (Option Text)
  check_budget iterations usage start =
      if leb service.budget.max_iterations iterations
      then pure (some iterations_reason)
      else if leb service.budget.max_total_tokens (usage.input_tokens + usage.output_tokens)
      then pure (some (tokens_reason usage))
      else read_clock service.now >>= λ time.
          pure (
            if leb (start + service.budget.max_wall_clock_ms) time then some clock_reason else none)
