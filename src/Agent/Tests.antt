-- ===== src/Agent/Tests.antt =====
-- Small worlds for the agent to run in, and what its runs compute with.
mod LoopTests
mod HistoryTests
mod ApprovalTests
use agentdesk_nestjs.Base.{true, List, [], ◌∷◌, some, Action, ok, lookup, insert}
use agentdesk_nestjs.Json.{Fields, stringify}
use agentdesk_nestjs.Llm.{LlmToolCall}
use agentdesk_nestjs.Tools.{ToolResult, success, get_tool, get_definitions}
use agentdesk_nestjs.Json.{num}
use agentdesk_nestjs.Tools.Execute.{
  execute, dispatch, run_parsed, run_tool, shorten_result, shorten,
}
use agentdesk_nestjs.Conversation.{to_messages}
use agentdesk_nestjs.Agent.{record_answer}
use agentdesk_nestjs.Agent.Retry.{retry, call_llm_with_retry, check_budget}
use agentdesk_nestjs.Agent.Batch.{
  partition, partition_from, sort_call, settle, settle_at, settle_in, settle_rest, all_settled,
  record_settled, execute_read_only, execute_mutating,
}
use agentdesk_nestjs.Agent.Loop.{
  persist, finish, pause_or_go_on, act, after_response, ask, after_check, round, exhausted, loop,
  run_loop,
}
use agentdesk_nestjs.Agent.Approval.{
  ApproveDecision, answered_ids, assistant_calls, pending_calls, decide, check_flow, is_approved,
  carry_out, apply_decisions, load_conversation, review, approve, open_conversation, chat,
}
use agentdesk_nestjs.Agent.Fixture.{
  Memory, Script, call, asks_for, says, world_with, paused_history,
}
use agentdesk_nestjs.Agent.{World}
use agentdesk_nestjs.Json.{Fields, num}
use agentdesk_nestjs.Tools.{ToolResult, success}
use agentdesk_nestjs.Base.{Action, ok}

-- Everything that a run of the agent computes with.
unfoldable pub program : Unit {0}
unfolding execute dispatch run_parsed run_tool shorten_result shorten get_tool get_definitions
    lookup insert stringify to_messages record_answer retry call_llm_with_retry check_budget
    partition partition_from sort_call settle settle_at settle_in settle_rest all_settled
    record_settled execute_read_only execute_mutating persist finish pause_or_go_on act
    after_response ask after_check round exhausted loop run_loop answered_ids assistant_calls
    pending_calls decide check_flow is_approved carry_out apply_decisions load_conversation review
    approve open_conversation chat
program = tt

abbrev pub mixed : List LlmToolCall
mixed = call "a" "wipe" ∷ call "b" "add" ∷ call "c" "count" ∷ call "d" "nothing" ∷ []

abbrev pub mixed_script : Script
mixed_script = some (asks_for mixed) ∷ []

abbrev pub busy : World Memory Script
busy =
    world_with (some (asks_for (call "b" "add" ∷ call "c" "count" ∷ [])) ∷ some (says "done") ∷ [])
      (("c", []) ∷ [])

abbrev pub approval : List ApproveDecision
approval = record { tool_call_id = "t1"; approved = true } ∷ []

abbrev pub waiting : World Memory Script
waiting = world_with (some (says "done") ∷ []) (("c", paused_history) ∷ [])

-- Wipes the counter, whatever the tool was meant to do.
abbrev pub wipe_all : Fields → Action Memory ToolResult
wipe_all _ s = (ok (success (num 0)), record s { count = 0 })
