-- ===== src/Agent/Batch.antt =====
-- src/agent/agent.service.ts: the tool calls of one response: the partition, `executeReadOnly` and
-- the mutating calls.
pub mod Partition
pub mod Schedule
use agentdesk_nestjs.Base.{
  ℕ, zero, suc, Bool, false, List, [], ◌∷◌, ◌++◌, Option, none, some, units, if◌then◌else◌, Action,
  Result, ok, raise, ◌>>=◌, pure,
}
use agentdesk_nestjs.Llm.{LlmToolCall}
use agentdesk_nestjs.Tools.{ToolResult, failure, internal_error, Tool, Registry, get_tool}
use agentdesk_nestjs.Tools.Execute.{execute}
use agentdesk_nestjs.Agent.{World, AgentService, Run, record_answer, on_store}

pub record Buckets : Type 0 where
  pub read_only : List LlmToolCall
  pub mutating : List LlmToolCall
  pub needs_approval : List LlmToolCall

abbrev pub no_calls : Buckets
no_calls = record { read_only = []; mutating = []; needs_approval = [] }

-- `tool?.requiresApproval === true` and `tool?.mutating`
abbrev pub approval_flag : {Schema S : Type 0} → Option (Tool Schema S) → Bool
approval_flag none = false
approval_flag (some tool) = tool.requires_approval

abbrev pub mutating_flag : {Schema S : Type 0} → Option (Tool Schema S) → Bool
mutating_flag none = false
mutating_flag (some tool) = tool.mutating

-- The outcome of a promise under `Promise.allSettled`.
pub data Settled : Type 0 where
  fulfilled : ToolResult → Settled
  rejected : Settled

abbrev pub Slots : Type 0
Slots = List (LlmToolCall × Option Settled)

abbrev pub open_slots : List LlmToolCall → Slots
open_slots [] = []
open_slots (tc ∷ tcs) = (tc, none) ∷ open_slots tcs

abbrev pub unexpected : ToolResult
unexpected =
    failure (record { code = internal_error; message = units "Tool execution failed unexpectedly" })

abbrev pub settled_of : Result ToolResult → Settled
settled_of (ok result) = fulfilled result
settled_of (raise e) = rejected

-- The result that a settled call leaves in the history.
abbrev pub result_of : Settled → ToolResult
result_of (fulfilled result) = result
result_of rejected = unexpected

unfoldable pub record_settled : List (LlmToolCall × Settled) → Run → Run
record_settled [] run = run
record_settled ((tc, r) ∷ results) run = record_settled results (record_answer tc (result_of r) run)

module _ {Schema S : Type 0} (tools : Registry Schema S) where
  -- One round of the loop that fills the three arrays.
  unfoldable pub sort_call : LlmToolCall → Buckets → Buckets
  sort_call tc b =
      let tool = get_tool tc.name tools in
      if approval_flag tool
      then record b { needs_approval = b.needs_approval ++ tc ∷ [] }
      else if mutating_flag tool
      then record b { mutating = b.mutating ++ tc ∷ [] }
      else record b { read_only = b.read_only ++ tc ∷ [] }

  unfoldable pub partition_from : Buckets → List LlmToolCall → Buckets
  partition_from b [] = b
  partition_from b (tc ∷ tcs) = partition_from (sort_call tc b) tcs

  unfoldable pub partition : List LlmToolCall → Buckets
  partition = partition_from no_calls

module _ {Schema S P : Type 0} (service : AgentService Schema S P) where
  abbrev pub run_call : LlmToolCall → Action S ToolResult
  run_call tc = execute service.zod service.registry tc.name tc.arguments

  unfoldable pub settle : LlmToolCall → S → Settled × S
  settle tc s = let (r, s') = run_call tc s in (settled_of r, s')

  -- The call at a position finishes, unless it already has.
  unfoldable pub settle_at : ℕ → Slots → S → Slots × S
  settle_at i [] s = ([], s)
  settle_at zero ((tc, none) ∷ slots) s = let (r, s') = settle tc s in ((tc, some r) ∷ slots, s')
  settle_at zero ((tc, some r) ∷ slots) s = ((tc, some r) ∷ slots, s)
  settle_at (suc i) (slot ∷ slots) s = let (slots', s') = settle_at i slots s in (slot ∷ slots', s')

  unfoldable pub settle_in : List ℕ → Slots → S → Slots × S
  settle_in [] slots s = (slots, s)
  settle_in (i ∷ order) slots s =
      let (slots', s') = settle_at i slots s in settle_in order slots' s'

  unfoldable pub settle_rest : Slots → S → List (LlmToolCall × Settled) × S
  settle_rest [] s = ([], s)
  settle_rest ((tc, some r) ∷ slots) s =
      let (done, s') = settle_rest slots s in ((tc, r) ∷ done, s')
  settle_rest ((tc, none) ∷ slots) s =
      let (r, s') = settle tc s in let (done, s'') = settle_rest slots s' in ((tc, r) ∷ done, s'')

  -- `Promise.allSettled`: the calls take effect in the order in which they finish, and the results
  -- stand in the order of the calls.
  unfoldable pub all_settled : List ℕ → List LlmToolCall → S → List (LlmToolCall × Settled) × S
  all_settled order calls s =
      let (slots, s') = settle_in order (open_slots calls) s in settle_rest slots s'

  unfoldable pub execute_read_only : List ℕ → List LlmToolCall → Run → Action (World S P) Run
  execute_read_only order [] run = pure run
  execute_read_only order calls run =
      on_store (λ s. let (results, s') = all_settled order calls s in (ok results, s'))
      >>= λ results. pure (record_settled results run)

  unfoldable pub execute_mutating : List LlmToolCall → Run → Action (World S P) Run
  execute_mutating [] run = pure run
  execute_mutating (tc ∷ tcs) run =
      on_store (run_call tc) >>= λ result. execute_mutating tcs (record_answer tc result run)
