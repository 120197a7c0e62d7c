-- ===== src/Agent/Safety.antt =====
-- The loop never runs a tool that needs approval: with the bodies of these tools exchanged for any
-- other, it does the same.
pub mod Rounds
pub mod Entry
use agentdesk_nestjs.Base.{
  ℕ, zero, suc, ◌≡◌, refl, ap, false, List, [], ◌∷◌, none, some, All, Action, bind_cong,
}
use mathlib.Core.Path.{fun_ext}
use agentdesk_nestjs.Json.{Fields}
use agentdesk_nestjs.Llm.{LlmToolCall}
use agentdesk_nestjs.Tools.{ToolResult}
use agentdesk_nestjs.Agent.{AgentService, Run, record_answer, on_store}
use agentdesk_nestjs.Agent.Batch.{
  Slots, Settled, open_slots, settled_of, settle, settle_at, settle_in, settle_rest, all_settled,
  run_call, execute_read_only, execute_mutating,
}
use agentdesk_nestjs.Agent.Batch.Partition.{wants_approval}
use agentdesk_nestjs.Agent.Disarm.{disarm, execute-disarm}

module _ {Schema S P : Type 0} (body : Fields → Action S ToolResult)
    (service : AgentService Schema S P) where
  -- The agent over the registry whose gated bodies are exchanged.
  abbrev pub disarmed : AgentService Schema S P
  disarmed = record service { registry = disarm body service.registry }

  -- The call's tool needs no approval.
  abbrev pub Free : LlmToolCall → Type 0
  Free tc = wants_approval service.registry tc ≡ false

  settle-disarmed : (tc : LlmToolCall) → Free tc → settle disarmed tc ≡ settle service tc
  unfolding settle
  settle-disarmed tc free =
      ap {B = S → Settled × S} (λ m s. (settled_of (m s).0, (m s).1))
        (execute-disarm body service.zod service.registry tc.name tc.arguments free)

  run_call-disarmed : (tc : LlmToolCall) → Free tc → run_call disarmed tc ≡ run_call service tc
  run_call-disarmed tc free =
      execute-disarm body service.zod service.registry tc.name tc.arguments free

  abbrev FreeSlots : Slots → Type 0
  FreeSlots = All (λ slot. Free slot.0)

  settle_at-disarmed :
      (i : ℕ) (slots : Slots) (s : S)
      → FreeSlots slots
      → settle_at disarmed i slots s ≡ settle_at service i slots s
  unfolding settle_at
  settle_at-disarmed i [] s free = refl
  settle_at-disarmed zero ((tc, none) ∷ slots) s free =
      rw (ap (λ (f : S → Settled × S). f s) (settle-disarmed tc free.0))
  settle_at-disarmed zero ((tc, some r) ∷ slots) s free = refl
  settle_at-disarmed (suc i) (slot ∷ slots) s free = rw (settle_at-disarmed i slots s free.1)

  settle_at-FreeSlots :
      (i : ℕ) (slots : Slots) (s : S) → FreeSlots slots → FreeSlots (settle_at service i slots s).0
  unfolding settle_at
  settle_at-FreeSlots i [] s free = tt
  settle_at-FreeSlots zero ((tc, none) ∷ slots) s free = free
  settle_at-FreeSlots zero ((tc, some r) ∷ slots) s free = free
  settle_at-FreeSlots (suc i) (slot ∷ slots) s free = (free.0, settle_at-FreeSlots i slots s free.1)

  settle_in-disarmed :
      (order : List ℕ) (slots : Slots) (s : S)
      → FreeSlots slots
      → settle_in disarmed order slots s ≡ settle_in service order slots s
  unfolding settle_in
  settle_in-disarmed [] slots s free = refl
  settle_in-disarmed (i ∷ order) slots s free =
      rw (settle_at-disarmed i slots s free)
        (settle_in-disarmed order _ _ (settle_at-FreeSlots i slots s free))

  settle_in-FreeSlots :
      (order : List ℕ) (slots : Slots) (s : S)
      → FreeSlots slots
      → FreeSlots (settle_in service order slots s).0
  unfolding settle_in
  settle_in-FreeSlots [] slots s free = free
  settle_in-FreeSlots (i ∷ order) slots s free =
      settle_in-FreeSlots order _ _ (settle_at-FreeSlots i slots s free)

  settle_rest-disarmed :
      (slots : Slots) (s : S)
      → FreeSlots slots
      → settle_rest disarmed slots s ≡ settle_rest service slots s
  unfolding settle_rest
  settle_rest-disarmed [] s free = refl
  settle_rest-disarmed ((tc, some r) ∷ slots) s free = rw (settle_rest-disarmed slots s free.1)
  settle_rest-disarmed ((tc, none) ∷ slots) s free =
      rw (ap (λ (f : S → Settled × S). f s) (settle-disarmed tc free.0))
        (rw (settle_rest-disarmed slots (settle service tc s).1 free.1))

  all_settled-disarmed :
      (order : List ℕ) (calls : List LlmToolCall) (s : S)
      → All Free calls
      → all_settled disarmed order calls s ≡ all_settled service order calls s
  unfolding all_settled
  all_settled-disarmed order calls s free =
      rw (settle_in-disarmed order (open_slots calls) s (FreeSlots-open calls free)) (
        settle_rest-disarmed _ _
          (settle_in-FreeSlots order (open_slots calls) s (FreeSlots-open calls free)))
    where
      FreeSlots-open : (calls : List LlmToolCall) → All Free calls → FreeSlots (open_slots calls)
      FreeSlots-open [] free = tt
      FreeSlots-open (tc ∷ tcs) free = (free.0, FreeSlots-open tcs free.1)

  pub execute_read_only-disarmed :
      (order : List ℕ) (calls : List LlmToolCall) (run : Run)
      → All Free calls
      → execute_read_only disarmed order calls run ≡ execute_read_only service order calls run
  unfolding execute_read_only
  execute_read_only-disarmed order [] run free = refl
  execute_read_only-disarmed order (tc ∷ tcs) run free =
      fun_ext λ w. rw (all_settled-disarmed order (tc ∷ tcs) w.store free)

  pub execute_mutating-disarmed :
      (calls : List LlmToolCall) (run : Run)
      → All Free calls
      → execute_mutating disarmed calls run ≡ execute_mutating service calls run
  unfolding execute_mutating
  execute_mutating-disarmed [] run free = refl
  execute_mutating-disarmed (tc ∷ tcs) run free =
      bind_cong (ap (λ (f : Action S ToolResult). on_store f) (run_call-disarmed tc free.0))
        (λ result. execute_mutating-disarmed tcs (record_answer tc result run) free.1)
