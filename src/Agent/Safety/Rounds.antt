-- ===== src/Agent/Safety/Rounds.antt =====
-- The rounds of the loop, and the whole loop, over a disarmed registry.
use agentdesk_nestjs.Base.{
  ℕ, zero, suc, ◌-◌, ◌≡◌, refl, ap, List, [], ◌∷◌, Option, none, some, String, Text, select, All,
  Action, Exception, bind_cong, later_cong, try_catch_cong, arith, Bool-cases, inl, inr, ltb,
  if◌then◌else◌,
}
use agentdesk_nestjs.Json.{Fields}
use agentdesk_nestjs.Llm.{LlmToolCall, LlmRequest, LlmResponse}
use agentdesk_nestjs.Tools.{ToolResult}
use agentdesk_nestjs.Agent.{World, AgentService, Run, ChatResponse, on_provider, emit, read_clock}
use agentdesk_nestjs.Agent.Retry.{back_off, retry, call_llm_with_retry, check_budget}
use agentdesk_nestjs.Agent.Batch.{Buckets, partition, partition_from, sort_call, no_calls}
use agentdesk_nestjs.Agent.Batch.Partition.{is_mutating, is_read_only, partition-select}
use agentdesk_nestjs.Agent.Disarm.{
  disarm, approval_flag-disarm, mutating_flag-disarm, get_definitions-disarm,
}
use agentdesk_nestjs.Agent.Safety.{
  Free, disarmed, execute_read_only-disarmed, execute_mutating-disarmed,
}
use agentdesk_nestjs.Agent.Loop.{
  Outcome, finished, again, act, after_response, ask, round, loop, run_loop, is_final, after_check,
  count_response, iteration_event, continue_with, pause_or_go_on, persist, finish, exhausted,
}

module _ {Schema S P : Type 0} (body : Fields → Action S ToolResult)
    (service : AgentService Schema S P) where
  sort_call-disarm :
      (tc : LlmToolCall) (b : Buckets)
      → sort_call (disarm body service.registry) tc b ≡ sort_call service.registry tc b
  unfolding sort_call
  sort_call-disarm tc b = rw (
    approval_flag-disarm body tc.name service.registry,
    mutating_flag-disarm body tc.name service.registry,
  )

  partition_from-disarm :
      (b : Buckets) (tcs : List LlmToolCall)
      → partition_from (disarm body service.registry) b tcs ≡ partition_from service.registry b tcs
  unfolding partition_from
  partition_from-disarm b [] = refl
  partition_from-disarm b (tc ∷ tcs) =
      rw (sort_call-disarm tc b) (partition_from-disarm (sort_call service.registry tc b) tcs)

  partition-disarm :
      (tcs : List LlmToolCall)
      → partition (disarm body service.registry) tcs ≡ partition service.registry tcs
  unfolding partition
  partition-disarm tcs = partition_from-disarm no_calls tcs

  abbrev AllFree : List LlmToolCall → Type 0
  AllFree = All (Free body service)

  select-Free :
      (tcs : List LlmToolCall)
      → AllFree (select (is_read_only service.registry) tcs)
        × AllFree (select (is_mutating service.registry) tcs)
  select-Free [] = (tt, tt)
  select-Free (tc ∷ tcs) = ground (arith, select-Free tcs)

  partition-Free :
      (tcs : List LlmToolCall)
      → AllFree (partition service.registry tcs).read_only
        × AllFree (partition service.registry tcs).mutating
  partition-Free tcs =
      let (_, writes, reads) = partition-select service.registry tcs in
      (rw reads (select-Free tcs).0, rw writes (select-Free tcs).1)

  retry-disarmed :
      (request : LlmRequest Schema) (left attempt : ℕ) (last_error : Option Exception)
      → retry (disarmed body service) request left attempt last_error
        ≡ retry service request left attempt last_error
  unfolding retry
  retry-disarmed request zero attempt last_error = refl
  retry-disarmed request (suc left) attempt last_error =
      try_catch_cong (on_provider (service.llm request)) (λ err.
        later_cong (back_off service attempt)
          (λ _. retry-disarmed request left (suc attempt) (some err)))

  pause_or_go_on-disarmed :
      (cid : String) (calls : List LlmToolCall) (run : Run)
      → pause_or_go_on (disarmed body service) cid calls run ≡ pause_or_go_on service cid calls run
  unfolding pause_or_go_on persist
  pause_or_go_on-disarmed cid [] run = refl
  pause_or_go_on-disarmed cid (tc ∷ tcs) run = refl

  act-disarmed :
      (cid : String) (b : Buckets) (run : Run)
      → AllFree b.read_only
      → AllFree b.mutating
      → act (disarmed body service) cid b run ≡ act service cid b run
  unfolding act
  act-disarmed cid b run reads writes =
      bind_cong
        (execute_read_only-disarmed body service (service.completes run.acc.iterations) b.read_only
          run reads)
        (λ run₁.
          bind_cong (execute_mutating-disarmed body service b.mutating run₁ writes)
            (pause_or_go_on-disarmed cid b.needs_approval))

  after_response-disarmed :
      (cid : String) (response : LlmResponse) (run : Run)
      → after_response (disarmed body service) cid response run
        ≡ after_response service cid response run
  unfolding after_response finish persist
  after_response-disarmed cid response run = elim (Bool-cases (is_final response)) [
    | inl final ↦ rw final
    | inr more ↦
        let (reads, writes) = partition-Free response.tool_calls in
        rw (more, partition-disarm response.tool_calls) (act-disarmed cid _ _ reads writes)
  ]

  ask-disarmed :
      (cid : String) (system : Text) (run : Run)
      → ask (disarmed body service) cid system run ≡ ask service cid system run
  unfolding ask call_llm_with_retry
  ask-disarmed cid system run = rw (get_definitions-disarm body service.registry) (
      bind_cong (retry-disarmed _ _ _ _) (λ response.
        later_cong (emit (iteration_event run response))
          (λ _. after_response-disarmed cid response (count_response run response))))

  round-disarmed :
      (cid : String) (system : Text) (start : ℕ) (run : Run)
      → round (disarmed body service) cid system start run ≡ round service cid system start run
  unfolding round after_check finish persist check_budget
  round-disarmed cid system start run =
      later_cong (check_budget service run.acc.iterations run.acc.usage start) decided
    where
      decided :
          (early : Option Text)
          → after_check (disarmed body service) cid system run early
            ≡ after_check service cid system run early
      decided (some reason) = refl
      decided none = ask-disarmed cid system run

  continue_with_cong :
      {f g : Run → Action (World S P) ChatResponse}
      → ((next : Run) → f next ≡ g next)
      → (outcome : Outcome) → continue_with f outcome ≡ continue_with g outcome
  continue_with_cong same (finished response) = refl
  continue_with_cong same (again next) = same next

  loop-disarmed :
      (cid : String) (fuel : ℕ) (system : Text) (start : ℕ) (run : Run)
      → loop (disarmed body service) cid fuel system start run
        ≡ loop service cid fuel system start run
  unfolding loop exhausted persist
  loop-disarmed cid zero system start run = refl
  loop-disarmed cid (suc fuel) system start run =
      ap
        (λ more.
          if ltb run.acc.iterations service.budget.max_iterations
          then more
          else exhausted service cid run)
        (bind_cong (round-disarmed cid system start run)
          (continue_with_cong (λ next. loop-disarmed cid fuel system start next)))

  -- The loop does the same whatever the tools that need approval do when they are run.
  pub run_loop-disarmed :
      (cid : String) (system : Text) (run : Run)
      → run_loop (disarmed body service) cid system run ≡ run_loop service cid system run
  unfolding run_loop
  run_loop-disarmed cid system run = later_cong (read_clock service.now) (λ start.
      loop-disarmed cid (service.budget.max_iterations - run.acc.iterations) system start run)
