-- ===== src/Agent/Approval/Outage.antt =====
-- An approval while the model cannot be reached: the approved calls have run, and the conversation
-- does not tell.
use agentdesk_nestjs.Base.{
  ℕ, zero, suc, ◌+◌, ◌-◌, ◌<◌, ◌≡◌, refl, ap, ◌∙◌, Bool, false, List, Option, none, some, ◌++◌,
  String, Text, Result, ok, raise, Exception, bind_raise, ◌>>◌, leb, lt→ltb, arith,
}
use agentdesk_nestjs.Llm.{LlmRequest, LlmResponse, LlmToolCall}
use agentdesk_nestjs.Tools.{get_definitions}
use agentdesk_nestjs.Conversation.{ConversationIdAndMessages}
use agentdesk_nestjs.Agent.{World, AgentService, Run, emit}
use agentdesk_nestjs.Agent.Retry.{call_llm_with_retry, check_budget, request_for}
use agentdesk_nestjs.Agent.Retry.Attempts.{attempts, doubled_from, call_llm-attempts}
use agentdesk_nestjs.Agent.Approval.{ApproveDecision, review, load_conversation, approve}
use agentdesk_nestjs.Agent.Approval.Execution.{
  approved_calls, after_calls, decided_world, approve_reviewed,
}
use agentdesk_nestjs.Agent.Loop.{
  iteration_event, count_response, after_response, ask, after_check, round, loop, run_loop,
  continue_with,
}
use agentdesk_nestjs.Agent.Loop.Fuel.{loop-unrolls}

module _ {Schema S P : Type 0} (service : AgentService Schema S P) where
  -- Every call of the provider fails.
  abbrev pub IsDown : Type 0
  IsDown =
      (request : LlmRequest Schema) (p : P)
      → (e : Exception) × ((service.llm request p).0 ≡ raise e)

  -- A step that throws and leaves the store as it is.
  abbrev Fails : {A : Type 0} → World S P → Result A × World S P → Type 0
  Fails w x = (e : Exception) × (w' : World S P) × (x ≡ (raise e, w')) × (w'.store ≡ w.store)

  module _ (down : IsDown) where
    attempts-down :
        (request : LlmRequest Schema) (n : ℕ) (last_error : Option Exception) (p : P)
        → (e : Exception) × ((attempts service request n last_error p).0 ≡ raise e)
    unfolding attempts
    attempts-down request zero last_error p = (_, refl)
    attempts-down request (suc n) last_error p =
        let (e, failed) = down request p in
        let (e', later) = attempts-down request n (some e) (service.llm request p).1 in
        (e', rw failed later)

    ask-down :
        (cid : String) (system : Text) (run : Run) (w : World S P)
        → Fails w (ask service cid system run w)
    unfolding ask
    ask-down cid system run w =
        let tools = get_definitions service.registry in
        let request = request_for service run.messages tools system in
        let (e, failed) = attempts-down request service.max_retries none w.provider in
        let (r, p, made) = attempts service request service.max_retries none w.provider in
        let asked = (call_llm-attempts service run.messages tools system w).0 in
        (
          e,
          record w { provider = p; delays = w.delays ++ doubled_from 500 made },
          bind_raise (call_llm_with_retry service run.messages tools system)
              (λ response.
                emit (iteration_event run response)
                >> after_response service cid response (count_response run response))
              w
              (asked
                ∙ ap
                    (λ (r : Result LlmResponse).
                      (r, record w { provider = p; delays = w.delays ++ doubled_from 500 made }))
                    failed),
          refl,
        )

    -- The budget does not stop the first round.
    abbrev HasBudget : Run → World S P → Type 0
    HasBudget run w =
        (run.acc.iterations < service.budget.max_iterations)
        × (run.acc.usage.input_tokens + run.acc.usage.output_tokens
            < service.budget.max_total_tokens)
        × (service.now (suc w.clock) < service.now w.clock + service.budget.max_wall_clock_ms)

    round-down :
        (cid : String) (system : Text) (run : Run) (w : World S P)
        → HasBudget run w
        → Fails w
            (round service cid system (service.now w.clock) run (record w { clock = suc w.clock }))
    unfolding round check_budget after_check
    round-down cid system run w (iterations, tokens, time) =
        let a : leb service.budget.max_iterations run.acc.iterations ≡ false = ground arith in
        let b : leb service.budget.max_total_tokens
              (run.acc.usage.input_tokens + run.acc.usage.output_tokens)
            ≡ false =
          ground arith in
        let c : leb (service.now w.clock + service.budget.max_wall_clock_ms)
              (service.now (suc w.clock))
            ≡ false =
          ground arith in
        let (e, w', failed, same) =
          ask-down cid system run (record w { clock = suc (suc w.clock) }) in
        (e, w', rw (a, b, c) failed, same)

    run_loop-down :
        (cid : String) (system : Text) (run : Run) (w : World S P)
        → HasBudget run w
        → Fails w (run_loop service cid system run w)
    unfolding run_loop
    run_loop-down cid system run w budget =
        let (e, w', failed, same) = round-down cid system run w budget in
        let more = lt→ltb run.acc.iterations service.budget.max_iterations budget.0 in
        let unrolled =
          (loop-unrolls service cid (service.budget.max_iterations - run.acc.iterations) system
            (service.now w.clock) run (record w { clock = suc w.clock }) (omega arith)).1 in
        (
          e,
          w',
          (rw more at unrolled)
              ∙ bind_raise (round service cid system (service.now w.clock) run)
                  (continue_with (λ next.
                    loop service cid (service.budget.max_iterations - next.acc.iterations) system
                      (service.now w.clock) next))
                  (record w { clock = suc w.clock }) failed,
          same,
        )

    -- If the conversation is found, the decisions are accepted, the budget allows a round and every
    -- call of the provider fails, then the approval throws, the approved calls have been executed,
    -- and the store holds their effects and nothing else: no answer to them is stored.
    pub approve_down :
        (cid : String) (decisions : List ApproveDecision) (w : World S P)
        (existing : ConversationIdAndMessages) (s : S) (decided : List (LlmToolCall × Bool))
        → load_conversation service cid w.store ≡ (ok existing, s)
        → review service.registry existing.messages decisions ≡ ok decided
        → 1 < service.budget.max_iterations
        → 0 < service.budget.max_total_tokens
        → service.now (suc w.clock) < service.now w.clock + service.budget.max_wall_clock_ms
        → (e : Exception) × (w' : World S P) × (approve service cid decisions w ≡ (raise e, w'))
          × (w'.store ≡ after_calls service (approved_calls decided) s)
    approve_down cid decisions w existing s decided found accepted rounds tokens time =
        let (run, runs, (answers, _, r)) =
          approve_reviewed service cid decisions w existing s decided found accepted in
        let counted : run.acc.iterations ≡ 1 = ap (λ (x : Run). x.acc.iterations) r in
        let input : run.acc.usage.input_tokens ≡ 0 = ap (λ (x : Run). x.acc.usage.input_tokens) r in
        let output : run.acc.usage.output_tokens ≡ 0 =
          ap (λ (x : Run). x.acc.usage.output_tokens) r in
        let (e, w', failed, same) =
          run_loop-down cid service.default_system_prompt run
            (decided_world service 1 decided (record w { store = s }))
            (omega arith, omega arith, time) in
        (e, w', runs ∙ failed, same)
