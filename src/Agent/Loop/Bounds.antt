-- ===== src/Agent/Loop/Bounds.antt =====
-- The loop's bounds: how many iterations a run makes, and that the bound on its rounds is enough.
use agentdesk_nestjs.Base.{
  ℕ, zero, suc, ◌≤◌, ◌<◌, ◌≡◌, sym, ap, List, [], ◌∷◌, ◌++◌, Option, none, some, String, Text, ok,
  ◌>>◌, >>=-eq-ok, ok-injective, pure, arith, Bool-cases, inl, inr, ltb, ltb→lt,
}
use agentdesk_nestjs.Llm.{LlmToolCall, LlmResponse, LlmStopReason}
use agentdesk_nestjs.Conversation.{ConversationStatus}
use agentdesk_nestjs.Agent.{World, AgentService, Run, ChatResponse, Event, emit}
use agentdesk_nestjs.Agent.Retry.{check_budget, call_llm_with_retry}
use agentdesk_nestjs.Tools.{get_definitions}
use agentdesk_nestjs.Agent.History.{act-Answered}
use agentdesk_nestjs.Agent.Loop.{
  respond_paused, iteration_event, count_response, Outcome, finished, again, persist, finish,
  pause_or_go_on, after_response, ask, after_check, round, exhausted, continue_with, loop, run_loop,
  respond, is_final, exhausted_message,
}

-- The iterations that an outcome tells of.
abbrev iterations_of : Outcome → ℕ
iterations_of (finished response) = response.iterations
iterations_of (again run) = run.acc.iterations

-- A round that goes on counts one more iteration, and one that returns at most one.
abbrev pub Counts : ℕ → Outcome → Type 0
Counts n (finished response) = (n ≤ response.iterations) × (response.iterations ≤ suc n)
Counts n (again run) = run.acc.iterations ≡ suc n

Counts-suc : (n : ℕ) (outcome : Outcome) → iterations_of outcome ≡ suc n → Counts n outcome
Counts-suc n (finished response) e = omega arith
Counts-suc n (again run) e = e

module _ {Schema S P : Type 0} (service : AgentService Schema S P) (cid : String) where
  finish-iterations :
      (run : Run) (message : Text) (reason : LlmStopReason) (w : World S P) {outcome : Outcome}
      {w' : World S P}
      → finish service cid run message reason w ≡ (ok outcome, w')
      → outcome ≡ finished (respond cid run message reason)
  unfolding finish
  finish-iterations run message reason w e =
      let (_, _, _, same) =
        >>=-eq-ok (persist service cid run ConversationStatus.completed)
          (λ _. pure (finished (respond cid run message reason))) w e in
      sym (ok-injective same)

  pause_or_go_on-iterations :
      (calls : List LlmToolCall) (run : Run) (w : World S P) {outcome : Outcome} {w' : World S P}
      → pause_or_go_on service cid calls run w ≡ (ok outcome, w')
      → iterations_of outcome ≡ run.acc.iterations
  unfolding pause_or_go_on
  pause_or_go_on-iterations [] run w e = ap iterations_of (sym (ok-injective e))
  pause_or_go_on-iterations (tc ∷ tcs) run w e =
      let (_, _, _, same) =
        >>=-eq-ok (persist service cid run ConversationStatus.paused)
          (λ _. pure (finished (respond_paused cid run (tc ∷ tcs))))
          (record w {
            events = w.events ++ Event.awaiting_approval (tc ∷ tcs) run.acc.iterations ∷ [];
          })
          e in
      ap iterations_of (sym (ok-injective same))

  after_response-iterations :
      (response : LlmResponse) (run : Run) (w : World S P) {outcome : Outcome} {w' : World S P}
      → after_response service cid response run w ≡ (ok outcome, w')
      → iterations_of outcome ≡ run.acc.iterations
  unfolding after_response
  after_response-iterations response run w e = elim (Bool-cases (is_final response)) [
    | inl final ↦
        ap iterations_of
          (finish-iterations run response.content response.stop_reason w (rw final at e))
    | inr more ↦
        let (_, u, _, rest) = act-Answered service cid _ _ w (rw more at e) in
        pause_or_go_on-iterations _ _ u rest
  ]

  pub round-Counts :
      (system : Text) (start : ℕ) (run : Run) (w : World S P) (outcome : Outcome) {w' : World S P}
      → round service cid system start run w ≡ (ok outcome, w')
      → Counts run.acc.iterations outcome
  unfolding round
  round-Counts system start run w outcome {w'} e =
      let (early, u, _, rest) =
        >>=-eq-ok (check_budget service run.acc.iterations run.acc.usage start)
          (after_check service cid system run) w e in
      checked early u rest
    where
      checked :
          (early : Option Text) (u : World S P)
          → after_check service cid system run early u ≡ (ok outcome, w')
          → Counts run.acc.iterations outcome
      checked (some reason) u h =
          unfold after_check in rw (finish-iterations run _ _ u h) (omega arith)
      checked none u h =
          unfold after_check ask in
          let (response, v, _, rest) =
            >>=-eq-ok
              (call_llm_with_retry service run.messages (get_definitions service.registry) system)
              (λ response.
                emit (iteration_event run response)
                >> after_response service cid response (count_response run response))
              u h in
          Counts-suc run.acc.iterations outcome
            (after_response-iterations response (count_response run response) _ rest)

  abbrev Bounded : ℕ → ChatResponse → Type 0
  Bounded n response =
      (n ≤ response.iterations) × (response.iterations ≤ service.budget.max_iterations)

  exhausted-Bounded :
      (run : Run) (w : World S P) {response : ChatResponse} {w' : World S P}
      → run.acc.iterations ≤ service.budget.max_iterations
      → exhausted service cid run w ≡ (ok response, w')
      → Bounded run.acc.iterations response
  unfolding exhausted
  exhausted-Bounded run w within e =
      let (_, _, _, same) =
        >>=-eq-ok (persist service cid run ConversationStatus.completed)
          (λ _. pure (respond cid run exhausted_message LlmStopReason.max_iterations)) w e in
      rw (← ok-injective same) (omega arith)

  loop-Bounded :
      (fuel : ℕ) (system : Text) (start : ℕ) (run : Run) (w : World S P) {response : ChatResponse}
      {w' : World S P}
      → run.acc.iterations ≤ service.budget.max_iterations
      → loop service cid fuel system start run w ≡ (ok response, w')
      → Bounded run.acc.iterations response
  unfolding loop
  loop-Bounded zero system start run w within e = exhausted-Bounded run w within e
  loop-Bounded (suc fuel) system start run w {response} {w'} within e =
      elim (Bool-cases (ltb run.acc.iterations service.budget.max_iterations)) [
        | inr over ↦ exhausted-Bounded run w within (rw over at e)
        | inl more ↦
            let (outcome, u, first, rest) =
              >>=-eq-ok (round service cid system start run)
                (continue_with (λ next. loop service cid fuel system start next)) w
                (rw more at e) in
            continued (λ next v h h'. loop-Bounded fuel system start next v h h')
              (ltb→lt run.acc.iterations service.budget.max_iterations more) outcome u
              (round-Counts system start run w outcome first) rest
      ]
    where
      continued :
          ((next : Run) (v : World S P)
            → next.acc.iterations ≤ service.budget.max_iterations
            → loop service cid fuel system start next v ≡ (ok response, w')
            → Bounded next.acc.iterations response)
          → run.acc.iterations < service.budget.max_iterations
          → (outcome : Outcome) (u : World S P) → Counts run.acc.iterations outcome
          → continue_with (λ next. loop service cid fuel system start next) outcome u
            ≡ (ok response, w')
          → Bounded run.acc.iterations response
      continued ih below (again next) u counted h =
          let (low, high) = ih next u (omega arith) h in (omega arith, high)
      continued ih below (finished answer) u counted h =
          let same : response ≡ answer = sym (ok-injective h) in rw same (omega arith)

  -- A run that starts within the limit reports at least the iterations that it started with, and
  -- at most `maxIterations`.
  pub run_loop-iterations :
      (system : Text) (run : Run) (w : World S P) {response : ChatResponse} {w' : World S P}
      → run.acc.iterations ≤ service.budget.max_iterations
      → run_loop service cid system run w ≡ (ok response, w')
      → (run.acc.iterations ≤ response.iterations)
        × (response.iterations ≤ service.budget.max_iterations)
  unfolding run_loop
  run_loop-iterations system run w within e = loop-Bounded _ system _ run _ within e
