-- ===== src/Agent/History/Runs.antt =====
-- Whole runs: what the store holds when `runLoop` or `approve` returns.
use mathlib.Core.Path.{subst}
use agentdesk_nestjs.Base.{
  ℕ, zero, suc, ◌≡◌, refl, sym, ap, ◌∙◌, Bool, List, [], ◌∷◌, none, String, Text, Action, Result,
  ok, ◌>>=◌, ◌>>◌, >>=-eq-ok, ok-injective, state_eq, pure, Bool-cases, inl, inr, ltb, lift, Dict,
}
use agentdesk_nestjs.Llm.{LlmToolCall, LlmStopReason, ChatMessage}
use agentdesk_nestjs.Conversation.{ConversationIdAndMessages, ConversationStatus, Remembers}
use agentdesk_nestjs.Agent.{
  World, AgentService, Run, ChatResponse, record_answer, on_store, emit, fresh_acc,
}
use agentdesk_nestjs.Agent.Approval.{
  ApproveDecision, pending_calls, effective, review, apply_decisions, carry_out, decision_event,
  approve, load_conversation,
}
use agentdesk_nestjs.Agent.Approval.Decisions.{review-eq-ok}
use agentdesk_nestjs.Agent.Loop.{
  Outcome, finished, again, persist, round, exhausted, continue_with, loop, run_loop, respond,
  exhausted_message,
}
use agentdesk_nestjs.Agent.History.{calls_in, extend-nil, extend-record_answer, Answered}
use agentdesk_nestjs.Agent.History.Pairing.{IsPaired, pending_calls-IsPaired}
use agentdesk_nestjs.Agent.History.Rounds.{Stored, persist-Stored, Consistent, round-Consistent}

module _ {Schema S P : Type 0} (service : AgentService Schema S P) (cid : String) where
  -- The store of a run that returned without a pause.
  abbrev pub Settles : ChatResponse → World S P → Type 0
  Settles response w = Consistent service cid (finished response) w

  module _ (remembers : Remembers service.conversations) where
    exhausted-Settles :
        (run : Run) (w : World S P) {response : ChatResponse} {w' : World S P}
        → IsPaired run.messages
        → exhausted service cid run w ≡ (ok response, w')
        → Settles response w'
    unfolding exhausted
    exhausted-Settles run w paired e =
        let (_, _, stored, same) =
          >>=-eq-ok (persist service cid run ConversationStatus.completed)
            (λ _. pure (respond cid run exhausted_message LlmStopReason.max_iterations)) w e in
        λ _. (
          run.messages,
          subst (λ x. Stored service cid run.messages x) (state_eq same)
              (persist-Stored service cid remembers run _ _ stored),
          paired,
        )

    loop-Settles :
        (fuel : ℕ) (system : Text) (start : ℕ) (run : Run) (w : World S P) {response : ChatResponse}
        {w' : World S P}
        → IsPaired run.messages
        → loop service cid fuel system start run w ≡ (ok response, w')
        → Settles response w'
    unfolding loop
    loop-Settles zero system start run w paired e = exhausted-Settles run w paired e
    loop-Settles (suc fuel) system start run w {response} {w'} paired e =
        elim (Bool-cases (ltb run.acc.iterations service.budget.max_iterations)) [
          | inr over ↦ exhausted-Settles run w paired (rw over at e)
          | inl more ↦
              let (outcome, u, first, rest) =
                >>=-eq-ok (round service cid system start run)
                  (continue_with (λ next. loop service cid fuel system start next)) w
                  (rw more at e) in
              continued (λ next v h h'. loop-Settles fuel system start next v h h') outcome u
                (round-Consistent service cid remembers system start run w outcome paired first)
                rest
        ]
      where
        continued :
            ((next : Run) (v : World S P)
              → IsPaired next.messages
              → loop service cid fuel system start next v ≡ (ok response, w')
              → Settles response w')
            → (outcome : Outcome) (u : World S P) → Consistent service cid outcome u
            → continue_with (λ next. loop service cid fuel system start next) outcome u
              ≡ (ok response, w')
            → Settles response w'
        continued ih (again next) u paired h = ih next u paired h
        continued ih (finished answer) u settled h =
            subst (λ x. Settles response x) (state_eq h)
              (subst (λ x. Settles x u) (ok-injective h) settled)

    -- If the conversation store returns what was stored, a run of the loop over a history with no
    -- unanswered call that returns without a pause leaves such a history in the store.
    pub run_loop-Settles :
        (system : Text) (run : Run) (w : World S P) {response : ChatResponse} {w' : World S P}
        → IsPaired run.messages
        → run_loop service cid system run w ≡ (ok response, w')
        → response.awaiting_approval ≡ none
        → (messages : List ChatMessage) × Stored service cid messages w' × IsPaired messages
    unfolding run_loop
    run_loop-Settles system run w paired e unpaused =
        loop-Settles _ system _ run _ paired e unpaused

  apply_decisions-Answered :
      (decided : List (LlmToolCall × Bool)) (run : Run) (w : World S P) {run' : Run}
      {w' : World S P}
      → apply_decisions service decided run w ≡ (ok run', w')
      → Answered service (calls_in decided) run run'
  unfolding apply_decisions
  apply_decisions-Answered [] run w e = ([], refl, sym (ok-injective e) ∙ sym (extend-nil run))
  apply_decisions-Answered ((tc, approved) ∷ rest) run w e =
      let (result, u, _, later) =
        >>=-eq-ok (on_store (carry_out service approved tc))
          (λ result.
            emit (decision_event service approved tc run)
            >> apply_decisions service rest (record_answer tc result run))
          w e in
      let (answers, same, r) =
        apply_decisions-Answered rest (record_answer tc result run) _ later in
      (
        (tc, result) ∷ answers,
        ap (λ (l : List LlmToolCall). tc ∷ l) same,
        r ∙ extend-record_answer tc result answers run,
      )

module _ {Schema S P : Type 0} (service : AgentService Schema S P) (cid : String) where
  pub effective-calls :
      (by_id : Dict Bool) (tcs : List LlmToolCall) → calls_in (effective by_id tcs) ≡ tcs
  effective-calls by_id [] = refl
  effective-calls by_id (tc ∷ tcs) =
      ap (λ (l : List LlmToolCall). tc ∷ l) (effective-calls by_id tcs)

  review-calls :
      (messages : List ChatMessage) (decisions : List ApproveDecision)
      (decided : List (LlmToolCall × Bool))
      → review service.registry messages decisions ≡ ok decided
      → calls_in decided ≡ pending_calls messages
  review-calls messages decisions decided e =
      let (by_id, _, _, same) = review-eq-ok service.registry messages decisions decided e in
      rw same (effective-calls by_id (pending_calls messages))

  -- An accepted approval answers every pending call, approved or not: if the conversation store
  -- returns what was stored and the run returns without another pause, the stored history has no
  -- unanswered call, whatever the history was before.
  pub approve-Settles :
      (decisions : List ApproveDecision) (w : World S P) {response : ChatResponse} {w' : World S P}
      → Remembers service.conversations
      → approve service cid decisions w ≡ (ok response, w')
      → response.awaiting_approval ≡ none
      → (messages : List ChatMessage) × Stored service cid messages w' × IsPaired messages
  unfolding approve
  approve-Settles decisions w remembers e unpaused =
      let (existing, u, _, reviewed) =
        >>=-eq-ok (on_store (load_conversation service cid)) (resume decisions) w e in
      let (decided, v, checked, rest) =
        >>=-eq-ok (lift (review service.registry existing.messages decisions))
          (carry existing.messages) u reviewed in
      let (run, x, applied, looped) =
        >>=-eq-ok
          (apply_decisions service decided
            (record { messages = existing.messages; acc = fresh_acc 1 }))
          (run_loop service cid service.default_system_prompt) v rest in
      let (answers, same, r) = apply_decisions-Answered service cid decided _ v applied in
      run_loop-Settles service cid remembers service.default_system_prompt run x
        (rw r (
          pending_calls-IsPaired existing.messages answers (
            same
            ∙ review-calls existing.messages decisions decided
                (ap (λ (y : Result (List (LlmToolCall × Bool)) × World S P). y.0) checked))))
        looped unpaused
    where
      carry : List ChatMessage → List (LlmToolCall × Bool) → Action (World S P) ChatResponse
      carry messages decided = do
        run ← apply_decisions service decided (record { messages = messages; acc = fresh_acc 1 })
        run_loop service cid service.default_system_prompt run

      resume : List ApproveDecision → ConversationIdAndMessages → Action (World S P) ChatResponse
      resume decisions existing =
          lift (review service.registry existing.messages decisions) >>= carry existing.messages
