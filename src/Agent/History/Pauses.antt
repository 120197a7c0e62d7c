-- ===== src/Agent/History/Pauses.antt =====
-- The pause: what the response says is pending is what the stored history says is pending.
use mathlib.Core.Path.{ap₂}
use agentdesk_nestjs.Base.{
  ◌≡◌, refl, sym, ◌∙◌, false, not, List, [], ◌∷◌, ◌++◌, some, String, All, select, select-append,
  ok, arith, Bool-cases, inl, inr,
}
use agentdesk_nestjs.Llm.{LlmToolCall, LlmResponse, ChatMessage}
use agentdesk_nestjs.Conversation.{Remembers}
use agentdesk_nestjs.Agent.{World, AgentService, Run, ChatResponse, PendingApproval}
use agentdesk_nestjs.Agent.Batch.{partition}
use agentdesk_nestjs.Agent.Batch.Partition.{
  wants_approval, is_mutating, is_read_only, partition-select,
}
use agentdesk_nestjs.Agent.Approval.{answered_ids, assistant_calls, pending_calls, contains}
use agentdesk_nestjs.Agent.Loop.{
  finished, after_response, respond_paused, assistant_message, push_message, is_final,
}
use agentdesk_nestjs.Agent.History.{Answers, calls_in, extend, act-Answered}
use agentdesk_nestjs.Agent.History.Pairing.{
  ids_of, AllAnswered, IsPaired, select-nil, after_answers, answered_ids-after,
  assistant_calls-after, AllAnswered-right, AllAnswered-left,
}
use agentdesk_nestjs.Agent.History.Rounds.{
  Stored, safe_calls, safe_calls-AllAnswered, pause_or_go_on-finished, finish-Stored,
}

module _ {Schema S P : Type 0} (service : AgentService Schema S P) where
  -- No call that needs approval has the id of an answer: not of an earlier one, and not of one to
  -- a safe call of the same response.
  abbrev pub HasFreshIds : LlmResponse → Run → Type 0
  HasFreshIds response run =
      All
        (λ (tc : LlmToolCall).
          contains (answered_ids run.messages ++ ids_of (safe_calls service response)) tc.id
          ≡ false)
        (select (wants_approval service.registry) response.tool_calls)

  -- Of calls whose safe ones are answered, and whose others are not, the latter are pending.
  select-unanswered :
      (ids : List String) (tcs : List LlmToolCall)
      → AllAnswered ids (select (is_read_only service.registry) tcs)
      → AllAnswered ids (select (is_mutating service.registry) tcs)
      → All
          (λ (tc : LlmToolCall). contains ids tc.id ≡ false)
          (select (wants_approval service.registry) tcs)
      → select (λ tc. not (contains ids tc.id)) tcs ≡ select (wants_approval service.registry) tcs
  select-unanswered ids [] reads writes gated = refl
  select-unanswered ids (tc ∷ tcs) reads writes gated = ground (arith, select-unanswered ids tcs)

  after_answers-pending :
      (response : LlmResponse) (answers : Answers) (run : Run)
      → calls_in answers ≡ safe_calls service response
      → HasFreshIds response run
      → IsPaired run.messages
      → pending_calls (after_answers response answers run)
        ≡ select (wants_approval service.registry) response.tool_calls
  unfolding pending_calls
  after_answers-pending response answers run same fresh paired =
      let (reads, writes) = safe_calls-AllAnswered service response in
      rw (answered_ids-after response answers run, assistant_calls-after response answers run, same)
        (select-append _ (assistant_calls run.messages) response.tool_calls
          ∙ ap₂ (λ (x y : List LlmToolCall). x ++ y)
              ((select-nil _ _).0 (AllAnswered-left _ _ _ paired))
              (select-unanswered _ response.tool_calls (AllAnswered-right _ _ _ reads)
                (AllAnswered-right _ _ _ writes) fresh))

  -- If the conversation store returns what was stored, no call of the history was unanswered, and
  -- the ids are fresh, then a response that pauses the run names the calls whose tools need
  -- approval, and exactly these are pending in the stored history.
  pub after_response-pending :
      (cid : String) (response : LlmResponse) (run : Run) (w : World S P) (answer : ChatResponse)
      (p : PendingApproval) {w' : World S P}
      → Remembers service.conversations
      → IsPaired run.messages
      → HasFreshIds response run
      → after_response service cid response run w ≡ (ok (finished answer), w')
      → answer.awaiting_approval ≡ some p
      → (messages : List ChatMessage) × Stored service cid messages w'
        × (p.tool_calls ≡ select (wants_approval service.registry) response.tool_calls)
        × (pending_calls messages ≡ p.tool_calls)
  unfolding after_response
  after_response-pending cid response run w answer p {w'} remembers paired fresh e waits =
      elim (Bool-cases (is_final response)) [
        | inl final ↦ cc (
            (finish-Stored service cid remembers run response.content response.stop_reason w
              (rw final at e)).0)
        | inr more ↦
            let (answers, u, same, rest) = act-Answered service cid _ _ w (rw more at e) in
            let (said, stored) = pause_or_go_on-finished service cid remembers _ _ u rest in
            let gated : p.tool_calls
                ≡ select (wants_approval service.registry) response.tool_calls =
              named (partition service.registry response.tool_calls).needs_approval
                (extend answers (push_message (assistant_message response) run)) said
              ∙ (partition-select service.registry response.tool_calls).0 in
            (
              after_answers response answers run,
              stored,
              gated,
              after_answers-pending response answers run same fresh paired ∙ sym gated,
            )
      ]
    where
      named :
          (calls : List LlmToolCall) (end : Run)
          → answer ≡ respond_paused cid end calls
          → p.tool_calls ≡ calls
      named calls end said = cc said
