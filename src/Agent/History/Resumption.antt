-- ===== src/Agent/History/Resumption.antt =====
-- From a pause to its approval: what a pause leaves in the store, `approve` takes up again.
use mathlib.Core.Path.{subst}
use agentdesk_nestjs.Base.{
  ◌≡◌, refl, sym, ap, ◌∙◌, Bool, List, [], ◌∷◌, some, All, select, Result, ok, raise, proceed,
  and_then, Dict, String, Bool-cases, inl, inr, if◌then◌else◌,
}
use agentdesk_nestjs.Llm.{LlmToolCall, LlmResponse, ChatMessage}
use agentdesk_nestjs.Tools.{Registry}
use agentdesk_nestjs.Conversation.{Conversation, ConversationIdAndMessages, Remembers, to_messages}
use agentdesk_nestjs.Agent.{World, AgentService, Run, ChatResponse, PendingApproval}
use agentdesk_nestjs.Agent.Batch.Partition.{wants_approval}
use agentdesk_nestjs.Agent.Approval.{
  ApproveDecision, pending_calls, check_flow, decide, effective, review, approve, load_conversation,
  nothing_pending,
}
use agentdesk_nestjs.Agent.Approval.Decisions.{Distinct, IsPending, filled, decide_iff}
use agentdesk_nestjs.Agent.Approval.Execution.{decided_world, approve_reviewed}
use agentdesk_nestjs.Agent.Approval.Verdicts.{
  Names, All-IsPending, verdicts, verdicts-calls, effective-verdicts,
}
use agentdesk_nestjs.Agent.Loop.{finished, after_response, run_loop, is_empty}
use agentdesk_nestjs.Agent.History.Pairing.{IsPaired, pending_calls-IsPaired}
use agentdesk_nestjs.Agent.History.Pauses.{HasFreshIds, after_response-pending}
use agentdesk_nestjs.Agent.History.Rounds.{Stored}

-- Calls of tools that need approval pass the check of the approval flow.
check_flow-gated :
    {Schema S : Type 0} (tools : Registry Schema S) (calls : List LlmToolCall)
    → check_flow tools (select (wants_approval tools) calls) ≡ ok tt
unfolding check_flow
check_flow-gated tools [] = refl
check_flow-gated tools (tc ∷ calls) = elim (Bool-cases (wants_approval tools tc)) [
  | inl gated ↦ rw (gated, check_flow-gated tools calls, gated) refl
  | inr free ↦ rw (free, check_flow-gated tools calls) refl
]

-- Decisions on different pending calls are accepted.
review-accepts :
    {Schema S : Type 0} (tools : Registry Schema S) (messages : List ChatMessage)
    (calls : List LlmToolCall) (d : ApproveDecision) (decisions : List ApproveDecision)
    → pending_calls messages ≡ select (wants_approval tools) calls
    → Distinct (d ∷ decisions)
    → All (IsPending (pending_calls messages)) (d ∷ decisions)
    → review tools messages (d ∷ decisions)
      ≡ ok (effective (filled [] (d ∷ decisions)) (pending_calls messages))
unfolding review
review-accepts tools messages calls d decisions gated distinct known =
    let decided : decide (pending_calls messages) [] (d ∷ decisions)
        ≡ ok (filled [] (d ∷ decisions)) =
      (decide_iff (pending_calls messages) (d ∷ decisions) _).1 (distinct, known, refl) in
    let flow : check_flow tools (pending_calls messages) ≡ ok tt =
      ap (check_flow tools) gated ∙ check_flow-gated tools calls in
    not_empty (pending_calls messages) known.0 _
    ∙ ap
        (λ (r : Result (Dict Bool)). and_then r (λ by_id.
          and_then (check_flow tools (pending_calls messages))
            (λ _. ok (effective by_id (pending_calls messages)))))
        decided
    ∙ ap
        (λ (r : Result (Unit {0})).
          and_then r (λ _. ok (effective (filled [] (d ∷ decisions)) (pending_calls messages))))
        flow
  where
    not_empty :
        (pending : List LlmToolCall)
        → IsPending pending d
        → (r : Result (List (LlmToolCall × Bool)))
        → (if is_empty pending then raise nothing_pending else r) ≡ r
    not_empty [] known r = cc known
    not_empty (tc ∷ pending) known r = refl

module _ {Schema S P : Type 0} (service : AgentService Schema S P) where
  load-Stored :
      (cid : String) (messages : List ChatMessage) (w : World S P)
      → Stored service cid messages w
      → (existing : ConversationIdAndMessages) × (s : S) × (load_conversation service cid w.store
          ≡ (ok existing, s))
        × (existing.messages ≡ messages)
  unfolding load_conversation
  load-Stored cid messages w (c, found, same) = (
    record { id = c.id; messages = to_messages c.messages },
    (service.conversations.find cid w.store).1,
    ap
        (λ (r : Result Conversation).
          proceed r (service.conversations.find cid w.store).1
            (λ c s. (ok (record { id = c.id; messages = to_messages c.messages }), s)))
        found,
    same,
  )

  -- The loop goes on after the decided calls, from a history with no unanswered call.
  abbrev pub Resumes : String → List ApproveDecision → List LlmToolCall → World S P → Type 0
  Resumes cid decisions calls w =
      (run : Run) × (s : S) × (approve service cid decisions w
        ≡ run_loop service cid service.default_system_prompt run
            (decided_world service 1 (verdicts decisions calls) (record w { store = s })))
      × IsPaired run.messages

  -- A pause can be ended. If the conversation store returns what was stored, no call of the history
  -- was unanswered, the ids are fresh, and a response pauses the run, then an approval of the
  -- conversation, with at least one decision, whose decisions name different calls of those that the
  -- response says are pending, is not refused: the calls that a decision approves are executed and
  -- no others, and the loop goes on from a history with no unanswered call.
  pub paused-Resumes :
      (cid : String) (response : LlmResponse) (run : Run) (w : World S P) (answer : ChatResponse)
      (p : PendingApproval) (d : ApproveDecision) (decisions : List ApproveDecision)
      {w' : World S P}
      → Remembers service.conversations
      → IsPaired run.messages
      → HasFreshIds service response run
      → after_response service cid response run w ≡ (ok (finished answer), w')
      → answer.awaiting_approval ≡ some p
      → Distinct (d ∷ decisions)
      → All (Names p.tool_calls) (d ∷ decisions)
      → Resumes cid (d ∷ decisions) p.tool_calls w'
  paused-Resumes cid response run w answer p d decisions {w'} remembers paired fresh e waits
        distinct known =
      let (messages, stored, gated, pending) =
        after_response-pending service cid response run w answer p remembers paired fresh e waits in
      let (existing, s, loaded, same) = load-Stored cid messages w' stored in
      let shown : pending_calls existing.messages ≡ p.tool_calls =
        ap pending_calls same ∙ pending in
      let accepted : review service.registry existing.messages (d ∷ decisions)
          ≡ ok (effective (filled [] (d ∷ decisions)) (pending_calls existing.messages)) =
        review-accepts service.registry existing.messages response.tool_calls d decisions
          (shown ∙ gated) distinct
          (subst (λ (l : List LlmToolCall). All (IsPending l) (d ∷ decisions)) (sym shown)
            (All-IsPending p.tool_calls (d ∷ decisions) known)) in
      let (run', resumes, (answers, calls, end)) =
        approve_reviewed service cid (d ∷ decisions) w' existing s _ loaded (
          accepted
          ∙ ap (λ (l : List (LlmToolCall × Bool)). ok l)
              (effective-verdicts (d ∷ decisions) (pending_calls existing.messages) distinct)) in
      (
        run',
        s,
        resumes
            ∙ ap
                (λ (l : List LlmToolCall).
                  run_loop service cid service.default_system_prompt run' (
                    decided_world service 1 (verdicts (d ∷ decisions) l) (record w' { store = s })))
                shown,
        rw end (
            pending_calls-IsPaired existing.messages answers
              (calls ∙ verdicts-calls (d ∷ decisions) (pending_calls existing.messages))),
      )
