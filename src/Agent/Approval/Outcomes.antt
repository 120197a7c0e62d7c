-- ===== src/Agent/Approval/Outcomes.antt =====
-- What an approval does with each list of decisions: `approve` of src/agent/agent.service.ts.
use agentdesk_nestjs.Base.{
  ◌≡◌, ◌∙◌, refl, ◌⊎◌, inl, inr, Bool, List, [], ◌∷◌, String, Text, Dict, insert, has, Result, ok,
  raise, and_then, bad_request, Bool-cases,
}
use agentdesk_nestjs.Llm.{LlmToolCall, ChatMessage}
use agentdesk_nestjs.Tools.{Registry, get_tool}
use agentdesk_nestjs.Conversation.{ConversationIdAndMessages}
use agentdesk_nestjs.Agent.{World, AgentService, Run, fresh_acc}
use agentdesk_nestjs.Agent.History.{Answered}
use agentdesk_nestjs.Agent.Batch.{approval_flag}
use agentdesk_nestjs.Agent.Loop.{run_loop}
use agentdesk_nestjs.Agent.Approval.{
  ApproveDecision, pending_calls, decide, is_pending, check_flow, review, load_conversation,
  approve,
}
use agentdesk_nestjs.Agent.Approval.Execution.{decided_world, approve_reviewed, approve_raises}
use agentdesk_nestjs.Agent.Approval.Verdicts.{
  Acceptable, verdicts, verdicts-calls, review-Acceptable, Acceptable-review,
}

-- Every refusal is a bad request.
abbrev Refuses : {A : Type 0} → Result A → Type 0
Refuses {A} r = ((a : A) × (r ≡ ok a)) ⊎ ((reason : Text) × (r ≡ raise (bad_request reason)))

and_then-Refuses :
    {A B : Type 0} (r : Result A) (k : A → Result B)
    → Refuses r
    → ((a : A) → Refuses (k a))
    → Refuses (and_then r k)
and_then-Refuses (ok a) k h later = later a
and_then-Refuses (raise e) k (inl (a, clash)) later = absurd (cc clash)
and_then-Refuses (raise e) k (inr (reason, same)) later = inr (reason, cc same)

decide-Refuses :
    (pending : List LlmToolCall) (by_id : Dict Bool) (decisions : List ApproveDecision)
    → Refuses (decide pending by_id decisions)
unfolding decide
decide-Refuses pending by_id [] = inl (by_id, refl)
decide-Refuses pending by_id (d ∷ decisions) = elim (Bool-cases (has d.tool_call_id by_id)) [
  | inl known ↦ rw known (inr (_, refl))
  | inr new ↦ elim (Bool-cases (is_pending pending d.tool_call_id)) [
    | inl named ↦
        rw (new, named) (decide-Refuses pending (insert d.tool_call_id d.approved by_id) decisions)
    | inr unknown ↦ rw (new, unknown) (inr (_, refl))
  ]
]

check_flow-Refuses :
    {Schema S : Type 0} (tools : Registry Schema S) (calls : List LlmToolCall)
    → Refuses (check_flow tools calls)
unfolding check_flow
check_flow-Refuses tools [] = inl (tt, refl)
check_flow-Refuses tools (tc ∷ tcs) = elim (Bool-cases (approval_flag (get_tool tc.name tools))) [
  | inl gated ↦ rw gated (check_flow-Refuses tools tcs)
  | inr free ↦ rw free (inr (_, refl))
]

-- A list that is not acceptable is a bad request.
review-refuses :
    {Schema S : Type 0} (tools : Registry Schema S) (messages : List ChatMessage)
    (decisions : List ApproveDecision)
    → ¬ Acceptable tools (pending_calls messages) decisions
    → (reason : Text) × (review tools messages decisions ≡ raise (bad_request reason))
review-refuses tools messages decisions bad = elim (reviewed (pending_calls messages) refl) [
  | inl (decided, accepted) ↦
      elim (bad (Acceptable-review tools messages decisions decided accepted)) [ ]
  | inr refused ↦ refused
]
  where
    reviewed :
        (calls : List LlmToolCall)
        → pending_calls messages ≡ calls
        → Refuses (review tools messages decisions)
    reviewed [] none_left = unfold review in rw none_left (inr (_, refl))
    reviewed (tc ∷ tcs) pending =
        unfold review in
        rw pending (
          and_then-Refuses (decide (tc ∷ tcs) [] decisions) _
            (decide-Refuses (tc ∷ tcs) [] decisions)
            λ by_id.
              and_then-Refuses (check_flow tools (tc ∷ tcs)) _ (check_flow-Refuses tools (tc ∷ tcs))
                λ _. inl (_, refl))

module _ {Schema S P : Type 0} (service : AgentService Schema S P) where
  -- If the conversation is found and the decisions are acceptable (some call of the history is
  -- unanswered, the unanswered calls are all of tools that need approval, and the decisions name
  -- different ones of them), then the calls that a decision approves are executed in their order,
  -- each once, and no other call is, one that no decision names included; every unanswered call gets
  -- its answer; and the loop goes on from the run and the world that this leaves.
  pub approve_accepted :
      (cid : String) (decisions : List ApproveDecision) (w : World S P)
      (existing : ConversationIdAndMessages) (s : S)
      → load_conversation service cid w.store ≡ (ok existing, s)
      → Acceptable service.registry (pending_calls existing.messages) decisions
      → (run : Run) × (approve service cid decisions w
          ≡ run_loop service cid service.default_system_prompt run (
              decided_world service 1
                (verdicts decisions (pending_calls existing.messages))
                (record w { store = s })))
        × Answered service
            (pending_calls existing.messages)
            (record { messages = existing.messages; acc = fresh_acc 1 })
            run
  approve_accepted cid decisions w existing s found acceptable =
      let (run, runs, (answers, calls, end)) =
        approve_reviewed service cid decisions w existing s _ found
          (review-Acceptable service.registry existing.messages decisions acceptable) in
      (
        run,
        runs,
        (answers, calls ∙ verdicts-calls decisions (pending_calls existing.messages), end),
      )

  -- If the conversation is found and the decisions are not acceptable (nothing is pending, two name
  -- the same call, one names a call that is not pending, or a pending call is of a tool that is
  -- unknown or needs no approval), the approval throws a bad request: nothing is executed, stored or
  -- emitted, and the model is not asked.
  pub approve_refused :
      (cid : String) (decisions : List ApproveDecision) (w : World S P)
      (existing : ConversationIdAndMessages) (s : S)
      → load_conversation service cid w.store ≡ (ok existing, s)
      → ¬ Acceptable service.registry (pending_calls existing.messages) decisions
      → (reason : Text) × (approve service cid decisions w
          ≡ (raise (bad_request reason), record w { store = s }))
  approve_refused cid decisions w existing s found bad =
      let (reason, refused) = review-refuses service.registry existing.messages decisions bad in
      (reason, approve_raises service cid decisions w existing s (bad_request reason) found refused)
