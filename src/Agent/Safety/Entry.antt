-- ===== src/Agent/Safety/Entry.antt =====
-- `chat` and `approve` over a disarmed registry.
use agentdesk_nestjs.Base.{
  ◌≡◌, refl, ◌≢◌, ap, Bool, true, false, List, [], ◌∷◌, Option, none, some, String, Text, Dict,
  lookup, insert, All, Action, Result, ok, raise, and_then, lift, lift_cong, ◌∙◌, bind_cong,
  later_cong, arith, lookup-insert, if◌then◌else◌,
}
use agentdesk_nestjs.Json.{Fields}
use agentdesk_nestjs.Llm.{LlmToolCall, ChatMessage}
use agentdesk_nestjs.Tools.{ToolResult, Registry}
use agentdesk_nestjs.Agent.{AgentService, Run, on_store, emit, record_answer}
use agentdesk_nestjs.Conversation.{ConversationIdAndMessages}
use agentdesk_nestjs.Agent.Disarm.{disarm, approval_flag-disarm}
use agentdesk_nestjs.Agent.Safety.{disarmed}
use agentdesk_nestjs.Agent.Safety.Rounds.{run_loop-disarmed}
use agentdesk_nestjs.Agent.Loop.{is_empty}
use agentdesk_nestjs.Agent.Approval.Decisions.{decide_step, review-eq-ok}
use agentdesk_nestjs.Agent.Approval.{
  ApproveDecision, pending_calls, decide, check_flow, is_approved, carry_out, apply_decisions,
  load_conversation, effective, nothing_pending, review, approve, open_conversation, given, chat,
  decision_event,
}

abbrev AllDenied : List (LlmToolCall × Bool) → Type 0
AllDenied = All (λ d. d.1 ≡ false)

-- No id is decided with an approval.
abbrev NoneApproved : Dict Bool → Type 0
NoneApproved by_id = (id : String) → lookup id by_id ≢ some true

insert-NoneApproved :
    (k : String) (v : Bool) (by_id : Dict Bool)
    → v ≡ false
    → NoneApproved by_id
    → NoneApproved (insert k v by_id)
insert-NoneApproved k v by_id e h id found = ground (arith, lookup-insert k id v by_id, h id)

decide-NoneApproved :
    (pending : List LlmToolCall) (by_id : Dict Bool) (decisions : List ApproveDecision)
    {result : Dict Bool}
    → All (λ (d : ApproveDecision). d.approved ≡ false) decisions
    → NoneApproved by_id
    → decide pending by_id decisions ≡ ok result
    → NoneApproved result
decide-NoneApproved pending by_id [] {result} denied h e =
    let same : by_id ≡ result = unfold decide in cc in rw (← same) h
decide-NoneApproved pending by_id (d ∷ decisions) {result} denied h e =
    decide-NoneApproved pending (insert d.tool_call_id d.approved by_id) decisions denied.1
      (insert-NoneApproved d.tool_call_id d.approved by_id denied.0 h)
      (decide_step pending by_id d decisions e).2

effective-AllDenied :
    (by_id : Dict Bool) (tcs : List LlmToolCall)
    → NoneApproved by_id
    → AllDenied (effective by_id tcs)
unfolding is_approved
effective-AllDenied by_id [] h = tt
effective-AllDenied by_id (tc ∷ tcs) h = (ground (arith, h tc.id), effective-AllDenied by_id tcs h)

review-AllDenied :
    {Schema S : Type 0} (tools : Registry Schema S) (messages : List ChatMessage)
    (decisions : List ApproveDecision) (decided : List (LlmToolCall × Bool))
    → All (λ (d : ApproveDecision). d.approved ≡ false) decisions
    → review tools messages decisions ≡ ok decided
    → AllDenied decided
unfolding lookup
review-AllDenied tools messages decisions decided denied e =
    let (by_id, accepted, _, same) = review-eq-ok tools messages decisions decided e in
    rw same (
      effective-AllDenied by_id (pending_calls messages) (
        decide-NoneApproved (pending_calls messages) [] decisions denied (λ id found. cc) accepted))

module _ {Schema S P : Type 0} (body : Fields → Action S ToolResult)
    (service : AgentService Schema S P) where
  -- A whole turn does the same whatever the tools that need approval do when they are run: `chat`
  -- runs none of them, however the model calls them.
  pub chat-disarmed :
      (user_id : Option String) (text : Text) (history : Option (List ChatMessage))
      (system : Option Text) (id : Option String)
      → chat (disarmed body service) user_id text history system id
        ≡ chat service user_id text history system id
  unfolding chat open_conversation load_conversation
  chat-disarmed user_id text history system id =
      bind_cong (ap (λ (m : Action S ConversationIdAndMessages). on_store m) (opened (given id)))
        (λ existing. run_loop-disarmed body service existing.id _ _)
    where
      opened :
          (id : Option String)
          → open_conversation (disarmed body service) id history user_id
            ≡ open_conversation service id history user_id
      opened none = refl
      opened (some id) = refl

  check_flow-disarm :
      (tcs : List LlmToolCall)
      → check_flow (disarm body service.registry) tcs ≡ check_flow service.registry tcs
  unfolding check_flow
  check_flow-disarm [] = refl
  check_flow-disarm (tc ∷ tcs) =
      rw (approval_flag-disarm body tc.name service.registry, check_flow-disarm tcs)

  review-disarm :
      (messages : List ChatMessage) (decisions : List ApproveDecision)
      → review (disarm body service.registry) messages decisions
        ≡ review service.registry messages decisions
  unfolding review
  review-disarm messages decisions =
      let pending = pending_calls messages in
      ap
        (λ (flow : Result (Unit {0})).
          if is_empty pending
          then raise nothing_pending
          else and_then (decide pending [] decisions)
              λ by_id. and_then flow λ _. ok (effective by_id pending))
        (check_flow-disarm pending)

  apply_decisions-disarmed :
      (decided : List (LlmToolCall × Bool)) (run : Run)
      → AllDenied decided
      → apply_decisions (disarmed body service) decided run ≡ apply_decisions service decided run
  unfolding apply_decisions carry_out
  apply_decisions-disarmed [] run none_approved = refl
  apply_decisions-disarmed ((tc, true) ∷ rest) run none_approved = cc (none_approved.0)
  apply_decisions-disarmed ((tc, false) ∷ rest) run none_approved =
      later_cong (on_store (carry_out service false tc)) λ result.
        later_cong (emit (decision_event service false tc run))
          λ _. apply_decisions-disarmed rest (record_answer tc result run) none_approved.1

  -- If no decision approves, `approve` runs no tool that needs approval, neither for a call that is
  -- denied nor for one that no decision names nor in the rounds that follow: the whole approval does
  -- the same whatever those tools do when they are run.
  pub approve_denied :
      (id : String) (decisions : List ApproveDecision)
      → All (λ (d : ApproveDecision). d.approved ≡ false) decisions
      → approve (disarmed body service) id decisions ≡ approve service id decisions
  unfolding approve load_conversation
  approve_denied id decisions denied =
      later_cong (on_store (load_conversation service id)) λ existing.
        bind_cong
          (ap (λ (r : Result (List (LlmToolCall × Bool))). lift r)
            (review-disarm existing.messages decisions))
          (λ _. refl)
        ∙ lift_cong (review service.registry existing.messages decisions) λ decided e.
          bind_cong
            (apply_decisions-disarmed decided _
              (review-AllDenied service.registry existing.messages decisions decided denied e))
            (λ run. run_loop-disarmed body service id _ run)
