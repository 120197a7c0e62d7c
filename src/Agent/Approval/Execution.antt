-- ===== src/Agent/Approval/Execution.antt =====
-- What an approval executes: the approved calls and no others, before the model is asked.
use agentdesk_nestjs.Base.{
  ℕ, ◌≡◌, refl, sym, ap, ◌∙◌, Bool, true, false, List, [], ◌∷◌, ◌++◌, append-nil, append_assoc,
  String, Action, Result, ok, raise, Exception, proceed, ◌>>=◌, lift,
}
use agentdesk_nestjs.Llm.{LlmToolCall, ChatMessage}
use agentdesk_nestjs.Tools.{ToolResult}
use agentdesk_nestjs.Tools.Execute.Results.{execute-Ends}
use agentdesk_nestjs.Conversation.{ConversationIdAndMessages}
use agentdesk_nestjs.Agent.{
  World, AgentService, Run, Event, ChatResponse, fresh_acc, record_answer, on_store,
}
use agentdesk_nestjs.Agent.Batch.{run_call}
use agentdesk_nestjs.Agent.History.{calls_in, extend-nil, extend-record_answer, Answered}
use agentdesk_nestjs.Agent.Approval.{
  ApproveDecision, review, carry_out, decision_event, apply_decisions, load_conversation, approve,
  denied,
}
use agentdesk_nestjs.Agent.Loop.{run_loop}

-- The calls that were approved, in their order.
abbrev pub approved_calls : List (LlmToolCall × Bool) → List LlmToolCall
approved_calls [] = []
approved_calls ((tc, true) ∷ rest) = tc ∷ approved_calls rest
approved_calls ((tc, false) ∷ rest) = approved_calls rest

-- The events of the decisions, told at one iteration.
abbrev pub decision_events : ℕ → List (LlmToolCall × Bool) → List Event
decision_events n [] = []
decision_events n ((tc, true) ∷ rest) =
    Event.approval_granted tc.id tc.name n ∷ decision_events n rest
decision_events n ((tc, false) ∷ rest) =
    Event.approval_denied tc.id tc.name n ∷ decision_events n rest

-- A step of the store that succeeds.
on_store-ok :
    {S P A B : Type 0} (m : Action S A) (k : A → Action (World S P) B) (w : World S P) {a : A}
    → (m w.store).0 ≡ ok a
    → (on_store m >>= k) w ≡ k a (record w { store = (m w.store).1 })
on_store-ok m k w e = ap (λ r. proceed r (record w { store = (m w.store).1 }) k) e

module _ {Schema S P : Type 0} (service : AgentService Schema S P) where
  -- The store after some calls, one after the other, and nothing else.
  abbrev pub after_calls : List LlmToolCall → S → S
  after_calls [] s = s
  after_calls (tc ∷ tcs) s = after_calls tcs (run_call service tc s).1

  -- The world in which the decisions are carried out and nothing else has happened.
  abbrev pub decided_world : ℕ → List (LlmToolCall × Bool) → World S P → World S P
  decided_world n decided w = record w {
    store = after_calls (approved_calls decided) w.store;
    events = w.events ++ decision_events n decided;
  }

  abbrev Carries : List (LlmToolCall × Bool) → Run → World S P → Type 0
  Carries decided run w =
      (run' : Run) × (apply_decisions service decided run w
        ≡ (ok run', decided_world run.acc.iterations decided w))
      × Answered service (calls_in decided) run run'

  -- One decision, with its result, before those that are left.
  carry_on :
      (tc : LlmToolCall) (approved : Bool) (rest : List (LlmToolCall × Bool)) (run : Run)
      (w : World S P) (result : ToolResult)
      → (carry_out service approved tc w.store).0 ≡ ok result
      → ((u : World S P) → Carries rest (record_answer tc result run) u)
      → (run' : Run) × (apply_decisions service ((tc, approved) ∷ rest) run w ≡ (
        ok run',
        decided_world run.acc.iterations rest (record w {
          store = (carry_out service approved tc w.store).1;
          events = w.events ++ decision_event service approved tc run ∷ [];
        }),
      ))
        × Answered service (tc ∷ calls_in rest) run run'
  unfolding apply_decisions record_answer
  carry_on tc approved rest run w result e ih =
      let (run', runs, (answers, same, r)) = ih (record w {
        store = (carry_out service approved tc w.store).1;
        events = w.events ++ decision_event service approved tc run ∷ [];
      }) in
      (
        run',
        on_store-ok (carry_out service approved tc) _ w e ∙ runs,
        (
          (tc, result) ∷ answers,
          ap (λ (l : List LlmToolCall). tc ∷ l) same,
          r ∙ extend-record_answer tc result answers run,
        ),
      )

  -- The decisions are always carried out to the end: the store is that of the approved calls,
  -- executed in their order, and every call has its answer.
  pub apply_decisions-runs :
      (decided : List (LlmToolCall × Bool)) (run : Run) (w : World S P) → Carries decided run w
  unfolding apply_decisions carry_out
  apply_decisions-runs [] run w = (
    run,
    ap (λ (es : List Event). (ok run, record w { events = es })) (sym (append-nil w.events)),
    ([], refl, sym (extend-nil run)),
  )
  apply_decisions-runs ((tc, true) ∷ rest) run w =
      let (result, e, _) = execute-Ends service.zod service.registry tc.name tc.arguments w.store in
      let (run', runs, answered) =
        carry_on tc true rest run w result e
          (λ u. apply_decisions-runs rest (record_answer tc result run) u) in
      (
        run',
        runs
            ∙ ap
                (λ (es : List Event). (
                  ok run',
                  record (decided_world run.acc.iterations ((tc, true) ∷ rest) w) { events = es },
                ))
                (append_assoc w.events (decision_event service true tc run ∷ [])
                  (decision_events run.acc.iterations rest)),
        answered,
      )
  apply_decisions-runs ((tc, false) ∷ rest) run w =
      let (run', runs, answered) =
        carry_on tc false rest run w denied refl
          (λ u. apply_decisions-runs rest (record_answer tc denied run) u) in
      (
        run',
        runs
            ∙ ap
                (λ (es : List Event). (
                  ok run',
                  record (decided_world run.acc.iterations ((tc, false) ∷ rest) w) { events = es },
                ))
                (append_assoc w.events (decision_event service false tc run ∷ [])
                  (decision_events run.acc.iterations rest)),
        answered,
      )

  carry : String → List ChatMessage → List (LlmToolCall × Bool) → Action (World S P) ChatResponse
  carry cid messages decided = do
    run ← apply_decisions service decided (record { messages = messages; acc = fresh_acc 1 })
    run_loop service cid service.default_system_prompt run

  approve-loaded :
      (cid : String) (decisions : List ApproveDecision) (w : World S P)
      {existing : ConversationIdAndMessages} {s : S}
      → load_conversation service cid w.store ≡ (ok existing, s)
      → approve service cid decisions w
        ≡ proceed
            (review service.registry existing.messages decisions)
            (record w { store = s })
            (carry cid existing.messages)
  unfolding approve carry
  approve-loaded cid decisions w found =
      ap
        (λ (x : Result ConversationIdAndMessages × S).
          proceed x.0 (record w { store = x.1 })
            (λ existing.
              lift (review service.registry existing.messages decisions)
              >>= carry cid existing.messages))
        found

  -- If the conversation is found and the decisions are refused, the approval throws the reason:
  -- nothing is executed, stored or emitted, and the model is not asked.
  pub approve_raises :
      (cid : String) (decisions : List ApproveDecision) (w : World S P)
      (existing : ConversationIdAndMessages) (s : S) (e : Exception)
      → load_conversation service cid w.store ≡ (ok existing, s)
      → review service.registry existing.messages decisions ≡ raise e
      → approve service cid decisions w ≡ (raise e, record w { store = s })
  approve_raises cid decisions w existing s e found refused =
      approve-loaded cid decisions w found
      ∙ ap (λ r. proceed r (record w { store = s }) (carry cid existing.messages)) refused

  -- If the conversation is found and the decisions are accepted, the approved calls are executed
  -- in their order, each once, and no other; every decided call has its answer; and the loop goes
  -- on from the run and the world that this leaves.
  pub approve_reviewed :
      (cid : String) (decisions : List ApproveDecision) (w : World S P)
      (existing : ConversationIdAndMessages) (s : S) (decided : List (LlmToolCall × Bool))
      → load_conversation service cid w.store ≡ (ok existing, s)
      → review service.registry existing.messages decisions ≡ ok decided
      → (run : Run) × (approve service cid decisions w
          ≡ run_loop service cid service.default_system_prompt run
              (decided_world 1 decided (record w { store = s })))
        × Answered service
            (calls_in decided)
            (record { messages = existing.messages; acc = fresh_acc 1 })
            run
  unfolding carry
  approve_reviewed cid decisions w existing s decided found accepted =
      let start : Run = record { messages = existing.messages; acc = fresh_acc 1 } in
      let (run, runs, answered) = apply_decisions-runs decided start (record w { store = s }) in
      (
        run,
        approve-loaded cid decisions w found
            ∙ ap (λ r. proceed r (record w { store = s }) (carry cid existing.messages)) accepted
            ∙ ap
                (λ (x : Result Run × World S P).
                  proceed x.0 x.1 (run_loop service cid service.default_system_prompt))
                runs,
        answered,
      )
