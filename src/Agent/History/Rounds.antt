-- ===== src/Agent/History/Rounds.antt =====
-- The history over the rounds of the loop, and what the store holds when a run returns.
use mathlib.Core.Path.{subst}
use agentdesk_nestjs.Base.{
  ℕ, ◌≡◌, refl, sym, ap, ◌∙◌, List, [], ◌∷◌, ◌++◌, Option, none, some, String, Text, All-append,
  select, Action, Result, ok, ◌>>◌, >>=-eq-ok, ok-injective, state_eq, pure, arith, map-append,
  Bool-cases, inl, inr,
}
use agentdesk_nestjs.Llm.{LlmToolCall, LlmResponse, LlmStopReason, ChatMessage}
use agentdesk_nestjs.Tools.{get_definitions}
use agentdesk_nestjs.Conversation.{Conversation, ConversationStatus, Remembers, to_messages}
use agentdesk_nestjs.Agent.{World, AgentService, Run, ChatResponse, Event, emit}
use agentdesk_nestjs.Agent.Retry.{call_llm_with_retry, check_budget}
use agentdesk_nestjs.Agent.Batch.{partition}
use agentdesk_nestjs.Agent.Batch.Partition.{
  wants_approval, is_mutating, is_read_only, partition-select,
}
use agentdesk_nestjs.Agent.Approval.{assistant_calls}
use agentdesk_nestjs.Agent.Loop.{
  Outcome, finished, again, persist, finish, pause_or_go_on, after_response, ask, after_check,
  round, respond, respond_paused, assistant_message, push_message, count_response, is_final,
  iteration_event,
}
use agentdesk_nestjs.Agent.History.{Answers, calls_in, extend, act-Answered}
use agentdesk_nestjs.Agent.History.Pairing.{
  ids_of, AllAnswered, IsPaired, after_answers, answered_ids-after, assistant_calls-after,
  AllAnswered-left, AllAnswered-right, AllAnswered-ids_of,
}

module _ {Schema S P : Type 0} (service : AgentService Schema S P) where
  -- All calls of a response are answered once its safe calls are, if none needs approval.
  safe-AllAnswered :
      (ids : List String) (tcs : List LlmToolCall)
      → AllAnswered ids (select (is_read_only service.registry) tcs)
      → AllAnswered ids (select (is_mutating service.registry) tcs)
      → select (wants_approval service.registry) tcs ≡ []
      → AllAnswered ids tcs
  safe-AllAnswered ids [] reads writes none_gated = tt
  safe-AllAnswered ids (tc ∷ tcs) reads writes none_gated = ground (arith, safe-AllAnswered ids tcs)

  abbrev pub safe_calls : LlmResponse → List LlmToolCall
  safe_calls response =
      let b = partition service.registry response.tool_calls in b.read_only ++ b.mutating

  pub safe_calls-AllAnswered :
      (response : LlmResponse)
      → AllAnswered
          (ids_of (safe_calls response))
          (select (is_read_only service.registry) response.tool_calls)
        × AllAnswered
            (ids_of (safe_calls response))
            (select (is_mutating service.registry) response.tool_calls)
  safe_calls-AllAnswered response =
      let (_, writes, reads) = partition-select service.registry response.tool_calls in
      rw (reads, writes, map-append)
        (
          AllAnswered-left _ _ _ (AllAnswered-ids_of _),
          AllAnswered-right _ _ _ (AllAnswered-ids_of _),
        )

  -- After the answers the history is paired, if no call of the response needs approval.
  after_answers-IsPaired :
      (response : LlmResponse) (answers : Answers) (run : Run)
      → calls_in answers ≡ safe_calls response
      → (partition service.registry response.tool_calls).needs_approval ≡ []
      → IsPaired run.messages
      → IsPaired (after_answers response answers run)
  after_answers-IsPaired response answers run same none_gated paired =
      rw (answered_ids-after response answers run, assistant_calls-after response answers run, same)
        (All-append _ (assistant_calls run.messages) response.tool_calls
          (AllAnswered-left _ _ _ paired)
          (AllAnswered-right _ _ _ (
            safe-AllAnswered _ response.tool_calls (safe_calls-AllAnswered response).0
              (safe_calls-AllAnswered response).1
              (sym (partition-select service.registry response.tool_calls).0 ∙ none_gated))))

module _ {Schema S P : Type 0} (service : AgentService Schema S P) (cid : String) where
  -- The history that the store holds for the conversation.
  abbrev pub Stored : List ChatMessage → World S P → Type 0
  Stored messages w =
      (c : Conversation) × ((service.conversations.find cid w.store).0 ≡ ok c)
      × (to_messages c.messages ≡ messages)

  pub persist-Stored :
      Remembers service.conversations
      → (run : Run) (status : ConversationStatus) (w : World S P) {r : List ChatMessage}
        {w' : World S P}
      → persist service cid run status w ≡ (ok r, w')
      → Stored run.messages w'
  unfolding persist
  persist-Stored remembers run status w {r} {w'} e =
      remembers.found_after_update cid run.messages (some status) w.store
        (ap (λ (x : Result (List ChatMessage) × World S P). (x.0, x.1.store)) e)

  pub finish-Stored :
      Remembers service.conversations
      → (run : Run) (message : Text) (reason : LlmStopReason) (w : World S P) {outcome : Outcome}
        {w' : World S P}
      → finish service cid run message reason w ≡ (ok outcome, w')
      → (outcome ≡ finished (respond cid run message reason)) × Stored run.messages w'
  unfolding finish
  finish-Stored remembers run message reason w {outcome} {w'} e =
      let (_, u, stored, same) =
        >>=-eq-ok (persist service cid run ConversationStatus.completed)
          (λ _. pure (finished (respond cid run message reason))) w e in
      (
        sym (ok-injective same),
        subst (λ x. Stored run.messages x) (state_eq same)
            (persist-Stored remembers run _ w stored),
      )

  abbrev paused : List LlmToolCall → Run → List ChatMessage → Action (World S P) Outcome
  paused calls run _ = pure (finished (respond_paused cid run calls))

  abbrev announced : List LlmToolCall → Run → World S P → World S P
  announced calls run w = record w {
    events = w.events ++ Event.awaiting_approval calls run.acc.iterations ∷ [];
  }

  -- A batch goes on only if nothing needs approval; otherwise the run pauses, with its history
  -- stored and the calls that wait in the response.
  pause_or_go_on-again :
      (calls : List LlmToolCall) (run : Run) (w : World S P) {run' : Run} {w' : World S P}
      → pause_or_go_on service cid calls run w ≡ (ok (again run'), w')
      → (calls ≡ []) × (run' ≡ run)
  unfolding pause_or_go_on
  pause_or_go_on-again [] run w e = (refl, cc (ok-injective e))
  pause_or_go_on-again (tc ∷ tcs) run w e =
      let (_, _, _, last) =
        >>=-eq-ok (persist service cid run ConversationStatus.paused) (paused (tc ∷ tcs) run)
          (announced (tc ∷ tcs) run w) e in
      cc (ok-injective last)

  pub pause_or_go_on-finished :
      Remembers service.conversations
      → (calls : List LlmToolCall) (run : Run) (w : World S P) {response : ChatResponse}
        {w' : World S P}
      → pause_or_go_on service cid calls run w ≡ (ok (finished response), w')
      → (response ≡ respond_paused cid run calls) × Stored run.messages w'
  unfolding pause_or_go_on
  pause_or_go_on-finished remembers [] run w e = cc (ok-injective e)
  pause_or_go_on-finished remembers (tc ∷ tcs) run w e =
      let (_, _, stored, last) =
        >>=-eq-ok (persist service cid run ConversationStatus.paused) (paused (tc ∷ tcs) run)
          (announced (tc ∷ tcs) run w) e in
      (
        cc (ok-injective last),
        subst (λ x. Stored run.messages x) (state_eq last)
            (persist-Stored remembers run _ _ stored),
      )

  -- The state of a run between two rounds, and the store when it returns without a pause.
  abbrev pub Consistent : Outcome → World S P → Type 0
  Consistent (again run) w = IsPaired run.messages
  Consistent (finished response) w =
      response.awaiting_approval ≡ none
      → (messages : List ChatMessage) × Stored messages w × IsPaired messages

  module _ (remembers : Remembers service.conversations) where
    finish-Consistent :
        (run : Run) (message : Text) (reason : LlmStopReason) (w : World S P) (outcome : Outcome)
        {w' : World S P}
        → IsPaired run.messages
        → finish service cid run message reason w ≡ (ok outcome, w')
        → Consistent outcome w'
    finish-Consistent run message reason w (again next) paired e =
        cc ((finish-Stored remembers run message reason w e).0)
    finish-Consistent run message reason w (finished response) paired e =
        λ _. (run.messages, (finish-Stored remembers run message reason w e).1, paired)

    after_response-Consistent :
        (response : LlmResponse) (run : Run) (w : World S P) (outcome : Outcome) {w' : World S P}
        → IsPaired run.messages
        → after_response service cid response run w ≡ (ok outcome, w')
        → Consistent outcome w'
    unfolding after_response
    after_response-Consistent response run w outcome {w'} paired e =
        elim (Bool-cases (is_final response)) [
          | inl final ↦
              finish-Consistent run response.content response.stop_reason w outcome paired
                (rw final at e)
          | inr more ↦ acted outcome (act-Answered service cid _ _ w (rw more at e))
        ]
      where
        acted :
            (outcome : Outcome)
            → (answers : Answers) × (u : World S P) × (calls_in answers
                ≡ safe_calls service response)
              × (pause_or_go_on service cid
                    (partition service.registry response.tool_calls).needs_approval
                    (extend answers (push_message (assistant_message response) run))
                    u
                  ≡ (ok outcome, w'))
            → Consistent outcome w'
        acted (again next) (answers, u, same, rest) =
            let (none_gated, r) = pause_or_go_on-again _ _ u rest in
            rw r (after_answers-IsPaired service response answers run same none_gated paired)
        acted (finished answer) (answers, u, same, rest) =
            λ unpaused. cc ((pause_or_go_on-finished remembers _ _ u rest).0)

    ask-Consistent :
        (system : Text) (run : Run) (w : World S P) (outcome : Outcome) {w' : World S P}
        → IsPaired run.messages
        → ask service cid system run w ≡ (ok outcome, w')
        → Consistent outcome w'
    unfolding ask
    ask-Consistent system run w outcome paired e =
        let (response, u, _, rest) =
          >>=-eq-ok
            (call_llm_with_retry service run.messages (get_definitions service.registry) system)
            (λ response.
              emit (iteration_event run response)
              >> after_response service cid response (count_response run response))
            w e in
        after_response-Consistent response (count_response run response) _ outcome paired rest

    pub round-Consistent :
        (system : Text) (start : ℕ) (run : Run) (w : World S P) (outcome : Outcome) {w' : World S P}
        → IsPaired run.messages
        → round service cid system start run w ≡ (ok outcome, w')
        → Consistent outcome w'
    unfolding round
    round-Consistent system start run w outcome {w'} paired e =
        let (early, u, _, rest) =
          >>=-eq-ok (check_budget service run.acc.iterations run.acc.usage start)
            (after_check service cid system run) w e in
        checked early u rest
      where
        checked :
            (early : Option Text) (u : World S P)
            → after_check service cid system run early u ≡ (ok outcome, w')
            → Consistent outcome w'
        checked (some reason) u h =
            unfold after_check in finish-Consistent run _ _ u outcome paired h
        checked none u h = unfold after_check in ask-Consistent system run u outcome paired h
