-- ===== src/Agent/History/Pairing.antt =====
-- The pairing of calls and answers in a history: no round leaves an orphaned call behind, and a
-- pause leaves exactly the calls that wait for approval.
use mathlib.Core.Path.{ap₂}
use agentdesk_nestjs.Base.{
  ◌≡◌, refl, ap, ◌∙◌, ◌↔◌, true, not, List, [], ◌∷◌, ◌++◌, append-nil, String, str_eq, eq_refl, All,
  select, any-append, concat_map-append, map, arith,
}
use agentdesk_nestjs.Llm.{LlmToolCall, LlmResponse, ChatMessage}
use agentdesk_nestjs.Agent.{Run}
use agentdesk_nestjs.Agent.Approval.{answered_ids, assistant_calls, pending_calls, contains}
use agentdesk_nestjs.Agent.Loop.{assistant_message, push_message}
use agentdesk_nestjs.Agent.History.{Answers, calls_in, messages_in, extend}

abbrev pub ids_of : List LlmToolCall → List String
ids_of = map (λ (tc : LlmToolCall). tc.id)

-- Every call is answered by one of the ids.
abbrev pub AllAnswered : List String → List LlmToolCall → Type 0
AllAnswered ids = All (λ (tc : LlmToolCall). contains ids tc.id ≡ true)

-- Every call of the history has its answer in it.
abbrev pub IsPaired : List ChatMessage → Type 0
IsPaired messages = AllAnswered (answered_ids messages) (assistant_calls messages)

pub select-nil :
    (ids : List String) (tcs : List LlmToolCall)
    → AllAnswered ids tcs ↔ (select (λ tc. not (contains ids tc.id)) tcs ≡ [])
select-nil ids [] = (λ _. refl, λ _. tt)
select-nil ids (tc ∷ tcs) = ground (arith, select-nil ids tcs)

-- A history is paired exactly when nothing in it is pending.
pub IsPaired-iff : (messages : List ChatMessage) → IsPaired messages ↔ (pending_calls messages ≡ [])
unfolding pending_calls
IsPaired-iff messages = select-nil (answered_ids messages) (assistant_calls messages)

pub AllAnswered-left :
    (xs ys : List String) (tcs : List LlmToolCall) → AllAnswered xs tcs → AllAnswered (xs ++ ys) tcs
AllAnswered-left xs ys [] h = tt
AllAnswered-left xs ys (tc ∷ tcs) h =
    (rw (any-append (λ j. str_eq j tc.id) xs ys, h.0), AllAnswered-left xs ys tcs h.1)

pub AllAnswered-right :
    (xs ys : List String) (tcs : List LlmToolCall) → AllAnswered ys tcs → AllAnswered (xs ++ ys) tcs
AllAnswered-right xs ys [] h = tt
AllAnswered-right xs ys (tc ∷ tcs) h =
    (ground (arith, any-append (λ j. str_eq j tc.id) xs ys, h.0), AllAnswered-right xs ys tcs h.1)

-- The ids of calls answer these calls.
pub AllAnswered-ids_of : (tcs : List LlmToolCall) → AllAnswered (ids_of tcs) tcs
AllAnswered-ids_of [] = tt
AllAnswered-ids_of (tc ∷ tcs) =
    (rw (eq_refl tc.id), AllAnswered-right (tc.id ∷ []) (ids_of tcs) tcs (AllAnswered-ids_of tcs))

answered_ids-messages_in :
    (answers : Answers) → answered_ids (messages_in answers) ≡ ids_of (calls_in answers)
unfolding answered_ids
answered_ids-messages_in [] = refl
answered_ids-messages_in (e ∷ answers) =
    ap (λ (l : List String). e.0.id ∷ l) (answered_ids-messages_in answers)

assistant_calls-messages_in : (answers : Answers) → assistant_calls (messages_in answers) ≡ []
unfolding assistant_calls
assistant_calls-messages_in [] = refl
assistant_calls-messages_in (e ∷ answers) = assistant_calls-messages_in answers

answered_ids-append :
    (xs ys : List ChatMessage) → answered_ids (xs ++ ys) ≡ answered_ids xs ++ answered_ids ys
unfolding answered_ids
answered_ids-append xs ys = concat_map-append _ xs ys

assistant_calls-append :
    (xs ys : List ChatMessage)
    → assistant_calls (xs ++ ys) ≡ assistant_calls xs ++ assistant_calls ys
unfolding assistant_calls
assistant_calls-append xs ys = concat_map-append _ xs ys

-- The history after a response and the answers to its safe calls.
abbrev pub after_answers : LlmResponse → Answers → Run → List ChatMessage
after_answers response answers run =
    (extend answers (push_message (assistant_message response) run)).messages

pub answered_ids-after :
    (response : LlmResponse) (answers : Answers) (run : Run)
    → answered_ids (after_answers response answers run)
      ≡ answered_ids run.messages ++ ids_of (calls_in answers)
answered_ids-after response answers run =
    answered_ids-append (run.messages ++ assistant_message response ∷ []) (messages_in answers)
    ∙ ap₂ (λ (x y : List String). x ++ y)
        (answered_ids-append run.messages (assistant_message response ∷ [])
          ∙ ap (λ (l : List String). answered_ids run.messages ++ l) no_ids
          ∙ append-nil _)
        (answered_ids-messages_in answers)
  where
    no_ids : answered_ids (assistant_message response ∷ []) ≡ []
    no_ids = unfold answered_ids in refl

pub assistant_calls-after :
    (response : LlmResponse) (answers : Answers) (run : Run)
    → assistant_calls (after_answers response answers run)
      ≡ assistant_calls run.messages ++ response.tool_calls
assistant_calls-after response answers run =
    assistant_calls-append (run.messages ++ assistant_message response ∷ []) (messages_in answers)
    ∙ ap₂ (λ (x y : List LlmToolCall). x ++ y)
        (assistant_calls-append run.messages (assistant_message response ∷ [])
          ∙ ap (λ (l : List LlmToolCall). assistant_calls run.messages ++ l) own_calls)
        (assistant_calls-messages_in answers)
    ∙ append-nil _
  where
    own_calls : assistant_calls (assistant_message response ∷ []) ≡ response.tool_calls
    own_calls = unfold assistant_calls in append-nil _

-- The same for answers added to any history.
pub answered_ids-extend :
    (messages : List ChatMessage) (answers : Answers)
    → answered_ids (messages ++ messages_in answers)
      ≡ answered_ids messages ++ ids_of (calls_in answers)
answered_ids-extend messages answers =
    answered_ids-append messages (messages_in answers)
    ∙ ap (λ (l : List String). answered_ids messages ++ l) (answered_ids-messages_in answers)

pub assistant_calls-extend :
    (messages : List ChatMessage) (answers : Answers)
    → assistant_calls (messages ++ messages_in answers) ≡ assistant_calls messages
assistant_calls-extend messages answers =
    assistant_calls-append messages (messages_in answers)
    ∙ ap (λ (l : List LlmToolCall). assistant_calls messages ++ l)
        (assistant_calls-messages_in answers)
    ∙ append-nil _

-- What answers the pending calls completes the answers.
AllAnswered-complete :
    (ids more : List String) (tcs : List LlmToolCall)
    → AllAnswered more (select (λ tc. not (contains ids tc.id)) tcs)
    → AllAnswered (ids ++ more) tcs
AllAnswered-complete ids more [] h = tt
AllAnswered-complete ids more (tc ∷ tcs) h =
    ground (arith, any-append (λ j. str_eq j tc.id) ids more, AllAnswered-complete ids more tcs)

-- Answers to all pending calls make any history paired.
pub pending_calls-IsPaired :
    (messages : List ChatMessage) (answers : Answers)
    → calls_in answers ≡ pending_calls messages
    → IsPaired (messages ++ messages_in answers)
unfolding pending_calls
pending_calls-IsPaired messages answers same =
    rw (answered_ids-extend messages answers, assistant_calls-extend messages answers, same)
      (AllAnswered-complete (answered_ids messages) _ (assistant_calls messages)
        (AllAnswered-ids_of _))
