-- ===== src/Agent/Tests/HistoryTests.antt =====
-- The theorems about the stored history at concrete inputs.
use agentdesk_nestjs.Base.{◌≡◌, refl, true, List, [], ◌∷◌, none, some, ok, lookup, select}
use agentdesk_nestjs.Conversation.{to_messages}
use agentdesk_nestjs.Agent.Loop.{after_response, run_loop}
use agentdesk_nestjs.Agent.Approval.{pending_calls, approve}
use agentdesk_nestjs.Agent.Fixture.{Memory, toy_agent, toy_registry, call, asks_for}
use agentdesk_nestjs.Agent.Batch.Partition.{wants_approval}
use agentdesk_nestjs.Agent.History.Pairing.{IsPaired}
use agentdesk_nestjs.Agent.History.Rounds.{Stored}
use agentdesk_nestjs.Agent.History.Runs.{run_loop-Settles, approve-Settles}
use agentdesk_nestjs.Agent.History.Pauses.{after_response-pending}
use agentdesk_nestjs.Agent.Fixture.{run_of, toy_conversations, update_row}
use agentdesk_nestjs.Conversation.{Conversation, ConversationStatus, Remembers}
use agentdesk_nestjs.Base.{String, Option, ap}
use agentdesk_nestjs.Llm.{ChatMessage}
use mathlib.Core.Path.{subst}
use agentdesk_nestjs.Base.{raise, Result, state_eq, lookup-insert_self}
use agentdesk_nestjs.Base.{inl}
use agentdesk_nestjs.Conversation.{StoredMessages}
use agentdesk_nestjs.Agent.Fixture.{find_row}
use agentdesk_nestjs.Agent.Approval.{ApproveDecision}
use agentdesk_nestjs.Agent.History.Resumption.{Resumes, paused-Resumes}
use agentdesk_nestjs.Agent.Tests.{program, mixed, busy, approval, waiting}

-- A stored conversation is found again.
toy-Remembers : Remembers toy_conversations
unfolding to_messages
toy-Remembers = record { found_after_update = found }
  where
    found :
        (id : String) (ms : List ChatMessage) (status : Option ConversationStatus) (s : Memory)
        {r : List ChatMessage} {t : Memory}
        → toy_conversations.update_messages id ms status s ≡ (ok r, t)
        → (c : Conversation) × ((toy_conversations.find id t).0 ≡ ok c)
          × (to_messages c.messages ≡ ms)
    found id ms status s {r} {t} e = updated (lookup id s.rows) e
      where
        updated :
            (old : Option (List ChatMessage))
            → update_row id ms old s ≡ (ok r, t)
            → (c : Conversation) × ((toy_conversations.find id t).0 ≡ ok c)
              × (to_messages c.messages ≡ ms)
        updated none h =
            let e : raise _ ≡ ok r = ap (λ (x : Result (List ChatMessage) × Memory). x.0) h in cc e
        updated (some o) h = (
          record { id = id; messages = StoredMessages.messages ms },
          subst
              (λ x.
                (toy_conversations.find id x).0
                ≡ ok (record { id = id; messages = StoredMessages.messages ms }))
              (state_eq h) (ap (find_row id) (lookup-insert_self id ms s.rows)),
          refl,
        )

run_loop-Settles_example :
    (messages : List ChatMessage) × Stored toy_agent "c" messages
      (run_loop toy_agent "c" [] (run_of []) busy).1
    × IsPaired messages
unfolding program
run_loop-Settles_example =
    run_loop-Settles toy_agent "c" toy-Remembers [] (run_of []) busy tt refl refl

approve-Settles_example :
    (messages : List ChatMessage) × Stored toy_agent "c" messages
      (approve toy_agent "c" approval waiting).1
    × IsPaired messages
unfolding program
approve-Settles_example = approve-Settles toy_agent "c" approval waiting toy-Remembers refl refl

after_response-pending_example :
    (messages : List ChatMessage) × Stored toy_agent "c" messages
      (after_response toy_agent "c" (asks_for mixed) (run_of []) busy).1
    × (call "a" "wipe" ∷ [] ≡ select (wants_approval toy_registry) mixed)
    × (pending_calls messages ≡ call "a" "wipe" ∷ [])
unfolding program
after_response-pending_example =
    after_response-pending toy_agent "c" (asks_for mixed) (run_of []) busy _
      (record { tool_calls = call "a" "wipe" ∷ [] }) toy-Remembers tt (refl, tt) refl refl

abbrev approve_a : ApproveDecision
approve_a = record { tool_call_id = "a"; approved = true }

paused-Resumes_example :
    Resumes toy_agent "c"
      (approve_a ∷ [])
      (call "a" "wipe" ∷ [])
      (after_response toy_agent "c" (asks_for mixed) (run_of []) busy).1
unfolding program
paused-Resumes_example =
    paused-Resumes toy_agent "c" (asks_for mixed) (run_of []) busy _
      (record { tool_calls = call "a" "wipe" ∷ [] }) approve_a [] toy-Remembers tt (refl, tt) refl
      refl (tt, tt) (inl refl, tt)
