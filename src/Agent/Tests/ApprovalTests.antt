-- ===== src/Agent/Tests/ApprovalTests.antt =====
-- Approvals of small histories, and each theorem about them at a concrete input.
use agentdesk_nestjs.Base.{◌≡◌, refl, true, false, List, [], ◌∷◌, some, units}
use agentdesk_nestjs.Agent.Loop.{run_loop}
use agentdesk_nestjs.Agent.Approval.{ApproveDecision, approve}
use agentdesk_nestjs.Agent.Fixture.{
  Memory, Script, toy_agent, call, says, world_with, paused_history,
}
use agentdesk_nestjs.Agent.Safety.{disarmed}
use agentdesk_nestjs.Agent.Safety.Entry.{approve_denied}
use agentdesk_nestjs.Base.{arith}
use agentdesk_nestjs.Agent.{World}
use agentdesk_nestjs.Base.{Bool, failure, raise, bad_request, Exception}
use agentdesk_nestjs.Base.{Text, inl, inr, eq_iff}
use agentdesk_nestjs.Agent.Approval.Execution.{decided_world, after_calls}
use agentdesk_nestjs.Agent.Approval.Verdicts.{Names}
use agentdesk_nestjs.Agent.Approval.Outcomes.{approve_refused, approve_accepted}
use agentdesk_nestjs.Agent.Approval.Outage.{approve_down}
use agentdesk_nestjs.Agent.History.{Answered}
use agentdesk_nestjs.Agent.{fresh_acc, AgentService, Run}
use agentdesk_nestjs.Agent.Tests.{wipe_all, program, approval, waiting}

-- An approved call runs, and the loop goes on to the answer.
approve_runs :
    (approve toy_agent "c"
      (record { tool_call_id = "t1"; approved = true } ∷ [])
      (world_with (some (says "done") ∷ []) (("c", paused_history) ∷ []))).1.store.count
    ≡ 0
unfolding program
approve_runs = refl

-- A denied call does not.
approve_denies :
    (approve toy_agent "c"
      (record { tool_call_id = "t1"; approved = false } ∷ [])
      (world_with (some (says "done") ∷ []) (("c", paused_history) ∷ []))).1.store.count
    ≡ 5
unfolding program
approve_denies = refl

abbrev denial : List ApproveDecision
denial = record { tool_call_id = "t1"; approved = false } ∷ []

approve_denied_example :
    approve (disarmed wipe_all toy_agent) "c" denial ≡ approve toy_agent "c" denial
approve_denied_example = approve_denied wipe_all toy_agent "c" denial (refl, tt)

abbrev stranger : List ApproveDecision
stranger = record { tool_call_id = "t9"; approved = true } ∷ []

approve_refused_example :
    (reason : Text) × (approve toy_agent "c" stranger waiting
      ≡ (raise (bad_request reason), waiting))
unfolding program
approve_refused_example =
    approve_refused toy_agent "c" stranger waiting (record { id = "c"; messages = paused_history })
      waiting.store refl (λ (some_left, distinct, (named, rest), gated). strange named)
  where
    strange : Names (call "t1" "wipe" ∷ []) (record { tool_call_id = "t9"; approved = true }) → ⊥
    strange (inl same) = let clash = (eq_iff "t9" "t1").1 same in cc clash
    strange (inr later) = elim later [ ]

approve_accepted_example :
    (run : Run) × (approve toy_agent "c" approval waiting
      ≡ run_loop toy_agent "c"
          (units "help")
          run
          (decided_world toy_agent 1 ((call "t1" "wipe", true) ∷ []) waiting))
    × Answered toy_agent
        (call "t1" "wipe" ∷ [])
        (record { messages = paused_history; acc = fresh_acc 1 })
        run
unfolding program
approve_accepted_example =
    approve_accepted toy_agent "c" approval waiting (record { id = "c"; messages = paused_history })
      waiting.store refl
      ((λ none_left. cc none_left), (tt, tt), (inl refl, tt), ((_, refl, refl), tt))

-- The agent when no model answers.
abbrev cut_off : AgentService Bool Memory Script
cut_off = record toy_agent { llm = λ _ p. (raise (failure (units "overloaded")), p) }

approve_down_example :
    (e : Exception) × (w' : World Memory Script) × (approve cut_off "c" approval waiting
      ≡ (raise e, w'))
    × (w'.store ≡ after_calls cut_off (call "t1" "wipe" ∷ []) waiting.store)
unfolding program
approve_down_example =
    approve_down cut_off (λ _ _. (_, refl)) "c" approval waiting
      (record { id = "c"; messages = paused_history }) waiting.store ((call "t1" "wipe", true) ∷ [])
      refl refl (omega arith) (omega arith) (omega arith)
