-- ===== src/Agent/Tests/LoopTests.antt =====
-- The loop run on small inputs, and each theorem about it at a concrete input.
use agentdesk_nestjs.Base.{◌≡◌, refl, [], ◌∷◌, none, some, units}
use agentdesk_nestjs.Agent.Retry.{call_llm_with_retry}
use agentdesk_nestjs.Agent.Batch.{all_settled}
use agentdesk_nestjs.Agent.Loop.{round, exhausted, loop}
use agentdesk_nestjs.Agent.Approval.{chat}
use agentdesk_nestjs.Agent.Fixture.{Memory, Script, toy_agent, call, says, world_with}
use agentdesk_nestjs.Agent.Safety.{disarmed}
use agentdesk_nestjs.Agent.Safety.Entry.{chat-disarmed}
use agentdesk_nestjs.Agent.Fixture.{run_of}
use agentdesk_nestjs.Base.{◌≤◌, arith}
use agentdesk_nestjs.Agent.{World}
use agentdesk_nestjs.Base.{Result}
use agentdesk_nestjs.Agent.Retry.{request_for}
use agentdesk_nestjs.Agent.Retry.Attempts.{attempts, doubled_from, call_llm-attempts}
use agentdesk_nestjs.Agent.Batch.Schedule.{alone, all_settled-alone}
use agentdesk_nestjs.Agent.Loop.Bounds.{run_loop-iterations}
use agentdesk_nestjs.Agent.Loop.Fuel.{loop-unrolls}
use agentdesk_nestjs.Agent.Loop.{continue_with}
use agentdesk_nestjs.Base.{◌-◌, ltb, if◌then◌else◌, ◌>>=◌}
use agentdesk_nestjs.Agent.{ChatResponse, Run}
use agentdesk_nestjs.Agent.Tests.{wipe_all, program, mixed_script, busy}

-- A mixed batch pauses: the counter went up and was not wiped, and two calls were answered.
chat_pauses :
    (chat toy_agent none (units "hi") none none none (world_with mixed_script [])).1.store.count ≡ 6
unfolding program
chat_pauses = refl

chat-disarmed_example :
    chat (disarmed wipe_all toy_agent) none (units "hi") none none none
    ≡ chat toy_agent none (units "hi") none none none
chat-disarmed_example = chat-disarmed wipe_all toy_agent none (units "hi") none none none

abbrev flaky : World Memory Script
flaky = world_with (none ∷ some (says "done") ∷ []) []

call_llm-attempts_example :
    let (r, p, made) = attempts toy_agent (request_for toy_agent [] [] []) 2 none flaky.provider in
    (call_llm_with_retry toy_agent [] [] [] flaky
      ≡ (r, record flaky { provider = p; delays = doubled_from 500 made }))
    × (made ≤ 2)
call_llm-attempts_example = call_llm-attempts toy_agent [] [] [] flaky

all_settled-alone_example :
    all_settled toy_agent (1 ∷ []) (call "x" "count" ∷ call "y" "nothing" ∷ []) busy.store
    ≡ (alone toy_agent busy.store (call "x" "count" ∷ call "y" "nothing" ∷ []), busy.store)
unfolding program
all_settled-alone_example =
    all_settled-alone toy_agent busy.store (1 ∷ []) (call "x" "count" ∷ call "y" "nothing" ∷ [])
      (refl, (refl, tt))

run_loop-iterations_example : (0 ≤ 2) × (2 ≤ 3)
unfolding program
run_loop-iterations_example =
    run_loop-iterations toy_agent "c" [] (run_of []) busy (omega arith) refl

loop-unrolls_example :
    let while_loop : Run → World Memory Script → Result ChatResponse × World Memory Script =
      λ run. loop toy_agent "c" (3 - run.acc.iterations) [] 0 run in
    (loop toy_agent "c" 7 [] 0 (run_of []) busy ≡ while_loop (run_of []) busy)
    × (while_loop (run_of []) busy
        ≡ (if ltb 0 3
              then round toy_agent "c" [] 0 (run_of []) >>= continue_with while_loop
              else exhausted toy_agent "c" (run_of []))
            busy)
loop-unrolls_example = loop-unrolls toy_agent "c" 7 [] 0 (run_of []) busy (omega arith)
