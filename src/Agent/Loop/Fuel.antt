-- ===== src/Agent/Loop/Fuel.antt =====
-- The bound on the loop's rounds is enough: with it, the loop is the source's `while` loop.
use agentdesk_nestjs.Base.{
  ℕ, zero, suc, ◌+◌, ◌-◌, ◌≤◌, ◌≡◌, refl, ◌∙◌, Action, false, String, Text, Result, ok, raise,
  ◌>>=◌, proceed, arith, if◌then◌else◌, Bool-cases, inl, inr, ltb,
}
use agentdesk_nestjs.Agent.{World, AgentService, Run, ChatResponse}
use agentdesk_nestjs.Agent.Loop.{Outcome, finished, again, round, exhausted, continue_with, loop}
use agentdesk_nestjs.Agent.Loop.Bounds.{Counts, round-Counts}

module _ {Schema S P : Type 0} (service : AgentService Schema S P) (cid : String) where
  -- The bound leaves room for all the iterations that the run may still make.
  abbrev Enough : ℕ → Run → Type 0
  Enough fuel run = service.budget.max_iterations ≤ run.acc.iterations + fuel

  -- What follows a round need agree only on runs with one more iteration.
  rest-agrees :
      (system : Text) (start : ℕ) (run : Run) (w : World S P)
      {f g : Run → Action (World S P) ChatResponse}
      → ((next : Run) (u : World S P)
          → next.acc.iterations ≡ suc run.acc.iterations
          → f next u ≡ g next u)
      → (round service cid system start run >>= continue_with f) w
        ≡ (round service cid system start run >>= continue_with g) w
  rest-agrees system start run w {f} {g} same =
      go (round service cid system start run w).0 (round service cid system start run w).1
        (λ outcome e. round-Counts service cid system start run w outcome e) refl
    where
      go :
          (r : Result Outcome) (u : World S P)
          → ((outcome : Outcome)
              → round service cid system start run w ≡ (ok outcome, u)
              → Counts run.acc.iterations outcome)
          → round service cid system start run w ≡ (r, u)
          → proceed r u (continue_with f) ≡ proceed r u (continue_with g)
      go (raise x) u counts e = refl
      go (ok (finished response)) u counts e = refl
      go (ok (again next)) u counts e = same next u (counts (again next) e)

  loop-agrees :
      (fuel fuel' : ℕ) (system : Text) (start : ℕ) (run : Run) (w : World S P)
      → Enough fuel run
      → Enough fuel' run
      → loop service cid fuel system start run w ≡ loop service cid fuel' system start run w
  unfolding loop
  loop-agrees zero zero system start run w enough enough' = refl
  loop-agrees zero (suc fuel') system start run w enough enough' =
      let over : ltb run.acc.iterations service.budget.max_iterations ≡ false = ground arith in
      rw over
  loop-agrees (suc fuel) zero system start run w enough enough' =
      let over : ltb run.acc.iterations service.budget.max_iterations ≡ false = ground arith in
      rw over
  loop-agrees (suc fuel) (suc fuel') system start run w enough enough' =
      let same = rest-agrees system start run w (λ next u counted.
        loop-agrees fuel fuel' system start next u (omega arith) (omega arith)) in
      elim (Bool-cases (ltb run.acc.iterations service.budget.max_iterations)) [
        | inl more ↦ rw more same
        | inr over ↦ rw over
      ]

  -- The loop with the bound that `runLoop` gives it is the `while` loop of the source: it makes a
  -- round as long as the iterations are below the limit, goes on in the same way from the run that
  -- the round leaves, and otherwise ends as exhausted. Any larger bound gives the same.
  pub loop-unrolls :
      (fuel : ℕ) (system : Text) (start : ℕ) (run : Run) (w : World S P)
      → service.budget.max_iterations - run.acc.iterations ≤ fuel
      → let while_loop : Run → World S P → Result ChatResponse × World S P = λ run.
        loop service cid (service.budget.max_iterations - run.acc.iterations) system start run in
        (loop service cid fuel system start run w ≡ while_loop run w)
        × (while_loop run w
            ≡ (if ltb run.acc.iterations service.budget.max_iterations
                  then round service cid system start run >>= continue_with while_loop
                  else exhausted service cid run)
                w)
  unfolding loop
  loop-unrolls fuel system start run w enough = (
    loop-agrees fuel (service.budget.max_iterations - run.acc.iterations) system start run w
        (omega arith) (omega arith),
    unrolled,
  )
    where
      while_loop : Run → World S P → Result ChatResponse × World S P
      while_loop run =
          loop service cid (service.budget.max_iterations - run.acc.iterations) system start run

      unrolled :
          while_loop run w
          ≡ (if ltb run.acc.iterations service.budget.max_iterations
                then round service cid system start run >>= continue_with while_loop
                else exhausted service cid run)
              w
      unrolled = elim (Bool-cases (ltb run.acc.iterations service.budget.max_iterations)) [
        | inl more ↦
            loop-agrees (service.budget.max_iterations - run.acc.iterations)
              (suc (service.budget.max_iterations - run.acc.iterations)) system start run w
              (omega arith) (omega arith)
            ∙ rw more (
                rest-agrees system start run w (λ next u counted.
                  loop-agrees (service.budget.max_iterations - run.acc.iterations)
                    (service.budget.max_iterations - next.acc.iterations) system start next u
                    (omega arith) (omega arith)))
        | inr over ↦
            loop-agrees (service.budget.max_iterations - run.acc.iterations) 0 system start run w
              (omega arith) (ground arith)
            ∙ rw over
      ]
