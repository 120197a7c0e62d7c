-- ===== src/Agent/History.antt =====
-- What the calls of a response leave in a run: an answer for each call, in order.
pub mod Pairing
pub mod Rounds
pub mod Runs
pub mod Resumption
pub mod Pauses
use mathlib.Core.Path.{ap₂}
use agentdesk_nestjs.Base.{
  ℕ, zero, suc, ◌≡◌, refl, sym, ap, ◌∙◌, List, [], ◌∷◌, ◌++◌, append-nil, append_assoc, none, some,
  String, ok, ◌>>=◌, >>=-eq-ok, ok-injective, map, map-append,
}
use agentdesk_nestjs.Llm.{LlmToolCall, ChatMessage}
use agentdesk_nestjs.Tools.{ToolResult, payload}
use agentdesk_nestjs.Agent.{
  World, AgentService, Run, ToolCallResult, record_answer, tool_message, result_entry, on_store,
}
use agentdesk_nestjs.Agent.Batch.{
  Buckets, Slots, Settled, open_slots, result_of, settle, settle_at, settle_in, settle_rest,
  all_settled, record_settled, run_call, execute_read_only, execute_mutating,
}
use agentdesk_nestjs.Agent.Loop.{Outcome, act, pause_or_go_on}

-- Calls with their results.
abbrev pub Answers : Type 0
Answers = List (LlmToolCall × ToolResult)

abbrev pub calls_in : {A : Type 0} → List (LlmToolCall × A) → List LlmToolCall
calls_in = map (λ e. e.0)

abbrev pub messages_in : Answers → List ChatMessage
messages_in = map (λ e. tool_message e.0 (payload e.1))

abbrev pub entries_in : Answers → List ToolCallResult
entries_in = map (λ e. result_entry e.0 e.1)

-- A run with answers added at the end of its history and of its accumulators.
abbrev pub extend : Answers → Run → Run
extend answers run = record {
  messages = run.messages ++ messages_in answers;
  acc = record (run.acc) {
    tool_calls = run.acc.tool_calls ++ calls_in answers;
    tool_results = run.acc.tool_results ++ entries_in answers;
  };
}

pub extend-nil : (run : Run) → extend [] run ≡ run
extend-nil run = simp append-nil

pub extend-record_answer :
    (tc : LlmToolCall) (result : ToolResult) (answers : Answers) (run : Run)
    → extend answers (record_answer tc result run) ≡ extend ((tc, result) ∷ answers) run
unfolding record_answer
extend-record_answer tc result answers run = simp append_assoc

pub extend-extend :
    (answers more : Answers) (run : Run)
    → extend more (extend answers run) ≡ extend (answers ++ more) run
extend-extend answers more run = simp (append_assoc, map-append)

record_settled-extend :
    (results : List (LlmToolCall × Settled)) (run : Run)
    → (answers : Answers) × (calls_in answers ≡ calls_in results)
      × (record_settled results run ≡ extend answers run)
unfolding record_settled
record_settled-extend [] run = ([], refl, sym (extend-nil run))
record_settled-extend ((tc, r) ∷ results) run =
    let (answers, same, e) = record_settled-extend results (record_answer tc (result_of r) run) in
    (
      (tc, result_of r) ∷ answers,
      ap (λ (l : List LlmToolCall). tc ∷ l) same,
      e ∙ extend-record_answer tc (result_of r) answers run,
    )

module _ {Schema S P : Type 0} (service : AgentService Schema S P) where
  settle_at-calls :
      (i : ℕ) (slots : Slots) (s : S) → calls_in (settle_at service i slots s).0 ≡ calls_in slots
  unfolding settle_at
  settle_at-calls i [] s = refl
  settle_at-calls zero ((tc, none) ∷ slots) s = refl
  settle_at-calls zero ((tc, some r) ∷ slots) s = refl
  settle_at-calls (suc i) (slot ∷ slots) s =
      ap (λ (l : List LlmToolCall). slot.0 ∷ l) (settle_at-calls i slots s)

  settle_in-calls :
      (order : List ℕ) (slots : Slots) (s : S)
      → calls_in (settle_in service order slots s).0 ≡ calls_in slots
  unfolding settle_in
  settle_in-calls [] slots s = refl
  settle_in-calls (i ∷ order) slots s =
      settle_in-calls order (settle_at service i slots s).0 (settle_at service i slots s).1
      ∙ settle_at-calls i slots s

  settle_rest-calls :
      (slots : Slots) (s : S) → calls_in (settle_rest service slots s).0 ≡ calls_in slots
  unfolding settle_rest
  settle_rest-calls [] s = refl
  settle_rest-calls ((tc, some r) ∷ slots) s =
      ap (λ (l : List LlmToolCall). tc ∷ l) (settle_rest-calls slots s)
  settle_rest-calls ((tc, none) ∷ slots) s =
      ap (λ (l : List LlmToolCall). tc ∷ l) (settle_rest-calls slots (settle service tc s).1)

  open_slots-calls : (calls : List LlmToolCall) → calls_in (open_slots calls) ≡ calls
  open_slots-calls [] = refl
  open_slots-calls (tc ∷ tcs) = ap (λ (l : List LlmToolCall). tc ∷ l) (open_slots-calls tcs)

  -- The results stand in the order of the calls, whatever the order in which they finish.
  pub all_settled-calls :
      (order : List ℕ) (calls : List LlmToolCall) (s : S)
      → calls_in (all_settled service order calls s).0 ≡ calls
  unfolding all_settled
  all_settled-calls order calls s =
      settle_rest-calls _ _ ∙ settle_in-calls order (open_slots calls) s ∙ open_slots-calls calls

  -- What a successful batch leaves behind: an answer for each of its calls.
  abbrev pub Answered : List LlmToolCall → Run → Run → Type 0
  Answered calls run run' =
      (answers : Answers) × (calls_in answers ≡ calls) × (run' ≡ extend answers run)

  execute_read_only-Answered :
      (order : List ℕ) (calls : List LlmToolCall) (run : Run) (w : World S P) {run' : Run}
      {w' : World S P}
      → execute_read_only service order calls run w ≡ (ok run', w')
      → Answered calls run run'
  unfolding execute_read_only
  execute_read_only-Answered order [] run w e =
      ([], refl, sym (ok-injective e) ∙ sym (extend-nil run))
  execute_read_only-Answered order (tc ∷ tcs) run w e =
      let (answers, same, r) =
        record_settled-extend (all_settled service order (tc ∷ tcs) w.store).0 run in
      (answers, same ∙ all_settled-calls order (tc ∷ tcs) w.store, sym (ok-injective e) ∙ r)

  execute_mutating-Answered :
      (calls : List LlmToolCall) (run : Run) (w : World S P) {run' : Run} {w' : World S P}
      → execute_mutating service calls run w ≡ (ok run', w')
      → Answered calls run run'
  unfolding execute_mutating
  execute_mutating-Answered [] run w e = ([], refl, sym (ok-injective e) ∙ sym (extend-nil run))
  execute_mutating-Answered (tc ∷ tcs) run w e =
      let (result, u, _, rest) = >>=-eq-ok (on_store (run_call service tc)) _ w e in
      let (answers, same, r) = execute_mutating-Answered tcs (record_answer tc result run) u rest in
      (
        (tc, result) ∷ answers,
        ap (λ (l : List LlmToolCall). tc ∷ l) same,
        r ∙ extend-record_answer tc result answers run,
      )

  -- A response's calls, once they ran: every safe call has its answer, and what follows is the
  -- pause or the next round.
  pub act-Answered :
      (cid : String) (b : Buckets) (run : Run) (w : World S P) {outcome : Outcome} {w' : World S P}
      → act service cid b run w ≡ (ok outcome, w')
      → (answers : Answers) × (u : World S P) × (calls_in answers ≡ b.read_only ++ b.mutating)
        × (pause_or_go_on service cid b.needs_approval (extend answers run) u ≡ (ok outcome, w'))
  unfolding act
  act-Answered cid b run w e =
      let (run₁, u, first, rest) =
        >>=-eq-ok (execute_read_only service (service.completes run.acc.iterations) b.read_only run)
          (λ run₁.
            execute_mutating service b.mutating run₁
            >>= pause_or_go_on service cid b.needs_approval)
          w e in
      let (run₂, v, second, last) =
        >>=-eq-ok (execute_mutating service b.mutating run₁)
          (pause_or_go_on service cid b.needs_approval) u rest in
      let (reads, same₁, r₁) =
        execute_read_only-Answered (service.completes run.acc.iterations) b.read_only run w first in
      let (writes, same₂, r₂) = execute_mutating-Answered b.mutating run₁ u second in
      (
        reads ++ writes,
        v,
        map-append _ reads writes ∙ ap₂ (λ (x y : List LlmToolCall). x ++ y) same₁ same₂,
        rw (← reached run₁ run₂ reads writes r₁ r₂) last,
      )
    where
      reached :
          (run₁ run₂ : Run) (reads writes : Answers)
          → run₁ ≡ extend reads run
          → run₂ ≡ extend writes run₁
          → run₂ ≡ extend (reads ++ writes) run
      reached run₁ run₂ reads writes r₁ r₂ =
          r₂ ∙ ap (extend writes) r₁ ∙ extend-extend reads writes run
