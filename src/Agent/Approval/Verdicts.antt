-- ===== src/Agent/Approval/Verdicts.antt =====
-- What an approval does, told by the decisions alone: which lists are accepted, what they execute,
-- and what every other list meets.
use agentdesk_nestjs.Base.{
  ◌≡◌, ◌≢◌, refl, sym, ap, ◌∙◌, inl, inr, Bool, true, false, ◌||◌, ◌&&◌, List, [], ◌∷◌, map, any,
  All, In, Option, none, some, String, Dict, lookup, insert, lookup-insert, str_eq, eq_iff, ok,
  raise, Bool-cases, arith,
}
use agentdesk_nestjs.Llm.{LlmToolCall, ChatMessage}
use agentdesk_nestjs.Tools.{Tool, Registry, get_tool}
use agentdesk_nestjs.Agent.Approval.{
  ApproveDecision, pending_calls, decide, is_pending, check_flow, is_approved, effective, review,
  nothing_pending,
}
use agentdesk_nestjs.Agent.Approval.Decisions.{
  Distinct, IsPending, Undecided, Undecided-insert_ne, filled, decide_iff, Undecided-nil,
  review-eq-ok,
}
use agentdesk_nestjs.Agent.Batch.{approval_flag}
use agentdesk_nestjs.Agent.History.{calls_in}
use agentdesk_nestjs.Agent.Loop.{is_empty}

-- A decision approves the call.
abbrev pub approves : List ApproveDecision → LlmToolCall → Bool
approves decisions tc =
    any (λ (d : ApproveDecision). str_eq d.tool_call_id tc.id && d.approved) decisions

-- Each call with what the decisions say of it.
abbrev pub verdicts : List ApproveDecision → List LlmToolCall → List (LlmToolCall × Bool)
verdicts decisions [] = []
verdicts decisions (tc ∷ tcs) = (tc, approves decisions tc) ∷ verdicts decisions tcs

pub verdicts-calls :
    (decisions : List ApproveDecision) (calls : List LlmToolCall)
    → calls_in (verdicts decisions calls) ≡ calls
verdicts-calls decisions [] = refl
verdicts-calls decisions (tc ∷ tcs) =
    ap (λ (l : List LlmToolCall). tc ∷ l) (verdicts-calls decisions tcs)

-- The registry has the tool of the call, which needs approval.
abbrev pub IsGated : {Schema S : Type 0} → Registry Schema S → LlmToolCall → Type 0
IsGated {Schema} {S} tools tc =
    (tool : Tool Schema S) × (get_tool tc.name tools ≡ some tool) × (tool.requires_approval ≡ true)

-- The decision names one of the calls.
abbrev pub Names : List LlmToolCall → ApproveDecision → Type 0
Names calls d = In d.tool_call_id (map (λ (tc : LlmToolCall). tc.id) calls)

-- Something is pending, every decision names a pending call, no two the same, and every pending call
-- is of a tool that needs approval.
abbrev pub Acceptable :
    {Schema S : Type 0} → Registry Schema S → List LlmToolCall → List ApproveDecision → Type 0
Acceptable tools pending decisions =
    (pending ≢ [])
    × Distinct decisions
    × All (Names pending) decisions
    × All (IsGated tools) pending

abbrev is_yes : Option Bool → Bool
is_yes none = false
is_yes (some b) = b

-- The map of decisions says of a call what the decisions say.
filled-approves :
    (tc : LlmToolCall) (by_id : Dict Bool) (decisions : List ApproveDecision)
    → Undecided by_id decisions
    → Distinct decisions
    → is_yes (lookup tc.id (filled by_id decisions))
      ≡ is_yes (lookup tc.id by_id) || approves decisions tc
unfolding filled
filled-approves tc by_id [] new distinct = go (is_yes (lookup tc.id by_id))
  where
    go : (b : Bool) → b ≡ b || false
    go true = refl
    go false = refl
filled-approves tc by_id (d ∷ decisions) new distinct =
    filled-approves tc (insert d.tool_call_id d.approved by_id) decisions
      (Undecided-insert_ne d.tool_call_id d.approved by_id decisions new.1 distinct.0) distinct.1
    ∙ elim (Bool-cases (str_eq d.tool_call_id tc.id)) [
      | inl same ↦
          let none_yet : lookup tc.id by_id ≡ none =
            ground (arith, new.0, eq_iff d.tool_call_id tc.id) in
          let now : lookup tc.id (insert d.tool_call_id d.approved by_id) ≡ some d.approved =
            ground (arith, lookup-insert d.tool_call_id tc.id d.approved by_id) in
          rw (same, none_yet, now) refl
      | inr other ↦
          let kept : lookup tc.id (insert d.tool_call_id d.approved by_id) ≡ lookup tc.id by_id =
            ground (arith, lookup-insert d.tool_call_id tc.id d.approved by_id) in
          rw (other, kept) refl
    ]

is_approved-filled :
    (decisions : List ApproveDecision) (tc : LlmToolCall)
    → Distinct decisions
    → is_approved (filled [] decisions) tc ≡ approves decisions tc
unfolding is_approved lookup
is_approved-filled decisions tc distinct =
    same (lookup tc.id (filled [] decisions))
    ∙ filled-approves tc [] decisions (Undecided-nil decisions) distinct
  where
    same : (o : Option Bool) → elim o [ none ↦ false | some approved ↦ approved ] ≡ is_yes o
    same none = refl
    same (some b) = refl

pub effective-verdicts :
    (decisions : List ApproveDecision) (calls : List LlmToolCall)
    → Distinct decisions
    → effective (filled [] decisions) calls ≡ verdicts decisions calls
effective-verdicts decisions [] distinct = refl
effective-verdicts decisions (tc ∷ tcs) distinct =
    rw (is_approved-filled decisions tc distinct, effective-verdicts decisions tcs distinct) refl

is_pending-In :
    (id : String) (calls : List LlmToolCall)
    → is_pending calls id ≡ true
    → In id (map (λ (tc : LlmToolCall). tc.id) calls)
is_pending-In id [] e = absurd (ground arith)
is_pending-In id (tc ∷ tcs) e = elim (Bool-cases (str_eq tc.id id)) [
  | inl same ↦ inl (sym ((eq_iff tc.id id).0 same))
  | inr other ↦ inr (is_pending-In id tcs (rw other at e))
]

In-is_pending :
    (id : String) (calls : List LlmToolCall)
    → In id (map (λ (tc : LlmToolCall). tc.id) calls)
    → is_pending calls id ≡ true
In-is_pending id [] h = elim h [ ]
In-is_pending id (tc ∷ tcs) (inl same) =
    let here : str_eq tc.id id ≡ true = (eq_iff tc.id id).1 (sym same) in rw here refl
In-is_pending id (tc ∷ tcs) (inr later) = ground (arith, In-is_pending id tcs later)

check_flow-IsGated :
    {Schema S : Type 0} (tools : Registry Schema S) (calls : List LlmToolCall)
    → check_flow tools calls ≡ ok tt
    → All (IsGated tools) calls
unfolding check_flow
check_flow-IsGated tools [] e = tt
check_flow-IsGated {Schema} {S} tools (tc ∷ tcs) e =
    go (get_tool tc.name tools) (check_flow-IsGated tools tcs) refl
  where
    go :
        (o : Option (Tool Schema S))
        → (check_flow tools tcs ≡ ok tt → All (IsGated tools) tcs)
        → get_tool tc.name tools ≡ o
        → IsGated tools tc × All (IsGated tools) tcs
    go none later missing = absurd (ground (arith, e, missing))
    go (some tool) later found =
        let flag : tool.requires_approval ≡ true = ground (arith, e, found) in
        let rest : check_flow tools tcs ≡ ok tt = ground (arith, e, found) in
        ((tool, found, flag), later rest)

gated-check_flow :
    {Schema S : Type 0} (tools : Registry Schema S) (calls : List LlmToolCall)
    → All (IsGated tools) calls
    → check_flow tools calls ≡ ok tt
unfolding check_flow
gated-check_flow tools [] h = refl
gated-check_flow tools (tc ∷ tcs) ((tool, found, gated), h) =
    let flag : approval_flag (get_tool tc.name tools) ≡ true = rw found gated in
    rw (flag, gated-check_flow tools tcs h) refl

pub All-IsPending :
    (calls : List LlmToolCall) (decisions : List ApproveDecision)
    → All (Names calls) decisions
    → All (IsPending calls) decisions
All-IsPending calls [] h = tt
All-IsPending calls (d ∷ decisions) h =
    (In-is_pending d.tool_call_id calls h.0, All-IsPending calls decisions h.1)

All-Names :
    (calls : List LlmToolCall) (decisions : List ApproveDecision)
    → All (IsPending calls) decisions
    → All (Names calls) decisions
All-Names calls [] h = tt
All-Names calls (d ∷ decisions) h =
    (is_pending-In d.tool_call_id calls h.0, All-Names calls decisions h.1)

-- An acceptable list is accepted, and decides what its decisions say.
pub review-Acceptable :
    {Schema S : Type 0} (tools : Registry Schema S) (messages : List ChatMessage)
    (decisions : List ApproveDecision)
    → Acceptable tools (pending_calls messages) decisions
    → review tools messages decisions ≡ ok (verdicts decisions (pending_calls messages))
unfolding review
review-Acceptable tools messages decisions (some_pending, distinct, named, gated) =
    let pending = pending_calls messages in
    let decided : decide pending [] decisions ≡ ok (filled [] decisions) =
      (decide_iff pending decisions (filled [] decisions)).1
        (distinct, All-IsPending pending decisions named, refl) in
    let more : is_empty pending ≡ false = not_empty pending some_pending in
    rw (more, decided, gated-check_flow tools pending gated)
      (ap (λ (l : List (LlmToolCall × Bool)). ok l) (effective-verdicts decisions pending distinct))
  where
    not_empty : (calls : List LlmToolCall) → calls ≢ [] → is_empty calls ≡ false
    not_empty [] h = elim (h refl) [ ]
    not_empty (tc ∷ tcs) h = refl

-- Only an acceptable list is accepted.
pub Acceptable-review :
    {Schema S : Type 0} (tools : Registry Schema S) (messages : List ChatMessage)
    (decisions : List ApproveDecision) (decided : List (LlmToolCall × Bool))
    → review tools messages decisions ≡ ok decided
    → Acceptable tools (pending_calls messages) decisions
Acceptable-review tools messages decisions decided e =
    let (by_id, accepted, flow, _) = review-eq-ok tools messages decisions decided e in
    let (distinct, known, _) = (decide_iff (pending_calls messages) decisions by_id).0 accepted in
    (
      (λ none_left. cc (nothing none_left ∙ e)),
      distinct,
      All-Names (pending_calls messages) decisions known,
      check_flow-IsGated tools (pending_calls messages) flow,
    )
  where
    nothing : pending_calls messages ≡ [] → raise nothing_pending ≡ review tools messages decisions
    nothing none_left = unfold review in rw none_left refl
