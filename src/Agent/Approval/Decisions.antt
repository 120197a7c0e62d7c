-- ===== src/Agent/Approval/Decisions.antt =====
-- The decisions of an approval: which lists of them are accepted, and what they decide.
use agentdesk_nestjs.Base.{
  ◌≡◌, ◌≢◌, refl, ◌↔◌, Bool, true, false, List, [], ◌∷◌, String, eq_iff, Dict, lookup, insert, has,
  lookup-insert, All, Result, ok, raise, and_then, and_then-eq-ok, arith, if◌then◌else◌,
}
use agentdesk_nestjs.Llm.{LlmToolCall}
use agentdesk_nestjs.Agent.Approval.{
  ApproveDecision, decide, is_pending, check_flow, effective, pending_calls, review,
  nothing_pending,
}
use agentdesk_nestjs.Agent.Loop.{is_empty}
use agentdesk_nestjs.Llm.{ChatMessage}
use agentdesk_nestjs.Tools.{Registry}

-- The map that the loop fills.
unfoldable pub filled : Dict Bool → List ApproveDecision → Dict Bool
filled by_id [] = by_id
filled by_id (d ∷ decisions) = filled (insert d.tool_call_id d.approved by_id) decisions

-- No two decisions name the same call.
abbrev pub Distinct : List ApproveDecision → Type 0
Distinct [] = Unit
Distinct (d ∷ decisions) =
    All (λ (e : ApproveDecision). e.tool_call_id ≢ d.tool_call_id) decisions × Distinct decisions

abbrev pub IsPending : List LlmToolCall → ApproveDecision → Type 0
IsPending pending d = is_pending pending d.tool_call_id ≡ true

-- None of the decisions names an id that is decided already.
abbrev pub Undecided : Dict Bool → List ApproveDecision → Type 0
Undecided by_id = All (λ (d : ApproveDecision). has d.tool_call_id by_id ≡ false)

-- One round of an accepted list.
pub decide_step :
    (pending : List LlmToolCall) (by_id : Dict Bool) (d : ApproveDecision)
    (decisions : List ApproveDecision) {result : Dict Bool}
    → decide pending by_id (d ∷ decisions) ≡ ok result
    → (has d.tool_call_id by_id ≡ false)
      × (is_pending pending d.tool_call_id ≡ true)
      × (decide pending (insert d.tool_call_id d.approved by_id) decisions ≡ ok result)
unfolding decide
decide_step pending by_id d decisions e = ground arith

Undecided-insert :
    (k : String) (v : Bool) (by_id : Dict Bool) (decisions : List ApproveDecision)
    → Undecided (insert k v by_id) decisions
    → Undecided by_id decisions × All (λ (e : ApproveDecision). e.tool_call_id ≢ k) decisions
Undecided-insert k v by_id [] h = (tt, tt)
Undecided-insert k v by_id (d ∷ decisions) h = ground (
  arith,
  lookup-insert k d.tool_call_id v by_id,
  eq_iff k d.tool_call_id,
  Undecided-insert k v by_id decisions h.1,
)

pub Undecided-insert_ne :
    (k : String) (v : Bool) (by_id : Dict Bool) (decisions : List ApproveDecision)
    → Undecided by_id decisions
    → All (λ (e : ApproveDecision). e.tool_call_id ≢ k) decisions
    → Undecided (insert k v by_id) decisions
Undecided-insert_ne k v by_id [] h ne = tt
Undecided-insert_ne k v by_id (d ∷ decisions) h ne = ground (
  arith,
  lookup-insert k d.tool_call_id v by_id,
  eq_iff k d.tool_call_id,
  Undecided-insert_ne k v by_id decisions h.1 ne.1,
)

decide_sound :
    (pending : List LlmToolCall) (by_id : Dict Bool) (decisions : List ApproveDecision)
    {result : Dict Bool}
    → decide pending by_id decisions ≡ ok result
    → Undecided by_id decisions
      × Distinct decisions
      × All (IsPending pending) decisions
      × (result ≡ filled by_id decisions)
unfolding filled
decide_sound pending by_id [] e = unfold decide in (tt, tt, tt, cc)
decide_sound pending by_id (d ∷ decisions) e =
    let (new, known, later) = decide_step pending by_id d decisions e in
    let (undecided, distinct, all_known, same) =
      decide_sound pending (insert d.tool_call_id d.approved by_id) decisions later in
    let (rest, apart) = Undecided-insert d.tool_call_id d.approved by_id decisions undecided in
    ((new, rest), (apart, distinct), (known, all_known), same)

decide_complete :
    (pending : List LlmToolCall) (by_id : Dict Bool) (decisions : List ApproveDecision)
    → Undecided by_id decisions
    → Distinct decisions
    → All (IsPending pending) decisions
    → decide pending by_id decisions ≡ ok (filled by_id decisions)
unfolding filled decide
decide_complete pending by_id [] undecided distinct known = refl
decide_complete pending by_id (d ∷ decisions) undecided distinct known = ground (
  arith,
  decide_complete pending (insert d.tool_call_id d.approved by_id) decisions
      (Undecided-insert_ne d.tool_call_id d.approved by_id decisions undecided.1 distinct.0)
      distinct.1 known.1,
)

pub Undecided-nil : (decisions : List ApproveDecision) → Undecided [] decisions
unfolding lookup
Undecided-nil [] = tt
Undecided-nil (d ∷ decisions) = (refl, Undecided-nil decisions)

-- The decisions are accepted exactly when no two name the same call and each names a pending call;
-- any accepted result is the map of the decisions.
pub decide_iff :
    (pending : List LlmToolCall) (decisions : List ApproveDecision) (result : Dict Bool)
    → (decide pending [] decisions ≡ ok result)
      ↔ (Distinct decisions × All (IsPending pending) decisions × (result ≡ filled [] decisions))
decide_iff pending decisions result = (
  (λ e.
      let (_, distinct, known, same) = decide_sound pending [] decisions e in
      (distinct, known, same)),
  (λ h. rw h.2 (decide_complete pending [] decisions (Undecided-nil decisions) h.0 h.1)),
)

-- An accepted approval: something is pending, the decisions are accepted, every pending call is of
-- the approval flow, and each pending call comes with its decision.
pub review-eq-ok :
    {Schema S : Type 0} (tools : Registry Schema S) (messages : List ChatMessage)
    (decisions : List ApproveDecision) (decided : List (LlmToolCall × Bool))
    → review tools messages decisions ≡ ok decided
    → (by_id : Dict Bool) × (decide (pending_calls messages) [] decisions ≡ ok by_id)
      × (check_flow tools (pending_calls messages) ≡ ok tt)
      × (decided ≡ effective by_id (pending_calls messages))
unfolding review
review-eq-ok tools messages decisions decided e =
    let pending = pending_calls messages in
    let (by_id, accepted, rest) =
      and_then-eq-ok (decide pending [] decisions)
        (λ by_id. and_then (check_flow tools pending) λ _. ok (effective by_id pending))
        (some_pending e) in
    let (u, flow, same) =
      and_then-eq-ok (check_flow tools pending) (λ _. ok (effective by_id pending)) rest in
    (by_id, accepted, flow, cc same)
  where
    some_pending :
        {r : Result (List (LlmToolCall × Bool))}
        → (if is_empty (pending_calls messages) then raise nothing_pending else r) ≡ ok decided
        → r ≡ ok decided
    some_pending h = ground arith
