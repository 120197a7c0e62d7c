-- ===== src/Agent/Batch/Schedule.antt =====
-- The concurrent calls: the order in which they finish does not show.
use mathlib.Core.Path.{subst}
use agentdesk_nestjs.Base.{
  ℕ, zero, suc, ◌≡◌, refl, sym, ap, ◌∙◌, List, [], ◌∷◌, Option, none, some, All,
}
use agentdesk_nestjs.Llm.{LlmToolCall}
use agentdesk_nestjs.Agent.{AgentService}
use agentdesk_nestjs.Agent.Batch.{
  Slots, Settled, open_slots, settle, settle_at, settle_in, settle_rest, all_settled,
}

module _ {Schema S P : Type 0} (service : AgentService Schema S P) (s : S) where
  -- The call leaves the store as it is.
  abbrev pub Reads : LlmToolCall → Type 0
  Reads tc = (settle service tc s).1 ≡ s

  -- What each call gives when it runs alone.
  abbrev pub alone : List LlmToolCall → List (LlmToolCall × Settled)
  alone [] = []
  alone (tc ∷ tcs) = (tc, (settle service tc s).0) ∷ alone tcs

  -- A slot that is open, or holds what its call gives alone.
  abbrev Fair : LlmToolCall × Option Settled → Type 0
  Fair (tc, none) = Reads tc
  Fair (tc, some r) = Reads tc × (r ≡ (settle service tc s).0)

  abbrev expected : Slots → List (LlmToolCall × Settled)
  expected [] = []
  expected (slot ∷ slots) = (slot.0, (settle service slot.0 s).0) ∷ expected slots

  settle_at-Fair :
      (i : ℕ) (slots : Slots)
      → All Fair slots
      → ((settle_at service i slots s).1 ≡ s)
        × All Fair (settle_at service i slots s).0
        × (expected (settle_at service i slots s).0 ≡ expected slots)
  unfolding settle_at
  settle_at-Fair i [] fair = (refl, tt, refl)
  settle_at-Fair zero ((tc, none) ∷ slots) fair = (fair.0, ((fair.0, refl), fair.1), refl)
  settle_at-Fair zero ((tc, some r) ∷ slots) fair = (refl, fair, refl)
  settle_at-Fair (suc i) (slot ∷ slots) fair =
      let (same, later, e) = settle_at-Fair i slots fair.1 in
      (
        same,
        (fair.0, later),
        ap (λ (l : List (LlmToolCall × Settled)). (slot.0, (settle service slot.0 s).0) ∷ l) e,
      )

  -- The store is as before, and the slots are the same calls, each open or with its result.
  abbrev Kept : Slots → Slots × S → Type 0
  Kept slots (slots', t) = (t ≡ s) × All Fair slots' × (expected slots' ≡ expected slots)

  settle_in-Kept :
      (order : List ℕ) (slots : Slots)
      → All Fair slots
      → Kept slots (settle_in service order slots s)
  unfolding settle_in
  settle_in-Kept [] slots fair = (refl, fair, refl)
  settle_in-Kept (i ∷ order) slots fair =
      let (same, later, e) = settle_at-Fair i slots fair in
      let (same', later', e') = settle_in-Kept order (settle_at service i slots s).0 later in
      subst (λ t. Kept slots (settle_in service order (settle_at service i slots s).0 t)) (sym same)
        (same', later', e' ∙ e)

  settle_rest-Fair :
      (slots : Slots) → All Fair slots → settle_rest service slots s ≡ (expected slots, s)
  unfolding settle_rest
  settle_rest-Fair [] fair = refl
  settle_rest-Fair ((tc, some r) ∷ slots) fair = rw (settle_rest-Fair slots fair.1, fair.0.1)
  settle_rest-Fair ((tc, none) ∷ slots) fair = rw (fair.0, settle_rest-Fair slots fair.1)

  open_slots-Fair :
      (calls : List LlmToolCall)
      → All Reads calls
      → All Fair (open_slots calls) × (expected (open_slots calls) ≡ alone calls)
  open_slots-Fair [] reads = (tt, refl)
  open_slots-Fair (tc ∷ tcs) reads =
      let (fair, e) = open_slots-Fair tcs reads.1 in
      (
        (reads.0, fair),
        ap (λ (l : List (LlmToolCall × Settled)). (tc, (settle service tc s).0) ∷ l) e,
      )

  -- If each of the calls leaves the store as it is, then in whatever order they finish the results
  -- are those of the calls run alone, in the order of the calls, and the store is unchanged.
  pub all_settled-alone :
      (order : List ℕ) (calls : List LlmToolCall)
      → All Reads calls
      → all_settled service order calls s ≡ (alone calls, s)
  unfolding all_settled
  all_settled-alone order calls reads =
      let (fair, e) = open_slots-Fair calls reads in
      let (slots, t) = settle_in service order (open_slots calls) s in
      let (same, later, e') = settle_in-Kept order (open_slots calls) fair in
      subst (λ x. settle_rest service slots x ≡ (alone calls, s)) (sym same)
        (settle_rest-Fair slots later ∙ ap (λ (l : List (LlmToolCall × Settled)). (l, s)) (e' ∙ e))
