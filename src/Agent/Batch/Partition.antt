-- ===== src/Agent/Batch/Partition.antt =====
-- The partition of the calls of a response.
use agentdesk_nestjs.Base.{
  ◌+◌, ◌≡◌, ◌∙◌, ap, Bool, ◌&&◌, not, List, [], ◌∷◌, ◌++◌, append-nil, append_assoc, length, select,
  arith, Bool-cases, inl, inr,
}
use agentdesk_nestjs.Llm.{LlmToolCall}
use agentdesk_nestjs.Tools.{Registry, get_tool}
use agentdesk_nestjs.Agent.Batch.{
  Buckets, approval_flag, mutating_flag, sort_call, partition_from, partition, no_calls,
}

module _ {Schema S : Type 0} (tools : Registry Schema S) where
  -- The flags of the tool that a call names; a call of no known tool has neither.
  abbrev pub wants_approval : LlmToolCall → Bool
  wants_approval tc = approval_flag (get_tool tc.name tools)

  abbrev pub is_mutating : LlmToolCall → Bool
  is_mutating tc = not (wants_approval tc) && mutating_flag (get_tool tc.name tools)

  abbrev pub is_read_only : LlmToolCall → Bool
  is_read_only tc = not (wants_approval tc) && not (mutating_flag (get_tool tc.name tools))

  abbrev sorted : Buckets → List LlmToolCall → Buckets
  sorted b tcs = record {
    read_only = b.read_only ++ select is_read_only tcs;
    mutating = b.mutating ++ select is_mutating tcs;
    needs_approval = b.needs_approval ++ select wants_approval tcs;
  }

  -- One round of the loop puts its call at the end of one bucket.
  sort_call-sorted :
      (b : Buckets) (tc : LlmToolCall) (tcs : List LlmToolCall)
      → sorted (sort_call tools tc b) tcs ≡ sorted b (tc ∷ tcs)
  unfolding sort_call
  sort_call-sorted b tc tcs = elim (Bool-cases (approval_flag (get_tool tc.name tools))) [
    | inl p ↦ simp (p, append_assoc)
    | inr p ↦ elim (Bool-cases (mutating_flag (get_tool tc.name tools))) [
      | inl q ↦ simp (p, q, append_assoc)
      | inr q ↦ simp (p, q, append_assoc)
    ]
  ]

  partition_from-sorted :
      (b : Buckets) (tcs : List LlmToolCall) → partition_from tools b tcs ≡ sorted b tcs
  unfolding partition_from
  partition_from-sorted b [] = simp append-nil
  partition_from-sorted b (tc ∷ tcs) =
      partition_from-sorted (sort_call tools tc b) tcs ∙ sort_call-sorted b tc tcs

  -- The loop splits the calls of a response, in their order, into the calls of tools that need
  -- approval, those of the other mutating tools, and the rest, calls of unknown tools included.
  pub partition-select :
      (tcs : List LlmToolCall)
      → (partition tools tcs).needs_approval ≡ select wants_approval tcs
        × (partition tools tcs).mutating ≡ select is_mutating tcs
        × (partition tools tcs).read_only ≡ select is_read_only tcs
  unfolding partition
  partition-select tcs =
      let e = partition_from-sorted no_calls tcs in
      (
        ap (λ (b : Buckets). b.needs_approval) e,
        ap (λ (b : Buckets). b.mutating) e,
        ap (λ (b : Buckets). b.read_only) e,
      )

  -- Every call lands in exactly one bucket.
  pub length-partition :
      (tcs : List LlmToolCall)
      → let b = partition tools tcs in
        length b.read_only + length b.mutating + length b.needs_approval ≡ length tcs
  length-partition tcs =
      rw ((partition-select tcs).0, (partition-select tcs).1, (partition-select tcs).2) (count tcs)
    where
      count :
          (tcs : List LlmToolCall)
          → length (select is_read_only tcs)
              + length (select is_mutating tcs)
              + length (select wants_approval tcs)
            ≡ length tcs
      count [] = omega arith
      count (tc ∷ tcs) = ground (arith, count tcs)
