-- ===== src/Conversation/Tenants.antt =====
-- The table of conversations in a request: every operation stays with the tenant's own rows.
use agentdesk_nestjs.Base.{
  ◌≡◌, ◌≢◌, refl, ap, List, Option, none, some, String, units, str_eq, Result, ok, raise, proceed,
  pure, Bool-cases, inl, inr,
}
use agentdesk_nestjs.Json.{Fields, get_field}
use agentdesk_nestjs.Llm.{ChatMessage}
use agentdesk_nestjs.Tenancy.{
  TenantContext, OperationArgs, active_tenant, get_tenant_id, scope_operation, apply_tenant_scope,
  scoped_as, all_operations, stamp_clause, stamp_create, missing_tenant,
}
use agentdesk_nestjs.Tenancy.Isolation.{stamp-Names}
use agentdesk_nestjs.Tenancy.Database.{text_ne, QueryResult, nothing, one, many, Database, foreign}
use agentdesk_nestjs.Tenancy.Confinement.{
  Client, Isolated, Untouched, Owns, create-Isolated, find_first-Isolated, update-Isolated,
}
use agentdesk_nestjs.Tickets.Conditions.{textual-by_id}
use agentdesk_nestjs.Conversation.{ConversationStatus}
use agentdesk_nestjs.Conversation.Rows.{
  with_messages, with_status, conversation_query, written_row, found_row, find_first, create_row,
  update_row,
}

module _ {S : Type 0} (query : Client S) (rows : String → S → List Fields)
    (db : Database query rows) (context : TenantContext) where
  -- The client in a request is the base client on stamped arguments, or it throws.
  pub in_context :
      (X : Result QueryResult × S → Type 0) (operation : String) (args : OperationArgs) (s : S)
      → X (raise missing_tenant, s)
      → X (query "Conversation" operation (scope_operation operation args context.tenant_id) s)
      → X (conversation_query query (some context) operation args s)
  unfolding all_operations active_tenant get_tenant_id scoped_as apply_tenant_scope
  in_context X operation args s refused scoped = elim (Bool-cases (str_eq context.tenant_id "")) [
    | inl empty ↦ rw empty refused
    | inr there ↦ rw there scoped
  ]

  -- The rows of the other tenants and all other tables are as before.
  abbrev pub Stays : S → S → Type 0
  Stays s t =
      (foreign context.tenant_id (rows "Conversation" t)
        ≡ foreign context.tenant_id (rows "Conversation" s))
      × ((m : String) → m ≢ "Conversation" → rows m t ≡ rows m s)

  Stays-written :
      (s : S) (x : Result QueryResult × S)
      → Isolated query rows "Conversation" context.tenant_id s x
      → Stays s (proceed x.0 x.1 (written_row query (some context))).1
  Stays-written s (ok nothing, t) (others, tables, _) = (others, tables)
  Stays-written s (ok (one f), t) (others, tables, _) = (others, tables)
  Stays-written s (ok (many fs), t) (others, tables, _) = (others, tables)
  Stays-written s (raise e, t) (others, tables, _) = (others, tables)

  data_untouched :
      (ms : Option (List ChatMessage)) (status : Option ConversationStatus)
      → get_field "tenantId" (with_messages ms (with_status status)) ≡ none
  data_untouched none none = refl
  data_untouched none (some status) = refl
  data_untouched (some ms) none = refl
  data_untouched (some ms) (some status) = refl

  pub create_row-Stays :
      (tenant_id user_id : Option String) (ms : List ChatMessage) (status : ConversationStatus)
      (s : S)
      → Stays s (create_row query (some context) tenant_id user_id ms status s).1
  unfolding create_row scope_operation stamp_create
  create_row-Stays tenant_id user_id ms status s = Stays-written s _ (
      in_context (Isolated query rows "Conversation" context.tenant_id s) "create" _ s
        (refl, (λ m _. refl), tt)
        (create-Isolated query rows "Conversation" context.tenant_id db _ _ s refl
          (stamp-Names context.tenant_id _)))

  pub update_row-Stays :
      (id : String) (ms : Option (List ChatMessage)) (status : Option ConversationStatus) (s : S)
      → Stays s (update_row query (some context) id ms status s).1
  unfolding update_row scope_operation stamp_clause
  update_row-Stays id ms status s = Stays-written s _ (
      in_context (Isolated query rows "Conversation" context.tenant_id s) "update" _ s
        (refl, (λ m _. refl), tt)
        (update-Isolated query rows "Conversation" context.tenant_id db _ _ _ s
          (text_ne "Conversation" "Tenant" refl, text_ne "Conversation" "User" refl) refl
          (textual-by_id context.tenant_id (units id)) refl (stamp-Names context.tenant_id _)
          (data_untouched ms status)))

  pub find_first-Stays : (id : String) (s : S) → Stays s (find_first query (some context) id s).1
  unfolding find_first scope_operation stamp_clause
  find_first-Stays id s = found _ (
      in_context
        (λ x.
          Untouched query rows "Conversation" context.tenant_id s x.1 × Owns context.tenant_id x.0)
        "findFirst" _ s (λ m. refl, tt)
        (find_first-Isolated query rows "Conversation" context.tenant_id db _ _ s refl
          (textual-by_id context.tenant_id (units id)) (stamp-Names context.tenant_id _)))
    where
      found :
          (x : Result QueryResult × S)
          → Untouched query rows "Conversation" context.tenant_id s x.1 × Owns context.tenant_id x.0
          → Stays s (proceed x.0 x.1 (λ r. pure (found_row query (some context) r))).1
      found (ok r, t) (same, _) =
          (ap (foreign context.tenant_id) (same "Conversation"), λ m _. same m)
      found (raise e, t) (same, _) =
          (ap (foreign context.tenant_id) (same "Conversation"), λ m _. same m)
