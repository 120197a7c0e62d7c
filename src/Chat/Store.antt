-- ===== src/Chat/Store.antt =====
-- The agent of a request: its tools and its store stay with the rows of the request's tenant.
use agentdesk_nestjs.Base.{
  ◌≡◌, ◌≢◌, refl, ap, ◌∙◌, List, [], Option, none, some, String, Keeps, Keeps-bind,
}
use agentdesk_nestjs.Json.{Fields}
use agentdesk_nestjs.Tenancy.{TenantContext, get_tenant_id}
use agentdesk_nestjs.Tenancy.Database.{Database, foreign, text_ne}
use agentdesk_nestjs.Tenancy.Confinement.{Client}
use agentdesk_nestjs.Conversation.{active, Conversation}
use agentdesk_nestjs.Conversation.Service.{
  conversation_service, found_or_throw, find_conversation, create_conversation, update_messages_of,
}
use agentdesk_nestjs.Conversation.Rows.{conversation_table, find_first, create_row, update_row}
use agentdesk_nestjs.Conversation.Tenants.{
  Stays, find_first-Stays, create_row-Stays, update_row-Stays,
}
use agentdesk_nestjs.Tickets.AgentTools.{ZodObject, register_tools}
use agentdesk_nestjs.Tickets.AgentTools.Registered.{tools-Keep}
use agentdesk_nestjs.Agent.{World, AgentService}
use agentdesk_nestjs.Agent.Invariant.{ToolsKeep, StoreKeeps}
use agentdesk_nestjs.Agent.Invariant.Entry.{chat-Keeps, approve-Keeps}
use agentdesk_nestjs.Auth.Context.Tenants.{serve_in-Isolated}
use agentdesk_nestjs.Chat.{ChatCall, chats, approves, respond_to}

-- The rows of all other tenants are as before: in the tables of tickets and of conversations by
-- their tenant, and in every other table all of them.
abbrev pub OnlyOwn : {S : Type 0} → (String → S → List Fields) → String → S → S → Type 0
OnlyOwn rows tenant_id s t =
    (foreign tenant_id (rows "Ticket" t) ≡ foreign tenant_id (rows "Ticket" s))
    × (foreign tenant_id (rows "Conversation" t) ≡ foreign tenant_id (rows "Conversation" s))
    × ((m : String) → m ≢ "Ticket" → m ≢ "Conversation" → rows m t ≡ rows m s)

module _ {S P : Type 0} (query : Client S) (rows : String → S → List Fields)
    (db : Database query rows) (service : AgentService ZodObject S P) where
  -- The agent with the ticket tools and the conversation service in the context of a request.
  abbrev pub agent_in : Option TenantContext → AgentService ZodObject S P
  agent_in context = record service {
    registry = register_tools query context [];
    conversations = conversation_service (conversation_table query context) (get_tenant_id context);
  }

  module _ (context : TenantContext) (start : S) where
    abbrev Own : S → Type 0
    Own = OnlyOwn rows context.tenant_id start

    tools-Own : ToolsKeep Own (register_tools query (some context) [])
    tools-Own = tools-Keep query (some context) Own (λ call s (tickets, conversations, tables).
        let (others, rest, _) = serve_in-Isolated query rows db context call s in
        (
          others ∙ tickets,
          ap (foreign context.tenant_id)
                (rest "Conversation" (text_ne "Conversation" "Ticket" refl))
              ∙ conversations,
          λ m no_ticket no_conversation. rest m no_ticket ∙ tables m no_ticket no_conversation,
        ))

    Stays-Own : (s t : S) → Stays query rows db context s t → Own s → Own t
    Stays-Own s t (others, rest) (tickets, conversations, tables) = (
      ap (foreign context.tenant_id) (rest "Ticket" (text_ne "Ticket" "Conversation" refl))
          ∙ tickets,
      others ∙ conversations,
      λ m no_ticket no_conversation. rest m no_conversation ∙ tables m no_ticket no_conversation,
    )

    found_or_throw-Own : (o : Option Conversation) → Keeps Own (found_or_throw o)
    found_or_throw-Own none s h = unfold found_or_throw in h
    found_or_throw-Own (some c) s h = unfold found_or_throw in h

    store-Own : StoreKeeps Own (agent_in (some context)).conversations
    unfolding find_conversation create_conversation update_messages_of
    store-Own = record {
      find_keeps = λ id.
          Keeps-bind Own (find_first query (some context) id) found_or_throw
            (λ s. Stays-Own s _ (find_first-Stays query rows db context id s)) found_or_throw-Own;
      create_keeps = λ messages user_id.
          let tenant_id = get_tenant_id (some context) in
          Keeps-bind Own (create_row query (some context) tenant_id user_id messages active) _
            (λ s.
              Stays-Own s _
                (create_row-Stays query rows db context tenant_id user_id messages active s))
            (λ row s h. h);
      update_keeps = λ id messages status.
          Keeps-bind Own (update_row query (some context) id (some messages) status) _
            (λ s.
              Stays-Own s _ (update_row-Stays query rows db context id (some messages) status s))
            (λ row s h. h);
    }

  -- A request to the agent in a context.
  pub respond_to-OnlyOwn :
      (context : TenantContext) (call : ChatCall) (w : World S P)
      → OnlyOwn rows context.tenant_id w.store
          (respond_to (agent_in (some context)) (some context) call w).1.store
  unfolding respond_to
  respond_to-OnlyOwn context (chats dto) w =
      chat-Keeps (Own context w.store) (agent_in (some context)) _ _ _ _ _
        (λ name tool found _. tools-Own context w.store name tool found) (store-Own context w.store)
        w (refl, refl, λ m _ _. refl)
  respond_to-OnlyOwn context (approves dto) w =
      approve-Keeps (Own context w.store) (agent_in (some context)) (tools-Own context w.store)
        (store-Own context w.store) _ _ w (refl, refl, λ m _ _. refl)
