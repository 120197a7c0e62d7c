-- ===== src/Tickets/Turns.antt =====
-- Whole turns of the agent over the ticket tools: what the model can reach, and what it cannot.
use mathlib.Core.Path.{subst}
use agentdesk_nestjs.Base.{◌≡◌, refl, sym, ◌∙◌, List, [], Option, none, some, String, Text}
use agentdesk_nestjs.Json.{Fields}
use agentdesk_nestjs.Llm.{ChatMessage}
use agentdesk_nestjs.Conversation.{Conversations}
use agentdesk_nestjs.Tenancy.{TenantContext, active_tenant}
use agentdesk_nestjs.Tenancy.Database.{Database, foreign}
use agentdesk_nestjs.Tickets.{TicketCall, serve}
use agentdesk_nestjs.Tenancy.Confinement.{Client}
use agentdesk_nestjs.Tickets.Tenants.{serve-Isolated}
use agentdesk_nestjs.Tickets.Kept.{
  Exists, create-There, find_all-There, find_one-There, update-There,
}
use agentdesk_nestjs.Tickets.AgentTools.{ZodObject, register_tools}
use agentdesk_nestjs.Tickets.AgentTools.Registered.{tools-Keep, free_tools-Keep}
use agentdesk_nestjs.Agent.{World, AgentService}
use agentdesk_nestjs.Agent.Approval.{ApproveDecision, approve, chat}
use agentdesk_nestjs.Agent.Invariant.{ToolsKeep, StoreKeeps}
use agentdesk_nestjs.Agent.Invariant.Entry.{chat-Keeps, approve-Keeps}

-- The conversation store leaves the tickets alone.
abbrev pub LeavesTickets : {S : Type 0} → (String → S → List Fields) → Conversations S → Type 0
LeavesTickets {S} rows conversations =
    (fs : List Fields) → StoreKeeps (λ (s : S). rows "Ticket" s ≡ fs) conversations

-- Then it keeps every predicate on them.
LeavesTickets-Keeps :
    {S : Type 0} (rows : String → S → List Fields) (conversations : Conversations S)
    (Q : List Fields → Type 0)
    → LeavesTickets rows conversations
    → StoreKeeps (λ (s : S). Q (rows "Ticket" s)) conversations
LeavesTickets-Keeps rows conversations Q leaves = record {
  find_keeps = λ id s h. subst Q (sym ((leaves (rows "Ticket" s)).find_keeps id s refl)) h;
  create_keeps = λ messages user_id s h.
      subst Q (sym ((leaves (rows "Ticket" s)).create_keeps messages user_id s refl)) h;
  update_keeps = λ id messages status s h.
      subst Q (sym ((leaves (rows "Ticket" s)).update_keeps id messages status s refl)) h;
}

module _ {S P : Type 0} (query : Client S) (rows : String → S → List Fields)
    (context : Option TenantContext) (service : AgentService ZodObject S P) where
  -- The agent with the ticket tools of the request's tenant.
  abbrev pub with_tickets : AgentService ZodObject S P
  with_tickets = record service { registry = register_tools query context [] }

  -- The service leaves the tickets of all other tenants as they are.
  abbrev pub ServesOwn : String → Type 0
  ServesOwn tenant_id =
      (call : TicketCall) (s : S)
      → foreign tenant_id (rows "Ticket" (serve query context call s).1)
        ≡ foreign tenant_id (rows "Ticket" s)

  module _ (tenant_id : String) (serves : ServesOwn tenant_id)
      (leaves : LeavesTickets rows service.conversations) where
    abbrev SameForeign : List Fields → S → Type 0
    SameForeign fs s = foreign tenant_id (rows "Ticket" s) ≡ fs

    tools-SameForeign :
        (fs : List Fields) → ToolsKeep (SameForeign fs) (register_tools query context [])
    tools-SameForeign fs = tools-Keep query context (SameForeign fs) (λ call s h. serves call s ∙ h)

    store-SameForeign : (fs : List Fields) → StoreKeeps (SameForeign fs) service.conversations
    store-SameForeign fs =
        LeavesTickets-Keeps rows service.conversations (λ gs. foreign tenant_id gs ≡ fs) leaves

    -- Then so do a turn and an approval with the ticket tools.
    pub chat-foreign :
        (user_id : Option String) (text : Text) (history : Option (List ChatMessage))
        (system : Option Text) (id : Option String) (w : World S P)
        → SameForeign
            (foreign tenant_id (rows "Ticket" w.store))
            (chat with_tickets user_id text history system id w).1.store
    chat-foreign user_id text history system id w =
        let fs = foreign tenant_id (rows "Ticket" w.store) in
        chat-Keeps (SameForeign fs) with_tickets user_id text history system id
          (λ name tool found _. tools-SameForeign fs name tool found) (store-SameForeign fs) w refl

    pub approve-foreign :
        (id : String) (decisions : List ApproveDecision) (w : World S P)
        → SameForeign
            (foreign tenant_id (rows "Ticket" w.store))
            (approve with_tickets id decisions w).1.store
    approve-foreign id decisions w =
        let fs = foreign tenant_id (rows "Ticket" w.store) in
        approve-Keeps (SameForeign fs) with_tickets (tools-SameForeign fs) (store-SameForeign fs) id
          decisions w refl

  module _ (tenant_id : String) (active : active_tenant none context ≡ some tenant_id)
      (db : Database query rows) (leaves : LeavesTickets rows service.conversations) where
    -- Whatever the model answers and whatever the user decides, a turn and an approval leave the
    -- tickets of all other tenants as they were, whether they return or throw. The database behaves
    -- as documented, the tenant is the request's, and the conversation store leaves tickets alone.
    pub turn-foreign :
        (user_id : Option String) (text : Text) (history : Option (List ChatMessage))
        (system : Option Text) (id : Option String) (conversation_id : String)
        (decisions : List ApproveDecision) (w : World S P)
        → (foreign tenant_id
              (rows "Ticket" (chat with_tickets user_id text history system id w).1.store)
            ≡ foreign tenant_id (rows "Ticket" w.store))
          × (foreign tenant_id
                (rows "Ticket" (approve with_tickets conversation_id decisions w).1.store)
              ≡ foreign tenant_id (rows "Ticket" w.store))
    turn-foreign user_id text history system id conversation_id decisions w =
        let serves : ServesOwn tenant_id =
          λ call s. (serve-Isolated query rows context tenant_id active db call s).0 in
        (
          chat-foreign tenant_id serves leaves user_id text history system id w,
          approve-foreign tenant_id serves leaves conversation_id decisions w,
        )

    -- A ticket that exists before a turn exists after it, whatever the model answers, and whether
    -- the turn returns or throws: tickets disappear through approvals alone. The database behaves
    -- as documented, the tenant is the request's, and the conversation store leaves tickets alone.
    pub chat-Exists :
        (user_id : Option String) (text : Text) (history : Option (List ChatMessage))
        (system : Option Text) (id : Option String) (ticket : Text) (w : World S P)
        → Exists ticket (rows "Ticket" w.store)
        → Exists ticket (rows "Ticket" (chat with_tickets user_id text history system id w).1.store)
    chat-Exists user_id text history system id ticket w there =
        chat-Keeps (λ s. Exists ticket (rows "Ticket" s)) with_tickets user_id text history system
          id
          (free_tools-Keep query context (λ s. Exists ticket (rows "Ticket" s))
            (create-There query rows context tenant_id active db ticket)
            (find_all-There query rows context tenant_id active db ticket)
            (find_one-There query rows context tenant_id active db ticket)
            (update-There query rows context tenant_id active db ticket))
          (LeavesTickets-Keeps rows service.conversations (Exists ticket) leaves) w there
