-- ===== src/Tickets/AgentTools/Registered.antt =====
-- The registered ticket tools, and what each of them keeps.
use agentdesk_nestjs.Base.{
  ◌≡◌, false, [], Option, some, String, Text, str_eq, lookup, insert, Action, Keeps, Keeps-bind,
  Keeps-try_catch, pure, if_some,
}
use agentdesk_nestjs.Json.{Fields}
use agentdesk_nestjs.Tools.{success, Tool, register, get_tool}
use agentdesk_nestjs.Tenancy.{TenantContext}
use agentdesk_nestjs.Tenancy.Database.{QueryResult}
use agentdesk_nestjs.Tickets.{
  TicketCall, UpdateTicketDto, creates, lists, gets, updates, removes, serve, create, find_all,
  find_one, update,
}
use agentdesk_nestjs.Tenancy.Confinement.{Client}
use agentdesk_nestjs.Tickets.AgentTools.{
  ZodObject, text_field, or_empty, json_of, failed, succeed, guarded, create_ticket, list_tickets,
  get_ticket, update_ticket, delete_ticket, register_all, register_tools,
}

module _ {S : Type 0} (query : Client S) (context : Option TenantContext) where
  -- What holds of each of the five tools holds of every tool that is found.
  pub found_tool :
      (T : Tool ZodObject S → Type 0)
      → T (create_ticket query context)
      → T (list_tickets query context)
      → T (get_ticket query context)
      → T (update_ticket query context)
      → T (delete_ticket query context)
      → (name : String) (tool : Tool ZodObject S)
      → get_tool name (register_tools query context []) ≡ some tool
      → T tool
  unfolding register_tools register_all register insert get_tool lookup
  found_tool T t₁ t₂ t₃ t₄ t₅ name tool e =
      if_some T (str_eq "create_ticket" name) t₁
        (if_some T (str_eq "list_tickets" name) t₂ (
          if_some T (str_eq "get_ticket" name) t₃ (
            if_some T (str_eq "update_ticket" name) t₄
              (if_some T (str_eq "delete_ticket" name) t₅ (λ none_left. cc none_left)))))
        e

  module _ (I : S → Type 0) where
    succeed-Keeps : (m : Action S QueryResult) → Keeps I m → Keeps I (succeed m)
    succeed-Keeps m keep = Keeps-bind I m (λ r. pure (success (json_of r))) keep (λ _ s h. h)

    guarded-Keeps : (m : Action S QueryResult) → Keeps I m → Keeps I (guarded m)
    unfolding guarded
    guarded-Keeps m keep =
        Keeps-try_catch I (succeed m) (λ err. pure (failed err)) (succeed-Keeps m keep) (λ _ s h. h)

    -- What every request to the service keeps, every tool keeps.
    pub tools-Keep :
        ((call : TicketCall) → Keeps I (serve query context call))
        → (name : String) (tool : Tool ZodObject S)
        → get_tool name (register_tools query context []) ≡ some tool
        → (input : Fields) → Keeps I (tool.execute input)
    unfolding serve
    tools-Keep calls =
        found_tool (λ t. (input : Fields) → Keeps I (t.execute input))
          (λ input. succeed-Keeps _ (calls (creates (or_empty (text_field "title" input)))))
          (λ input. succeed-Keeps _ (calls (lists (text_field "status" input))))
          (λ input. guarded-Keeps _ (calls (gets (or_empty (text_field "ticketId" input)))))
          (λ input. guarded-Keeps _ (
            calls (
              updates (or_empty (text_field "ticketId" input))
                (record { title = text_field "title" input; status = text_field "status" input }))))
          (λ input. guarded-Keeps _ (calls (removes (or_empty (text_field "ticketId" input)))))

    -- What every request but a removal keeps, every tool keeps that needs no approval.
    pub free_tools-Keep :
        ((title : Text) → Keeps I (create query context title))
        → ((status : Option Text) → Keeps I (find_all query context status))
        → ((id : Text) → Keeps I (find_one query context id))
        → ((id : Text) (dto : UpdateTicketDto) → Keeps I (update query context id dto))
        → (name : String) (tool : Tool ZodObject S)
        → get_tool name (register_tools query context []) ≡ some tool
        → tool.requires_approval ≡ false
        → (input : Fields) → Keeps I (tool.execute input)
    free_tools-Keep creating listing getting updating =
        found_tool (λ t. t.requires_approval ≡ false → (input : Fields) → Keeps I (t.execute input))
          (λ _ input. succeed-Keeps _ (creating (or_empty (text_field "title" input))))
          (λ _ input. succeed-Keeps _ (listing (text_field "status" input)))
          (λ _ input. guarded-Keeps _ (getting (or_empty (text_field "ticketId" input))))
          (λ _ input. guarded-Keeps _ (updating (or_empty (text_field "ticketId" input)) _))
          (λ gated. cc gated)
