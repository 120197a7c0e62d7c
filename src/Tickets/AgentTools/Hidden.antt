-- ===== src/Tickets/AgentTools/Hidden.antt =====
-- What the tools tell the model about a ticket that is not the tenant's.
use agentdesk_nestjs.Base.{
  ◌≡◌, refl, ap, true, false, List, Option, none, some, String, Text, units, In, Action, ok, raise,
  to_lower, includes,
}
use agentdesk_nestjs.Json.{Fields, str}
use agentdesk_nestjs.Tools.{ToolResult, failure, not_found}
use agentdesk_nestjs.Tenancy.{TenantContext, active_tenant, stamp}
use agentdesk_nestjs.Tenancy.Database.{QueryResult, Database, belongs, has_value}
use agentdesk_nestjs.Tickets.{find_one, update, remove, by_id, no_args, ticket_not_found}
use agentdesk_nestjs.Tenancy.Confinement.{Client}
use agentdesk_nestjs.Tickets.Conditions.{textual-by_id}
use agentdesk_nestjs.Tickets.Answers.{find_one-foreign}
use agentdesk_nestjs.Tickets.AgentTools.{
  text_field, code_of, guarded, get_ticket, update_ticket, delete_ticket, or_empty,
}

-- The answer for a ticket that is not there.
abbrev pub hidden : ToolResult
hidden = failure (record { code = not_found; message = units "Ticket not found" })

guarded-hidden :
    {S : Type 0} (m : Action S QueryResult) (s : S) {t : S}
    → m s ≡ (raise ticket_not_found, t)
    → guarded m s ≡ (ok hidden, t)
unfolding guarded code_of to_lower includes
guarded-hidden m s e = rw e refl

module _ {S : Type 0} (query : Client S) (rows : String → S → List Fields)
    (context : Option TenantContext) (tenant_id : String)
    (active : active_tenant none context ≡ some tenant_id) (db : Database query rows) where
  -- The tools that take the id of a ticket answer with the same `NOT_FOUND` for every id that no
  -- ticket of the tenant has, whether there is such a ticket of another tenant or none, and change
  -- no table. The search succeeds, and the database behaves as documented.
  pub tools-hidden :
      (input : Fields) (id : Text) (s : S) {r : QueryResult} {t : S}
      → text_field "ticketId" input ≡ some id
      → ((f : Fields)
          → In f (rows "Ticket" s)
          → has_value "id" (str id) f ≡ true
          → belongs tenant_id f ≡ false)
      → query "Ticket" "findUnique"
          (record no_args { where_clause = some (stamp tenant_id (by_id id)) })
          s
        ≡ (ok r, t)
      → ((get_ticket query context).execute input s ≡ (ok hidden, t))
        × ((update_ticket query context).execute input s ≡ (ok hidden, t))
        × ((delete_ticket query context).execute input s ≡ (ok hidden, t))
        × ((m : String) → rows m t ≡ rows m s)
  unfolding update remove
  tools-hidden input id s {r} {t} given none_own e =
      let absent = find_one-foreign query rows context tenant_id active db id s none_own e in
      let name : or_empty (text_field "ticketId" input) ≡ id = ap or_empty given in
      (
        rw name (guarded-hidden (find_one query context id) s absent),
        rw name (guarded-hidden (update query context id _) s (rw absent refl)),
        rw name (guarded-hidden (remove query context id) s (rw absent refl)),
        (db.find_unique "Ticket" _ s (textual-by_id tenant_id id) e).0,
      )
