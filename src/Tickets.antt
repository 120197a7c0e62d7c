-- ===== src/Tickets.antt =====
-- src/tickets/tickets.service.ts: the tickets of the active tenant, over the scoped client.
pub mod Conditions
pub mod Tenants
pub mod Answers
pub mod Kept
pub mod AgentTools
pub mod Turns
pub mod Fixture
mod Tests
use agentdesk_nestjs.Base.{
  [], ◌∷◌, Option, none, some, String, Text, units, Action, Exception, not_found, ◌>>=◌, ◌>>◌, pure,
  throw,
}
use agentdesk_nestjs.Json.{str, obj, Fields, end, field}
use agentdesk_nestjs.Tenancy.{
  TenantContext, OperationArgs, absent, row, get_tenant_id, all_operations,
}
use agentdesk_nestjs.Tenancy.Database.{QueryResult, nothing, one, many}

-- update-ticket.dto.ts
pub record UpdateTicketDto : Type 0 where
  pub title : Option Text
  pub status : Option Text

abbrev pub no_args : OperationArgs
no_args = record {
  where_clause = none;
  data_clause = absent;
  create_clause = none;
  update_clause = none;
  rest = end;
}

abbrev pub by_id : Text → Fields
by_id id = field "id" (str id) end

-- A property that is left out if its value is absent.
abbrev pub optional_text : String → Option Text → Fields → Fields
optional_text k none fields = fields
optional_text k (some t) fields = field k (str t) fields

abbrev pub text_of_id : Option String → Option Text
text_of_id none = none
text_of_id (some s) = some (units s)

abbrev pub update_fields : UpdateTicketDto → Fields
update_fields dto = optional_text "title" dto.title (optional_text "status" dto.status end)

-- `status ? { status } : {}`
abbrev pub status_filter : Option Text → Fields
status_filter none = end
status_filter (some []) = end
status_filter (some (c ∷ status)) = field "status" (str (c ∷ status)) end

abbrev pub newest_first : Fields
newest_first = field "orderBy" (obj (field "createdAt" (str (units "desc")) end)) end

abbrev pub ticket_not_found : Exception
ticket_not_found = not_found (units "Ticket not found")

-- `query` is the base client's, and the context that of the request.
module _ {S : Type 0} (query : String → String → OperationArgs → Action S QueryResult)
    (context : Option TenantContext) where
  abbrev pub ticket_query : String → OperationArgs → Action S QueryResult
  ticket_query = all_operations query none context "Ticket"

  unfoldable pub create : Text → Action S QueryResult
  create title = ticket_query "create" (record no_args {
    data_clause = row (
        field "title" (str title)
          (optional_text "tenantId" (text_of_id (get_tenant_id context)) end));
  })

  unfoldable pub find_all : Option Text → Action S QueryResult
  find_all status =
      ticket_query "findMany"
        (record no_args { where_clause = some (status_filter status); rest = newest_first })

  -- `if (!ticket) throw …`
  unfoldable pub present : QueryResult → Action S QueryResult
  present nothing = throw ticket_not_found
  present (one f) = pure (one f)
  present (many fs) = pure (many fs)

  unfoldable pub find_one : Text → Action S QueryResult
  find_one id =
      ticket_query "findUnique" (record no_args { where_clause = some (by_id id) }) >>= present

  unfoldable pub update : Text → UpdateTicketDto → Action S QueryResult
  update id dto =
      find_one id
      >> ticket_query "update"
          (record no_args { where_clause = some (by_id id); data_clause = row (update_fields dto) })

  unfoldable pub remove : Text → Action S QueryResult
  remove id =
      find_one id >> ticket_query "delete" (record no_args { where_clause = some (by_id id) })

-- A request to the service; tickets.controller.ts passes each on as it is.
pub data TicketCall : Type 0 where
  creates : Text → TicketCall
  lists : Option Text → TicketCall
  gets : Text → TicketCall
  updates : Text → UpdateTicketDto → TicketCall
  removes : Text → TicketCall

unfoldable pub serve :
    {S : Type 0}
    → (String → String → OperationArgs → Action S QueryResult)
    → Option TenantContext
    → TicketCall
    → Action S QueryResult
serve query context (creates title) = create query context title
serve query context (lists status) = find_all query context status
serve query context (gets id) = find_one query context id
serve query context (updates id dto) = update query context id dto
serve query context (removes id) = remove query context id
