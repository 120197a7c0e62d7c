-- ===== src/Tickets/Tenants.antt =====
-- The service as one tenant meets it: every request stays with the tenant's own tickets.
use agentdesk_nestjs.Base.{
  ◌≡◌, refl, ap, List, Option, none, some, String, Text, Action, Result, ok, raise, proceed, ◌>>◌,
}
use agentdesk_nestjs.Json.{Fields, end, get_field}
use agentdesk_nestjs.Tenancy.{
  TenantContext, OperationArgs, active_tenant, scope_operation, apply_tenant_scope, scoped_as,
  all_operations, stamp_create, stamp_clause, stamp,
}
use agentdesk_nestjs.Tenancy.Isolation.{stamp-Names}
use agentdesk_nestjs.Tenancy.Database.{
  QueryResult, nothing, one, many, Database, foreign, IsLeaf, text_ne,
}
use agentdesk_nestjs.Tickets.{
  TicketCall, creates, lists, gets, updates, removes, UpdateTicketDto, serve, create, find_all,
  find_one, present, update, remove, ticket_query, update_fields, by_id, no_args, optional_text,
}
use agentdesk_nestjs.Tickets.Conditions.{textual-by_id, textual-filter}
use agentdesk_nestjs.Tenancy.Confinement.{
  Client, Isolated, Isolated-later, Untouched, Owns, create-Isolated, find_many-Isolated,
  find_unique-Isolated, update-Isolated, delete-Isolated,
}

-- No table refers to the tickets.
ticket_leaf : IsLeaf "Ticket"
ticket_leaf = (text_ne "Ticket" "Tenant" refl, text_ne "Ticket" "User" refl)

module _ {S : Type 0} (query : Client S) (rows : String → S → List Fields)
    (context : Option TenantContext) (tenant_id : String)
    (active : active_tenant none context ≡ some tenant_id) where
  -- With an active tenant the scoped client is the base client on stamped arguments.
  pub ticket_query-eq :
      (operation : String) (args : OperationArgs) (s : S)
      → ticket_query query context operation args s
        ≡ query "Ticket" operation (scope_operation operation args tenant_id) s
  unfolding all_operations scoped_as apply_tenant_scope
  ticket_query-eq operation args s = ap (λ o. scoped_as query o "Ticket" operation args s) active

  module _ (db : Database query rows) where
    abbrev pub Finds : S → Result QueryResult × S → Type 0
    Finds s x = Untouched query rows "Ticket" tenant_id s x.1 × Owns tenant_id x.0

    pub find_one-Finds : (id : Text) (s : S) → Finds s (find_one query context id s)
    unfolding find_one present scope_operation stamp_clause
    find_one-Finds id s =
        rw (ticket_query-eq "findUnique" (record no_args { where_clause = some (by_id id) }) s) (
          go _ _ (
            find_unique-Isolated query rows "Ticket" tenant_id db _ (stamp tenant_id (by_id id)) s
              refl (textual-by_id tenant_id id) (stamp-Names tenant_id (by_id id))))
      where
        go :
            (r : Result QueryResult) (t : S)
            → Untouched query rows "Ticket" tenant_id s t × Owns tenant_id r
            → Finds s (proceed r t (present query context))
        go (ok nothing) t (same, own) = (same, tt)
        go (ok (one f)) t (same, own) = (same, own)
        go (ok (many fs)) t (same, own) = (same, own)
        go (raise e) t (same, own) = (same, tt)

    -- What follows a search for the row.
    after_find-Isolated :
        (id : Text) (k : Action S QueryResult) (s : S)
        → ((t : S) → Isolated query rows "Ticket" tenant_id t (k t))
        → Isolated query rows "Ticket" tenant_id s ((find_one query context id >> k) s)
    after_find-Isolated id k s later =
        go (find_one query context id s).0 (find_one query context id s).1 (find_one-Finds id s)
      where
        go :
            (r : Result QueryResult) (t : S)
            → Finds s (r, t)
            → Isolated query rows "Ticket" tenant_id s (proceed r t (λ _. k))
        go (ok r) t (same, own) =
            Isolated-later query rows "Ticket" tenant_id s t (k t) same (later t)
        go (raise e) t (same, own) = (ap (foreign tenant_id) (same "Ticket"), (λ m _. same m), tt)

    update_fields-untouched :
        (dto : UpdateTicketDto) → get_field "tenantId" (update_fields dto) ≡ none
    update_fields-untouched dto = go dto.title dto.status
      where
        go :
            (title status : Option Text)
            → get_field "tenantId" (optional_text "title" title (optional_text "status" status end))
              ≡ none
        go none none = refl
        go none (some s) = refl
        go (some t) none = refl
        go (some t) (some s) = refl

    -- Whatever request a tenant makes, and whether it returns or throws: the tickets of all other
    -- tenants and every other table stay as they are, and every ticket that is returned belongs to
    -- the tenant. The client behaves as documented.
    pub serve-Isolated :
        (call : TicketCall) (s : S)
        → Isolated query rows "Ticket" tenant_id s (serve query context call s)
    unfolding serve create find_all update remove scope_operation stamp_clause stamp_create
    serve-Isolated (creates title) s =
        rw (ticket_query-eq "create" _ s)
          (create-Isolated query rows "Ticket" tenant_id db _ _ s refl (stamp-Names tenant_id _))
    serve-Isolated (lists status) s = rw (ticket_query-eq "findMany" _ s) (
        find_many-Isolated query rows "Ticket" tenant_id db _ _ s refl
          (textual-filter tenant_id status) (stamp-Names tenant_id _))
    serve-Isolated (gets id) s =
        let (same, own) = find_one-Finds id s in
        (ap (foreign tenant_id) (same "Ticket"), (λ m _. same m), own)
    serve-Isolated (updates id dto) s = after_find-Isolated id _ s (λ t.
        rw (ticket_query-eq "update" _ t) (
          update-Isolated query rows "Ticket" tenant_id db _ _ (update_fields dto) t ticket_leaf
            refl (textual-by_id tenant_id id) refl (stamp-Names tenant_id _)
            (update_fields-untouched dto)))
    serve-Isolated (removes id) s = after_find-Isolated id _ s (λ t.
        rw (ticket_query-eq "delete" _ t) (
          delete-Isolated query rows "Ticket" tenant_id db _ _ t ticket_leaf refl
            (textual-by_id tenant_id id) (stamp-Names tenant_id _)))
