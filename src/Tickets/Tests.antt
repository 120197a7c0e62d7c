-- ===== src/Tickets/Tests.antt =====
-- Two tenants with a ticket each, in the database in memory, and an agent over the ticket tools.
use agentdesk_nestjs.Base.{
  same_text, ◌≡◌, refl, ap, ◌∙◌, ◌↔◌, true, false, List, [], ◌∷◌, Option, none, some, String, units,
  ok, In, inl, inr, sym,
}
use agentdesk_nestjs.Json.{str, Fields, end, field}
use agentdesk_nestjs.Tenancy.{
  TenantContext, active_tenant, get_tenant_id, stamp, set_field, all_operations, scope_operation,
  apply_tenant_scope, stamp_clause, scoped_as,
}
use agentdesk_nestjs.Tenancy.Database.{nothing, many, belongs, foreign, has_value, matches, is_text}
use agentdesk_nestjs.Tenancy.Memory.{put, view, memory, plan}
use agentdesk_nestjs.Tenancy.Memory.Laws.{memory-Database}
use agentdesk_nestjs.Tickets.{serve, find_all, find_one, by_id, no_args, present}
use agentdesk_nestjs.Tickets.Answers.{has_status, find_all-exact}
use agentdesk_nestjs.Tickets.Kept.{Exists}
use agentdesk_nestjs.Tickets.Turns.{with_tickets, turn-foreign, chat-Exists}
use agentdesk_nestjs.Agent.Approval.{approve, chat}
use agentdesk_nestjs.Tickets.AgentTools.{text_field, get_ticket, update_ticket, delete_ticket}
use agentdesk_nestjs.Tickets.AgentTools.Hidden.{hidden, tools-hidden}
use agentdesk_nestjs.Tickets.Fixture.{ours, table, tables, fixed-Leaves, helpdesk, desk, approval}

abbrev request : Option TenantContext
request = some (record { tenant_id = "a"; user_id = none; role = none })

request_is_active : active_tenant none request ≡ some "a"
unfolding active_tenant get_tenant_id
request_is_active = refl

-- What the service computes with, over the database in memory.
unfoldable service_program : Unit {0}
unfolding serve find_all find_one present all_operations scoped_as apply_tenant_scope
    scope_operation active_tenant get_tenant_id stamp_clause stamp set_field memory plan matches
    is_text same_text
service_program = tt

-- The tenant's list is its own ticket.
listed : find_all memory request none tables ≡ (ok (many (ours ∷ [])), put "Ticket" table tables)
unfolding service_program
listed = refl

find_all-exact_example :
    (found : List Fields) × (many (ours ∷ []) ≡ many found)
    × ((f : Fields)
        → In f found ↔ (In f table × (has_status none f ≡ true) × (belongs "a" f ≡ true)))
find_all-exact_example =
    find_all-exact memory view request "a" request_is_active memory-Database none tables listed

-- The only ticket with the id is not the tenant's.
y_is_theirs :
    (f : Fields) → In f table → has_value "id" (str (units "y")) f ≡ true → belongs "a" f ≡ false
unfolding is_text same_text
y_is_theirs f (inl same) named =
    let clash : false ≡ true = sym (ap (has_value "id" (str (units "y"))) same) ∙ named in cc clash
y_is_theirs f (inr (inl same)) named = ap (belongs "a") same
y_is_theirs f (inr (inr nowhere)) named = elim nowhere [ ]

not_found_by :
    memory "Ticket" "findUnique"
      (record no_args { where_clause = some (stamp "a" (by_id (units "y"))) })
      tables
    ≡ (ok nothing, put "Ticket" table tables)
unfolding service_program
not_found_by = refl

turn-foreign_example :
    (foreign "a" (
        view "Ticket"
          (chat
            (with_tickets memory view request helpdesk)
            none
            (units "delete y")
            none
            none
            none
            desk).1.store)
      ≡ foreign "a" (view "Ticket" tables))
    × (foreign "a" (
          view "Ticket"
            (approve (with_tickets memory view request helpdesk) "c" approval desk).1.store)
        ≡ foreign "a" (view "Ticket" tables))
turn-foreign_example =
    turn-foreign memory view request helpdesk "a" request_is_active memory-Database fixed-Leaves
      none (units "delete y") none none none "c" approval desk

x-Exists : Exists (units "x") table
unfolding is_text same_text
x-Exists = refl

chat-Exists_example : Exists (units "x") (
    view "Ticket"
      (chat
        (with_tickets memory view request helpdesk)
        none
        (units "delete x")
        none
        none
        none
        desk).1.store)
chat-Exists_example =
    chat-Exists memory view request helpdesk "a" request_is_active memory-Database fixed-Leaves none
      (units "delete x") none none none (units "x") desk x-Exists

abbrev y_input : Fields
y_input = field "ticketId" (str (units "y")) end

y_is_given : text_field "ticketId" y_input ≡ some (units "y")
unfolding text_field
y_is_given = refl

tools-hidden_example :
    ((get_ticket memory request).execute y_input tables ≡ (ok hidden, put "Ticket" table tables))
    × ((update_ticket memory request).execute y_input tables
        ≡ (ok hidden, put "Ticket" table tables))
    × ((delete_ticket memory request).execute y_input tables
        ≡ (ok hidden, put "Ticket" table tables))
    × ((m : String) → view m (put "Ticket" table tables) ≡ view m tables)
tools-hidden_example =
    tools-hidden memory view request "a" request_is_active memory-Database y_input (units "y")
      tables y_is_given y_is_theirs not_found_by
