-- ===== src/Chat/Tests.antt =====
-- A request to the agent that asks for the deletion of another tenant's ticket.
use agentdesk_nestjs.Base.{
  ◌≡◌, refl, none, some, String, units, str_eq, starts_with, up_to, if◌then◌else◌, false, [], ◌∷◌,
}
use agentdesk_nestjs.Tenancy.Memory.{Tables, view, memory}
use agentdesk_nestjs.Tenancy.Memory.Laws.{memory-Database}
use agentdesk_nestjs.Tickets.Fixture.{paused_on, helpdesk, desk, approval, tables}
use agentdesk_nestjs.Auth.Context.{AuthenticatedRequest, is_public}
use agentdesk_nestjs.Auth.Context.Fixture.{verify, verify_leaves}
use agentdesk_nestjs.Json.{str, arr, Fields, end, field}
use agentdesk_nestjs.Conversation.Messages.{to_json_value}
use agentdesk_nestjs.Agent.{World}
use agentdesk_nestjs.Agent.Fixture.{Script}
use agentdesk_nestjs.Chat.{ChatCall, approves}
use agentdesk_nestjs.Chat.Requests.{Confined, asked, asked-Confined}

-- The conversation that waits for the deletion, and one of the other tenant.
abbrev conversation : String → String → Fields
conversation id tenant_id = field "id" (str (units id)) (
    field "tenantId" (str (units tenant_id))
      (field "messages" (arr (to_json_value (paused_on "y"))) end))

abbrev both_tables : Tables
both_tables m =
    if str_eq m "Conversation" then conversation "c" "a" ∷ conversation "d" "b" ∷ [] else tables m

abbrev start : World Tables Script
start = record desk { store = both_tables }

abbrev request : AuthenticatedRequest
request = record {
  original_url = units "/chat/approve";
  header = λ k. if str_eq k "authorization" then some "Bearer good" else none;
  cookies = none;
  user = none;
}

abbrev approval_of : AuthenticatedRequest → ChatCall
approval_of req = approves (record { conversation_id = "c"; decisions = approval })

is_closed : is_public request.original_url ≡ false
unfolding is_public starts_with up_to
is_closed = refl

asked-Confined_example :
    Confined memory view memory-Database helpdesk false verify verify_leaves approval_of request
      start
      (asked memory view memory-Database helpdesk false verify verify_leaves approval_of request
        start)
asked-Confined_example =
    asked-Confined memory view memory-Database helpdesk false verify verify_leaves approval_of
      request start is_closed
