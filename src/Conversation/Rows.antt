-- ===== src/Conversation/Rows.antt =====
-- src/agent/conversation.service.ts: the calls of the scoped client.
use agentdesk_nestjs.Base.{
  List, Option, none, some, String, units, decode, Action, Exception, failure, ◌>>=◌, pure, throw,
}
use agentdesk_nestjs.Json.{Json, null, str, arr, Fields, end, field, get_field}
use agentdesk_nestjs.Llm.{ChatMessage}
use agentdesk_nestjs.Conversation.{ConversationStatus, active, paused, completed, Conversation}
use agentdesk_nestjs.Conversation.Messages.{to_json_value, stored_in}
use agentdesk_nestjs.Conversation.Service.{ConversationTable}
use agentdesk_nestjs.Tenancy.{TenantContext, OperationArgs, row, all_operations}
use agentdesk_nestjs.Tenancy.Database.{QueryResult, nothing, one, many}
use agentdesk_nestjs.Tickets.{no_args, by_id}

abbrev pub id_of : Option Json → String
id_of (some (str t)) = decode t
id_of _ = ""

abbrev pub conversation_of : Fields → Conversation
conversation_of f = record {
  id = id_of (get_field "id" f);
  messages = stored_in (get_field "messages" f);
}

-- The database's names of the states.
abbrev pub status_text : ConversationStatus → String
status_text active = "ACTIVE"
status_text paused = "PAUSED"
status_text completed = "COMPLETED"

abbrev pub with_status : Option ConversationStatus → Fields
with_status none = end
with_status (some status) = field "status" (str (units (status_text status))) end

abbrev pub with_messages : Option (List ChatMessage) → Fields → Fields
with_messages none fs = fs
with_messages (some ms) fs = field "messages" (arr (to_json_value ms)) fs

-- `undefined` is left out, and `userId ?? null` is not.
abbrev pub with_tenant : Option String → Fields → Fields
with_tenant none fs = fs
with_tenant (some tenant_id) fs = field "tenantId" (str (units tenant_id)) fs

abbrev pub text_or_null : Option String → Json
text_or_null none = null
text_or_null (some s) = str (units s)

abbrev pub new_row : Option String → Option String → List ChatMessage → ConversationStatus → Fields
new_row tenant_id user_id ms status = with_tenant tenant_id (
    field "userId" (text_or_null user_id)
      (field "messages" (arr (to_json_value ms)) (with_status (some status))))

abbrev pub no_row : Exception
no_row = failure (units "Cannot read properties of null")

module _ {S : Type 0} (query : String → String → OperationArgs → Action S QueryResult)
    (context : Option TenantContext) where
  abbrev pub conversation_query : String → OperationArgs → Action S QueryResult
  conversation_query = all_operations query none context "Conversation"

  abbrev pub found_row : QueryResult → Option Conversation
  found_row (one f) = some (conversation_of f)
  found_row _ = none

  abbrev pub written_row : QueryResult → Action S Conversation
  written_row (one f) = pure (conversation_of f)
  written_row nothing = throw no_row
  written_row (many fs) = throw no_row

  unfoldable pub find_first : String → Action S (Option Conversation)
  find_first id =
      conversation_query "findFirst" (record no_args { where_clause = some (by_id (units id)) })
      >>= λ r. pure (found_row r)

  unfoldable pub create_row :
      Option String → Option String → List ChatMessage → ConversationStatus → Action S Conversation
  create_row tenant_id user_id ms status =
      conversation_query "create"
        (record no_args { data_clause = row (new_row tenant_id user_id ms status) })
      >>= written_row

  unfoldable pub update_row :
      String → Option (List ChatMessage) → Option ConversationStatus → Action S Conversation
  update_row id ms status =
      conversation_query "update" (record no_args {
        where_clause = some (by_id (units id));
        data_clause = row (with_messages ms (with_status status));
      })
      >>= written_row

  -- The table that the service uses.
  abbrev pub conversation_table : ConversationTable S
  conversation_table = record {
    find_first = find_first;
    create_row = create_row;
    update_row = update_row;
  }
