-- ===== src/Conversation/Tests.antt =====
-- The conversation service on a table in memory, and the theorem about it at a concrete input.
use agentdesk_nestjs.Base.{
  ◌≡◌, refl, ap, List, [], ◌∷◌, Option, none, some, String, units, Dict, lookup, insert,
  lookup-insert_self, ok, state_eq, or_else, ok-injective, sym, str_eq, if◌then◌else◌, same_text,
  decode, decode_from, char_of,
}
use mathlib.Core.Path.{subst}
use agentdesk_nestjs.Json.{str, arr, Fields, end, field}
use agentdesk_nestjs.Tenancy.{
  TenantContext, all_operations, scoped_as, active_tenant, get_tenant_id, apply_tenant_scope,
  scope_operation, stamp_clause, stamp, set_field,
}
use agentdesk_nestjs.Tenancy.Database.{matches, is_text}
use agentdesk_nestjs.Tenancy.Memory.{Tables, view, memory, plan, overlay}
use agentdesk_nestjs.Tenancy.Memory.Laws.{memory-Database}
use agentdesk_nestjs.Conversation.Messages.{to_json_value, calls_json, calls_in, messages_in}
use agentdesk_nestjs.Conversation.Rows.{conversation_table, find_first, update_row}
use agentdesk_nestjs.Conversation.Answers.{FoundOwn, own_id, find_conversation-own}
use agentdesk_nestjs.Llm.{Role, ChatMessage}
use agentdesk_nestjs.Conversation.{StoredMessages, Conversation, to_messages}
use agentdesk_nestjs.Conversation.Service.{
  ConversationTable, KeepsRows, find_conversation, update_messages_of, found_or_throw,
}

abbrev Rows : Type 0
Rows = Dict (List ChatMessage)

abbrev row_of : String → List ChatMessage → Conversation
row_of id ms = record { id = id; messages = StoredMessages.messages ms }

abbrev found_row : String → Option (List ChatMessage) → Option Conversation
found_row id none = none
found_row id (some ms) = some (row_of id ms)

-- The messages of every conversation, by id; the status is not kept.
abbrev table : ConversationTable Rows
table = record {
  find_first = λ id rows. (ok (found_row id (lookup id rows)), rows);
  create_row = λ _ _ ms _ rows. (ok (row_of "new" ms), insert "new" ms rows);
  update_row = λ id ms _ rows. (ok (row_of id (or_else ms [])), insert id (or_else ms []) rows);
}

table-KeepsRows : KeepsRows table
table-KeepsRows = record {
  row_after_update = λ id ms status s e. (
    row_of id ms,
    ap (λ (c : Conversation). c.messages) (sym (ok-injective e)),
    subst (λ x. (table.find_first id x).0 ≡ ok (some (row_of id ms))) (state_eq e)
        (ap (λ (o : Option (List ChatMessage)). ok (found_row id o)) (lookup-insert_self id ms s)),
    refl,
  );
}

abbrev hello : List ChatMessage
hello =
    record { role = Role.user; content = units "hi"; tool_calls = none; tool_call_id = none } ∷ []

-- Two tenants with a conversation each, in the database in memory.
abbrev row : String → String → List ChatMessage → Fields
row id tenant_id ms =
    field "id" (str (units id))
      (field "tenantId" (str (units tenant_id)) (field "messages" (arr (to_json_value ms)) end))

abbrev tables : Tables
tables model = if str_eq model "Conversation" then row "c" "a" [] ∷ row "d" "b" hello ∷ [] else []

abbrev request : TenantContext
request = record { tenant_id = "a"; user_id = none; role = none }

abbrev own_table : ConversationTable Tables
own_table = conversation_table memory (some request)

abbrev holding : List ChatMessage → Conversation
holding ms = record { id = "c"; messages = StoredMessages.messages ms }

-- The states after a search and after an update, and a search after that.
abbrev searched : Tables → Tables
searched s = (find_conversation own_table "c" s).1

abbrev updated : Tables
updated = (update_messages_of own_table "c" hello none tables).1

finds : find_conversation own_table "c" tables ≡ (ok (holding []), searched tables)
unfolding find_conversation find_first update_messages_of update_row all_operations scoped_as
    active_tenant get_tenant_id memory plan found_or_throw matches apply_tenant_scope
    scope_operation stamp_clause stamp set_field is_text same_text decode decode_from char_of
    calls_in messages_in calls_json to_json_value overlay to_messages own_id
finds = refl

find_conversation-own_example :
    FoundOwn memory view memory-Database request "c" tables (holding []) (searched tables)
find_conversation-own_example =
    find_conversation-own memory view memory-Database request "c" tables finds
