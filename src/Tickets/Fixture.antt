-- ===== src/Tickets/Fixture.antt =====
-- Two tenants with a ticket each, and an agent over the ticket tools.
use agentdesk_nestjs.Base.{
  true, List, [], ◌∷◌, none, some, String, units, str_eq, ok, if◌then◌else◌,
}
use agentdesk_nestjs.Json.{num, str, Fields, end, field}
use agentdesk_nestjs.Llm.{Role, LlmToolCall, ChatMessage}
use agentdesk_nestjs.Tools.{parsed, SchemaLibrary}
use agentdesk_nestjs.Conversation.{StoredMessages, Conversations}
use agentdesk_nestjs.Tenancy.Memory.{Table, Tables, view}
use agentdesk_nestjs.Tickets.AgentTools.{ZodObject}
use agentdesk_nestjs.Tickets.Turns.{LeavesTickets}
use agentdesk_nestjs.Agent.{World, AgentService}
use agentdesk_nestjs.Agent.Approval.{ApproveDecision}
use agentdesk_nestjs.Agent.Fixture.{Script, replay, asks_for, says}

abbrev pub ticket : String → String → Fields
ticket id tenant_id =
    field "id" (str (units id))
      (field "status" (str (units "open")) (field "tenantId" (str (units tenant_id)) end))

abbrev pub ours : Fields
ours = ticket "x" "a"

abbrev pub theirs : Fields
theirs = ticket "y" "b"

abbrev pub table : Table
table = ours ∷ theirs ∷ []

abbrev pub tables : Tables
tables m = if str_eq m "Ticket" then table else []

abbrev pub asks_to_delete : String → LlmToolCall
asks_to_delete id = record {
  id = "t1";
  name = "delete_ticket";
  arguments = field "ticketId" (str (units id)) end;
}

-- A conversation that waits for the approval of a deletion.
abbrev pub paused_on : String → List ChatMessage
paused_on id =
    record {
      role = Role.assistant;
      content = [];
      tool_calls = some (asks_to_delete id ∷ []);
      tool_call_id = none;
    }
    ∷ []

-- A store that always holds that conversation.
abbrev pub fixed : Conversations Tables
fixed = record {
  find = λ id s. (ok (record { id = id; messages = StoredMessages.messages (paused_on "y") }), s);
  create = λ ms _ s. (ok (record { id = "new"; messages = ms }), s);
  update_messages = λ id ms _ s. (ok ms, s);
}

pub fixed-Leaves : LeavesTickets view fixed
fixed-Leaves fs = record {
  find_keeps = λ id s h. h;
  create_keeps = λ messages user_id s h. h;
  update_keeps = λ id messages status s h. h;
}

abbrev pub accepting : SchemaLibrary ZodObject
accepting = record { safe_parse = λ schema input. parsed input; to_json_schema = λ _. num 0 }

abbrev pub helpdesk : AgentService ZodObject Tables Script
helpdesk = record {
  llm = λ _. replay;
  registry = [];
  zod = accepting;
  conversations = fixed;
  budget = record { max_iterations = 3; max_total_tokens = 100; max_wall_clock_ms = 1000 };
  default_system_prompt = units "help";
  max_retries = 2;
  model = "m";
  now = λ n. n;
  completes = λ _. [];
}

-- The model asks to delete a ticket of the other tenant, and then stops.
abbrev pub desk : World Tables Script
desk = record {
  store = tables;
  provider = some (asks_for (asks_to_delete "y" ∷ [])) ∷ some (says "done") ∷ [];
  events = [];
  clock = 0;
  delays = [];
}

abbrev pub approval : List ApproveDecision
approval = record { tool_call_id = "t1"; approved = true } ∷ []
