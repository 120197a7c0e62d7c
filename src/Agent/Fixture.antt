-- ===== src/Agent/Fixture.antt =====
-- A small agent to run the theorems on: a counter with three tools, conversations in memory, and a
-- provider that replays a script.
use agentdesk_nestjs.Base.{
  ℕ, suc, Bool, true, false, List, [], ◌∷◌, Option, none, some, String, units, Dict, lookup, insert,
  Action, Result, ok, raise, not_found, failure, if◌then◌else◌,
}
use agentdesk_nestjs.Json.{num, end}
use agentdesk_nestjs.Llm.{Role, LlmStopReason, LlmToolCall, ChatMessage, LlmResponse}
use agentdesk_nestjs.Tools.{success, Tool, parsed, invalid, SchemaLibrary, Registry}
use agentdesk_nestjs.Conversation.{Conversation, StoredMessages, Conversations}
use agentdesk_nestjs.Agent.{World, AgentService, Run, fresh_acc}

pub record Memory : Type 0 where
  pub count : ℕ
  pub rows : Dict (List ChatMessage)

-- The schema `true` accepts every input, and `false` none.
abbrev pub toy_zod : SchemaLibrary Bool
toy_zod = record {
  safe_parse = λ accepts input. if accepts then parsed input else invalid (units "refused");
  to_json_schema = λ _. num 0;
}

abbrev toy_tool : String → Bool → Bool → (ℕ → ℕ) → String × Tool Bool Memory
toy_tool name mutating gated step = (
  name,
  record {
    name = name;
    description = name;
    input_schema = true;
    mutating = mutating;
    requires_approval = gated;
    execute = λ _ s. (ok (success (num s.count)), record s { count = step s.count });
  },
)

abbrev pub toy_registry : Registry Bool Memory
toy_registry =
    toy_tool "count" false false (λ n. n)
    ∷ toy_tool "add" true false (λ n. suc n)
    ∷ toy_tool "wipe" true true (λ _. 0)
    ∷ []

abbrev pub find_row : String → Option (List ChatMessage) → Result Conversation
find_row id none = raise (not_found (units "Conversation not found"))
find_row id (some ms) = ok (record { id = id; messages = StoredMessages.messages ms })

abbrev pub update_row :
    String → List ChatMessage → Option (List ChatMessage) → Action Memory (List ChatMessage)
update_row id ms none s = (raise (failure (units "No record was found")), s)
update_row id ms (some old) s = (ok ms, record s { rows = insert id ms s.rows })

abbrev pub toy_conversations : Conversations Memory
toy_conversations = record {
  find = λ id s. (find_row id (lookup id s.rows), s);
  create = λ ms _ s.
      (ok (record { id = "new"; messages = ms }), record s { rows = insert "new" ms s.rows });
  update_messages = λ id ms _ s. update_row id ms (lookup id s.rows) s;
}

-- The provider's state is what it will answer; `none` is a failing call.
abbrev pub Script : Type 0
Script = List (Option LlmResponse)

abbrev pub replay : Action Script LlmResponse
replay [] = (raise (failure (units "no answer")), [])
replay (none ∷ rest) = (raise (failure (units "overloaded")), rest)
replay (some response ∷ rest) = (ok response, rest)

abbrev pub toy_agent : AgentService Bool Memory Script
toy_agent = record {
  llm = λ _. replay;
  registry = toy_registry;
  zod = toy_zod;
  conversations = toy_conversations;
  budget = record { max_iterations = 3; max_total_tokens = 100; max_wall_clock_ms = 1000 };
  default_system_prompt = units "help";
  max_retries = 2;
  model = "m";
  now = λ n. n;
  completes = λ _. [];
}

abbrev pub call : String → String → LlmToolCall
call id name = record { id = id; name = name; arguments = end }

abbrev pub asks_for : List LlmToolCall → LlmResponse
asks_for calls = record {
  content = [];
  tool_calls = calls;
  stop_reason = LlmStopReason.tool_use;
  usage = record { input_tokens = 2; output_tokens = 1 };
  model = "m";
}

abbrev pub says : String → LlmResponse
says text = record {
  content = units text;
  tool_calls = [];
  stop_reason = LlmStopReason.end_turn;
  usage = record { input_tokens = 2; output_tokens = 1 };
  model = "m";
}

abbrev pub world_with : Script → Dict (List ChatMessage) → World Memory Script
world_with script rows = record {
  store = record { count = 5; rows = rows };
  provider = script;
  events = [];
  clock = 0;
  delays = [];
}

abbrev pub run_of : List ChatMessage → Run
run_of messages = record { messages = messages; acc = fresh_acc 0 }

-- A history with one call that waits for approval.
abbrev pub paused_history : List ChatMessage
paused_history =
    record { role = Role.user; content = units "clean up"; tool_calls = none; tool_call_id = none }
    ∷ record {
      role = Role.assistant;
      content = [];
      tool_calls = some (call "t1" "wipe" ∷ []);
      tool_call_id = none;
    }
    ∷ []
