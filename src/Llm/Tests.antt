-- ===== src/Llm/Tests.antt =====
-- The providers on small inputs, and each theorem about them at a concrete one.
use agentdesk_nestjs.Base.{
  ◌≡◌, refl, Action, true, false, concat_map, map, List, [], ◌∷◌, none, some, units, ok, str_eq,
  if◌then◌else◌, ℕ, same_text, decode, decode_from, char_of,
}
use agentdesk_nestjs.Json.{Json, null, num, str, arr, obj, nil, cons, end, field, set_field}
use agentdesk_nestjs.Json.Lex.{
  lex, step, begin, read_literal, read_natural, read_digits, is_number_from, number_step,
}
use agentdesk_nestjs.Json.Parse.{parse, read_tokens, read_token}
use agentdesk_nestjs.Json.RoundTrip.{IsExact}
use agentdesk_nestjs.Llm.{Role, LlmStopReason, ChatMessage, LlmRequest, LlmResponse, LlmToolCall}
use agentdesk_nestjs.Llm.Fake.{FakeLlmProvider, complete}
use agentdesk_nestjs.Llm.OpenAi
use agentdesk_nestjs.Llm.OpenAi.{to_open_ai_messages, OpenAiRequest}
use agentdesk_nestjs.Llm.OpenAi.Response
use agentdesk_nestjs.Llm.OpenAi.Response.{
  Choice, ChatCompletion, function, custom, parse_arguments, arguments_of, from_choice,
}
use agentdesk_nestjs.Llm.OpenAi.Calls.{
  sent_back, as_read, Outcome, complete-sent_back, complete-Ends,
}
use agentdesk_nestjs.Llm.Anthropic.{to_anthropic_message}
use agentdesk_nestjs.Settings.{Environment, settings}
use agentdesk_nestjs.Llm.Factory.{
  IsNamed, open_ai_compatible, create_llm_provider, create_llm_provider-IsNamed,
}
use agentdesk_nestjs.Agent.Approval.{answered_ids, assistant_calls}
use agentdesk_nestjs.Llm.Wire.{
  open_ai_calls, open_ai_answers, anthropic_calls, anthropic_answers, call_ids,
  providers-same_calls,
}

abbrev history : List ChatMessage
history =
    record { role = Role.user; content = units "hi"; tool_calls = none; tool_call_id = none }
    ∷ record {
      role = Role.assistant;
      content = [];
      tool_calls = some (record { id = "t1"; name = "count"; arguments = end } ∷ []);
      tool_call_id = none;
    }
    ∷ record { role = Role.tool; content = units "5"; tool_calls = none; tool_call_id = some "t1" }
    ∷ []

abbrev request : LlmRequest (Unit {0})
request = record {
  model = "m";
  system = some (units "help");
  messages = history;
  tools = none;
  max_tokens = none;
}

abbrev answer : LlmResponse
answer = record {
  content = units "hello";
  tool_calls = [];
  stop_reason = LlmStopReason.end_turn;
  usage = record { input_tokens = 1; output_tokens = 1 };
  model = "m";
}

abbrev fake : FakeLlmProvider (Unit {0})
fake = record {
  cassettes =
      record {
        match_on = record {
          model = none;
          has_tool_calls = some false;
          tool_name = none;
          includes_text = none;
        };
        response = answer;
      }
      ∷ record {
        match_on = record {
          model = some "m";
          has_tool_calls = none;
          tool_name = some "count";
          includes_text = some (units "hi");
        };
        response = answer;
      }
      ∷ [];
  strict = true;
  default_response = none;
  requests = [];
}

providers-same_calls_example :
    ((concat_map open_ai_calls (to_open_ai_messages request) ≡ call_ids (assistant_calls history))
      × (concat_map open_ai_answers (to_open_ai_messages request) ≡ answered_ids history))
    × (concat_map anthropic_calls (map to_anthropic_message history)
        ≡ call_ids (assistant_calls history))
    × (concat_map anthropic_answers (map to_anthropic_message history) ≡ answered_ids history)
providers-same_calls_example = providers-same_calls request (tt, (tt, ((λ e. cc e), tt)))

-- The chat-completions API, which answers with a call of the model and one of another type.
abbrev counting : LlmToolCall
counting = record {
  id = "t2";
  name = "count";
  arguments = field "of" (str (units "a\"b")) (field "most" (num 3) end);
}

abbrev choice : Choice
choice = record {
  content = none;
  tool_calls = some (map sent_back (counting ∷ []));
  finish_reason = some "tool_calls";
}

abbrev completion : ChatCompletion
completion = record { choices = choice ∷ []; usage = none; model = "m" }

abbrev create : OpenAiRequest → Action (Unit {0}) ChatCompletion
create sent s = (ok completion, s)

abbrev no_schema : Unit {0} → Json
no_schema _ = obj end

complete-sent_back_example :
    OpenAi.Response.complete no_schema create "m" 9 request tt
    ≡ (ok (record (from_choice completion choice) { tool_calls = map as_read (counting ∷ []) }), tt)
unfolding IsExact set_field
complete-sent_back_example =
    complete-sent_back no_schema create "m" 9 (counting ∷ []) choice [] completion request tt tt
      (((refl, (refl, tt)), (tt, (tt, tt))), tt) refl refl refl

abbrev odd_choice : Choice
odd_choice = record {
  content = none;
  tool_calls = some (
      function "t3" "count" (some (str (units "{\"of\":")))
      ∷ custom "t4"
      ∷ function "t5" "count" (some (str (units "[1]")))
      ∷ []);
  finish_reason = none;
}

abbrev odd_completion : ChatCompletion
odd_completion = record { choices = odd_choice ∷ []; usage = none; model = "m" }

complete-Ends_example :
    Outcome odd_completion tt
      (OpenAi.Response.complete no_schema (λ sent s. (ok odd_completion, s)) "m" 9 request tt)
complete-Ends_example =
    complete-Ends no_schema (λ sent s. (ok odd_completion, s)) "m" 9 odd_completion request tt tt
      ((tt, (tt, (tt, tt))), tt) refl

parse_arguments_examples :
    (parse_arguments (some (str (units "{\"of\":"))) ≡ obj end)
    × (parse_arguments (some (str (units "[1]"))) ≡ arr (cons (num 1) nil))
    × (parse_arguments (some (str (units "null"))) ≡ obj (field "value" null end))
    × (parse_arguments (some (str (units " {\"a\": 1 }"))) ≡ obj (field "a" (num 1) end))
unfolding parse_arguments arguments_of parse lex step begin read_literal read_natural read_digits
    is_number_from number_step same_text read_tokens read_token set_field decode decode_from char_of
parse_arguments_examples = (refl, refl, refl, refl)

-- An environment that names Groq.
abbrev with_groq : Environment
with_groq name =
    if str_eq name "LLM_PROVIDER"
    then some "groq"
    else if str_eq name "GROQ_API_KEY"
    then some "key"
    else none

create_llm_provider-IsNamed_example :
    IsNamed {Schema = Unit {0}} with_groq
      (open_ai_compatible "key" "https://api.groq.com/openai/v1" "openai/gpt-oss-120b" 1024 "groq")
unfolding create_llm_provider settings
create_llm_provider-IsNamed_example =
    create_llm_provider-IsNamed {Schema = Unit {0}} {Num = ℕ} (λ _. 0) (λ n. n) with_groq
      (open_ai_compatible "key" "https://api.groq.com/openai/v1" "openai/gpt-oss-120b" 1024 "groq")
      refl
