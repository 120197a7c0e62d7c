-- ===== src/Llm/OpenAi/Response.antt =====
-- src/llm/openai-compatible.provider.ts: `complete` and `parseArguments`, over the client of the
-- API, which is a parameter.
use agentdesk_nestjs.Base.{
  ℕ, List, [], ◌∷◌, Option, none, some, or_else, String, Text, units, concat_map, Action, Exception,
  failure, ◌>>=◌, pure, throw,
}
use agentdesk_nestjs.Json.{Json, null, str, arr, obj, end, field}
use agentdesk_nestjs.Json.Parse.{parse}
use agentdesk_nestjs.Llm.{LlmStopReason, LlmUsage, LlmRequest}
use agentdesk_nestjs.Llm.OpenAi.{OpenAiRequest, open_ai_request, map_finish_reason}

-- A tool call as the API answers it: of the type `function`, with its id, its name and its
-- arguments if there are any, or of another type.
pub data CompletionCall : Type 0 where
  function : String → String → Option Json → CompletionCall
  custom : String → CompletionCall

pub record Choice : Type 0 where
  pub content : Option Text
  pub tool_calls : Option (List CompletionCall)
  pub finish_reason : Option String

pub record ChatCompletion : Type 0 where
  pub choices : List Choice
  pub usage : Option LlmUsage
  pub model : String

-- What a text stands for: an object or a list is taken as it is, another value is wrapped, and a
-- text that is no JSON gives no arguments.
unfoldable pub arguments_of : Option Json → Json
arguments_of none = obj end
arguments_of (some (obj fs)) = obj fs
arguments_of (some (arr xs)) = arr xs
arguments_of (some v) = obj (field "value" v end)

unfoldable pub parse_arguments : Option Json → Json
unfolding arguments_of
parse_arguments none = obj end
parse_arguments (some null) = obj end
parse_arguments (some (str raw)) = arguments_of (parse raw)
parse_arguments (some v) = v

-- A tool call of the response. The source types its arguments as a record by a cast, which lets a
-- list through.
pub record ReadCall : Type 0 where
  pub id : String
  pub name : String
  pub arguments : Json

-- The response, with such calls.
pub record ReadResponse : Type 0 where
  pub content : Text
  pub tool_calls : List ReadCall
  pub stop_reason : LlmStopReason
  pub usage : LlmUsage
  pub model : String

abbrev pub read_call : CompletionCall → List ReadCall
read_call (function id name raw) =
    record { id = id; name = name; arguments = parse_arguments raw } ∷ []
read_call (custom id) = []

abbrev pub absent_usage : LlmUsage
absent_usage = record { input_tokens = 0; output_tokens = 0 }

abbrev pub from_choice : ChatCompletion → Choice → ReadResponse
from_choice completion choice = record {
  content = or_else choice.content [];
  tool_calls = concat_map read_call (or_else choice.tool_calls []);
  stop_reason = map_finish_reason choice.finish_reason;
  usage = or_else completion.usage absent_usage;
  model = completion.model;
}

-- `choices[0]` of an empty list is undefined.
abbrev pub no_choice : Exception
no_choice = failure (units "Cannot read properties of undefined (reading 'message')")

abbrev pub first_choice : {P : Type 0} → ChatCompletion → List Choice → Action P ReadResponse
first_choice completion [] = throw no_choice
first_choice completion (choice ∷ more) = pure (from_choice completion choice)

module _ {Schema P : Type 0} (to_json_schema : Schema → Json)
    (create : OpenAiRequest → Action P ChatCompletion) (default_model : String)
    (default_max_tokens : ℕ) where
  unfoldable pub complete : LlmRequest Schema → Action P ReadResponse
  complete request =
      create (open_ai_request to_json_schema default_model default_max_tokens request)
      >>= λ completion. first_choice completion completion.choices
