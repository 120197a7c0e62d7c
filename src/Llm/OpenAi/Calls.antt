-- ===== src/Llm/OpenAi/Calls.antt =====
-- What the chat-completions provider makes of the calls that the API answers.
use mathlib.Core.Path.{ap₂}
use agentdesk_nestjs.Base.{
  ℕ, ◌≡◌, refl, ap, ◌∙◌, ◌⊎◌, inl, inr, List, [], ◌∷◌, map, concat_map, Option, none, some, or_else,
  String, All, Action, ok, raise, proceed, Result,
}
use agentdesk_nestjs.Json.{Json, null, bool, num, numeral, str, arr, obj, Items, Fields}
use agentdesk_nestjs.Json.Parse.{parse}
use agentdesk_nestjs.Json.RoundTrip.{IsExact}
use agentdesk_nestjs.Json.RoundTrip.Whole.{parse-stringify}
use agentdesk_nestjs.Llm.{LlmToolCall, LlmRequest}
use agentdesk_nestjs.Llm.OpenAi.{OpenAiRequest, open_ai_request, to_open_ai_call}
use agentdesk_nestjs.Llm.OpenAi.Response.{
  CompletionCall, function, custom, Choice, ChatCompletion, arguments_of, parse_arguments, ReadCall,
  ReadResponse, read_call, no_choice, first_choice, from_choice, complete,
}

-- A call as the API gives it back, its arguments being the text that was sent.
abbrev pub sent_back : LlmToolCall → CompletionCall
sent_back call =
    let sent = to_open_ai_call call in function sent.id sent.name (some (str sent.arguments))

abbrev pub as_read : LlmToolCall → ReadCall
as_read call = record { id = call.id; name = call.name; arguments = obj call.arguments }

-- The arguments have no key twice, and numbers as JSON writes them.
abbrev pub KeptArguments : LlmToolCall → Type 0
KeptArguments call = IsExact (obj call.arguments)

abbrev as_call : LlmToolCall → Json → ReadCall
as_call call v = record { id = call.id; name = call.name; arguments = v }

read-sent :
    (calls : List LlmToolCall)
    → All KeptArguments calls
    → concat_map read_call (map sent_back calls) ≡ map as_read calls
unfolding parse_arguments arguments_of
read-sent [] kept = refl
read-sent (call ∷ calls) kept =
    ap₂ (λ (v : Json) (later : List ReadCall). as_call call v ∷ later)
      (ap arguments_of (parse-stringify (obj call.arguments) kept.0)) (read-sent calls kept.1)

-- The arguments of a call are an object or a list.
abbrev pub IsContainer : Json → Type 0
IsContainer v = ((fs : Fields) × (v ≡ obj fs)) ⊎ ((xs : Items) × (v ≡ arr xs))

arguments_of-IsContainer : (v : Option Json) → IsContainer (arguments_of v)
unfolding arguments_of
arguments_of-IsContainer none = inl (_, refl)
arguments_of-IsContainer (some null) = inl (_, refl)
arguments_of-IsContainer (some (bool b)) = inl (_, refl)
arguments_of-IsContainer (some (num n)) = inl (_, refl)
arguments_of-IsContainer (some (numeral t)) = inl (_, refl)
arguments_of-IsContainer (some (str t)) = inl (_, refl)
arguments_of-IsContainer (some (arr xs)) = inr (xs, refl)
arguments_of-IsContainer (some (obj fs)) = inl (fs, refl)

-- The arguments are absent, null, a text, an object or a list.
abbrev pub IsUsual : Option Json → Type 0
IsUsual (some (bool b)) = ⊥
IsUsual (some (num n)) = ⊥
IsUsual (some (numeral t)) = ⊥
IsUsual _ = Unit

parse_arguments-IsContainer : (raw : Option Json) → IsUsual raw → IsContainer (parse_arguments raw)
unfolding parse_arguments
parse_arguments-IsContainer none usual = inl (_, refl)
parse_arguments-IsContainer (some null) usual = inl (_, refl)
parse_arguments-IsContainer (some (str raw)) usual = arguments_of-IsContainer (parse raw)
parse_arguments-IsContainer (some (obj fs)) usual = inl (fs, refl)
parse_arguments-IsContainer (some (arr xs)) usual = inr (xs, refl)
parse_arguments-IsContainer (some (bool b)) usual = elim usual [ ]
parse_arguments-IsContainer (some (num n)) usual = elim usual [ ]
parse_arguments-IsContainer (some (numeral t)) usual = elim usual [ ]

abbrev pub HasUsual : CompletionCall → Type 0
HasUsual (function id name raw) = IsUsual raw
HasUsual (custom id) = Unit

-- The ids of the calls of functions.
abbrev pub function_ids : List CompletionCall → List String
function_ids [] = []
function_ids (function id name raw ∷ calls) = id ∷ function_ids calls
function_ids (custom id ∷ calls) = function_ids calls

-- The calls read are those of the functions, and each has arguments.
abbrev pub ReadsCalls : List CompletionCall → List ReadCall → Type 0
ReadsCalls calls read =
    (map (λ call. call.id) read ≡ function_ids calls)
    × All (λ call. IsContainer call.arguments) read

read-ReadsCalls :
    (calls : List CompletionCall)
    → All HasUsual calls
    → ReadsCalls calls (concat_map read_call calls)
read-ReadsCalls [] usual = (refl, tt)
read-ReadsCalls (custom id ∷ calls) usual = read-ReadsCalls calls usual.1
read-ReadsCalls (function id name raw ∷ calls) usual =
    let (ids, later) = read-ReadsCalls calls usual.1 in
    (ap (λ (l : List String). id ∷ l) ids, (parse_arguments-IsContainer raw usual.0, later))

-- What comes of an answer: a throw if it has no choice, and a response otherwise.
abbrev pub Outcome : {P : Type 0} → ChatCompletion → P → Result ReadResponse × P → Type 0
Outcome completion t end =
    ((completion.choices ≡ []) × (end ≡ (raise no_choice, t)))
    ⊎ ((choice : Choice) × (more : List Choice) × (response : ReadResponse) × (completion.choices
          ≡ choice ∷ more)
        × (end ≡ (ok response, t))
        × ReadsCalls (or_else choice.tool_calls []) response.tool_calls)

module _ {Schema P : Type 0} (to_json_schema : Schema → Json)
    (create : OpenAiRequest → Action P ChatCompletion) (default_model : String)
    (default_max_tokens : ℕ) where
  complete-answered :
      (request : LlmRequest Schema) (completion : ChatCompletion) (s t : P)
      → create (open_ai_request to_json_schema default_model default_max_tokens request) s
        ≡ (ok completion, t)
      → complete to_json_schema create default_model default_max_tokens request s
        ≡ first_choice completion completion.choices t
  unfolding complete
  complete-answered request completion s t answered =
      ap
        (λ (p : Result ChatCompletion × P).
          proceed p.0 p.1 (λ completion. first_choice completion completion.choices))
        answered

  -- If the first choice that the API answers has tool calls as the provider sends them, whose
  -- arguments have no key twice and numbers as JSON writes them, then `complete` returns exactly
  -- these calls with their arguments, and leaves the state as the API left it: what `JSON.stringify`
  -- writes into a request is read back by `parseArguments`.
  pub complete-sent_back :
      (calls : List LlmToolCall) (choice : Choice) (more : List Choice)
      (completion : ChatCompletion) (request : LlmRequest Schema) (s t : P)
      → All KeptArguments calls
      → completion.choices ≡ choice ∷ more
      → choice.tool_calls ≡ some (map sent_back calls)
      → create (open_ai_request to_json_schema default_model default_max_tokens request) s
        ≡ (ok completion, t)
      → complete to_json_schema create default_model default_max_tokens request s
        ≡ (ok (record (from_choice completion choice) { tool_calls = map as_read calls }), t)
  complete-sent_back calls choice more completion request s t kept chosen sent answered =
      complete-answered request completion s t answered
      ∙ ap (λ (l : List Choice). first_choice completion l t) chosen
      ∙ ap
          (λ (l : List ReadCall).
            (ok (record (from_choice completion choice) { tool_calls = l }), t))
          (ap (λ (l : Option (List CompletionCall)). concat_map read_call (or_else l [])) sent
            ∙ read-sent calls kept)

  -- If the API answers, and the arguments of every call are absent, null, a text, an object or a
  -- list, then `complete` ends: with no choice it throws; otherwise, whatever the texts hold, it
  -- returns the calls of functions of the first choice in their order, each with an object or a list
  -- for its arguments.
  pub complete-Ends :
      (completion : ChatCompletion) (request : LlmRequest Schema) (s t : P)
      → All (λ choice. All HasUsual (or_else choice.tool_calls [])) completion.choices
      → create (open_ai_request to_json_schema default_model default_max_tokens request) s
        ≡ (ok completion, t)
      → Outcome completion t
          (complete to_json_schema create default_model default_max_tokens request s)
  complete-Ends completion request s t usual answered = by_choices completion.choices usual refl
    where
      ends :
          complete to_json_schema create default_model default_max_tokens request s
          ≡ first_choice completion completion.choices t
      ends = complete-answered request completion s t answered

      by_choices :
          (choices : List Choice)
          → All (λ choice. All HasUsual (or_else choice.tool_calls [])) choices
          → completion.choices ≡ choices
          → Outcome completion t
              (complete to_json_schema create default_model default_max_tokens request s)
      by_choices [] usual e =
          inl (e, ends ∙ ap (λ (l : List Choice). first_choice completion l t) e)
      by_choices (choice ∷ more) usual e = inr (
        choice,
        more,
        from_choice completion choice,
        e,
        ends ∙ ap (λ (l : List Choice). first_choice completion l t) e,
        read-ReadsCalls (or_else choice.tool_calls []) usual.0,
      )
