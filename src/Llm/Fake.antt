-- ===== src/Llm/Fake.antt =====
-- src/llm/fake-llm.provider.ts: the provider that replays recorded responses.
pub mod Matching
use agentdesk_nestjs.Base.{
  ◌≡◌, ◌≢◌, ◌↔◌, ◌∙◌, eq_iff, refl, ◌⊎◌, inl, inr, Bool, true, false, ◌&&◌, not, List, [], ◌∷◌,
  ◌++◌, Option, none, some, or_else, String, Text, units, str_eq, includes, slice_to, concat_map,
  last?, find, All, if◌then◌else◌, Action, Result, ok, raise, failure, Exception, ap,
}
use agentdesk_nestjs.Json.{str, stringify}
use agentdesk_nestjs.Llm.{Role, LlmToolCall, ChatMessage, LlmRequest, LlmResponse}

pub record CassetteMatch : Type 0 where
  pub model : Option String
  pub has_tool_calls : Option Bool
  pub tool_name : Option String
  pub includes_text : Option Text

pub record LlmCassette : Type 0 where
  pub match_on : CassetteMatch
  pub response : LlmResponse

unfoldable pub collect_tool_calls : List ChatMessage → List LlmToolCall
collect_tool_calls = concat_map (λ (m : ChatMessage). or_else m.tool_calls [])

abbrev pub is_user : ChatMessage → Bool
is_user m = elim m.role [ Role.user ↦ true | _ ↦ false ]

-- The content of the last user message.
unfoldable pub last_user : List ChatMessage → Option Text
last_user [] = none
last_user (m ∷ ms) = elim (last_user ms) [
  | some content ↦ some content
  | none ↦ if is_user m then some m.content else none
]

-- `===` on booleans.
abbrev pub same_flag : Bool → Bool → Bool
same_flag true b = b
same_flag false b = not b

abbrev pub is_called : String → Option LlmToolCall → Bool
is_called name none = false
is_called name (some tc) = str_eq tc.name name

abbrev pub says_text : Text → Option Text → Bool
says_text part none = false
says_text part (some content) = includes content part

-- A field that is not set matches everything.
abbrev pub when_set : {A : Type 0} → (A → Bool) → Option A → Bool
when_set test none = true
when_set test (some a) = test a

abbrev pub some_call : List LlmToolCall → Bool
some_call [] = false
some_call (tc ∷ tcs) = true

unfoldable pub matches_cassette : {Schema : Type 0} → CassetteMatch → LlmRequest Schema → Bool
matches_cassette m request =
    let calls = collect_tool_calls request.messages in
    when_set (λ model. str_eq model request.model) m.model
    && (when_set (λ flag. same_flag flag (some_call calls)) m.has_tool_calls
        && (when_set (λ name. is_called name (last? calls)) m.tool_name
            && when_set (λ part. says_text part (last_user request.messages)) m.includes_text))

-- The provider's state, with its settings.
pub record FakeLlmProvider (Schema : Type 0) : Type 0 where
  pub cassettes : List LlmCassette
  pub strict : Bool
  pub default_response : Option LlmResponse
  pub requests : List (LlmRequest Schema)

abbrev last_tool : Option LlmToolCall → Text
last_tool none = []
last_tool (some tc) = units " lastTool=" ++ units tc.name

abbrev pub hit : Option LlmCassette → Result LlmResponse → Result LlmResponse
hit none otherwise = otherwise
hit (some c) otherwise = ok c.response

module _ {Schema : Type 0} where
  unfoldable pub add_cassettes : List LlmCassette → FakeLlmProvider Schema → FakeLlmProvider Schema
  add_cassettes more p = record p { cassettes = p.cassettes ++ more }

  unfoldable pub add : LlmCassette → FakeLlmProvider Schema → FakeLlmProvider Schema
  add cassette p = record p { cassettes = p.cassettes ++ cassette ∷ [] }

  unfoldable pub clear : FakeLlmProvider Schema → FakeLlmProvider Schema
  clear p = record p { cassettes = []; requests = [] }

  unfoldable pub describe : LlmRequest Schema → Text
  describe request =
      units "model="
      ++ (units request.model
          ++ (last_tool (last? (collect_tool_calls request.messages))
              ++ (units " includes="
                  ++ stringify (str (slice_to 60 (or_else (last_user request.messages) []))))))

  abbrev pub no_cassette : LlmRequest Schema → Exception
  no_cassette request = failure (
      units "FakeLlmProvider: no cassette matches the request \""
      ++ (describe request ++ units "\""))

  abbrev pub fallback : Bool → Option LlmResponse → LlmRequest Schema → Result LlmResponse
  fallback true default_response request = raise (no_cassette request)
  fallback false none request = raise (no_cassette request)
  fallback false (some response) request = ok response

  unfoldable pub complete : LlmRequest Schema → Action (FakeLlmProvider Schema) LlmResponse
  complete request p = (
    hit (find (λ c. matches_cassette c.match_on request) p.cassettes)
        (fallback p.strict p.default_response request),
    record p { requests = p.requests ++ request ∷ [] },
  )
