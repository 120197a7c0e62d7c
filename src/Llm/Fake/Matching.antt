-- ===== src/Llm/Fake/Matching.antt =====
-- Which cassette of src/llm/fake-llm.provider.ts answers a request.
use agentdesk_nestjs.Base.{
  ◌≡◌, ◌≢◌, ◌⊎◌, Bool, true, false, List, [], ◌∷◌, ◌++◌, Option, none, some, String, Text, includes,
  All, Result, ok, raise,
}
use agentdesk_nestjs.Llm.{LlmToolCall, LlmRequest, LlmResponse}
use agentdesk_nestjs.Llm.Fake.{
  CassetteMatch, LlmCassette, FakeLlmProvider, collect_tool_calls, last_user, no_cassette,
}

abbrev pub SaysCalls : Option Bool → List LlmToolCall → Type 0
SaysCalls none calls = Unit
SaysCalls (some true) calls = calls ≢ []
SaysCalls (some false) calls = calls ≡ []

abbrev pub SaysTool : Option String → List LlmToolCall → Type 0
SaysTool none calls = Unit
SaysTool (some name) calls =
    (before : List LlmToolCall) × (tc : LlmToolCall) × (calls ≡ before ++ tc ∷ [])
    × (tc.name ≡ name)

abbrev pub SaysText : Option Text → Option Text → Type 0
SaysText none content = Unit
SaysText (some part) content = (said : Text) × (content ≡ some said) × (includes said part ≡ true)

module _ {Schema : Type 0} where
  -- What the fields of a match say of a request, each of those that are set: the model is the
  -- request's, the history has calls or has none, its last call is of the tool, and the last message
  -- of the user includes the text.
  abbrev pub SaysModel : Option String → LlmRequest Schema → Type 0
  SaysModel none request = Unit
  SaysModel (some model) request = model ≡ request.model

  abbrev pub Fits : CassetteMatch → LlmRequest Schema → Type 0
  Fits m request =
      SaysModel m.model request
      × SaysCalls m.has_tool_calls (collect_tool_calls request.messages)
      × SaysTool m.tool_name (collect_tool_calls request.messages)
      × SaysText m.includes_text (last_user request.messages)

  abbrev pub Misses : LlmRequest Schema → LlmCassette → Type 0
  Misses request c = ¬ Fits c.match_on request

  -- The cassette that answers is the first one that matches.
  abbrev pub FirstHit : LlmRequest Schema → List LlmCassette → LlmCassette → Type 0
  FirstHit request cassettes c =
      (before after : List LlmCassette) × (cassettes ≡ before ++ c ∷ after)
      × All (Misses request) before
      × Fits c.match_on request

  -- What a provider that no cassette helps answers: the default response of one that is not strict
  -- and has one, and otherwise it throws.
  abbrev pub FallsBack : FakeLlmProvider Schema → LlmRequest Schema → Result LlmResponse → Type 0
  FallsBack p request x =
      ((response : LlmResponse) × (p.strict ≡ false)
        × (p.default_response ≡ some response)
        × (x ≡ ok response))
      ⊎ (((p.strict ≡ true) ⊎ (p.default_response ≡ none)) × (x ≡ raise (no_cassette request)))
