-- ===== src/Tools/Execute.antt =====
-- src/agent/tools/tool-registry.service.ts: `truncateResult` and `ToolRegistry.execute`.
pub mod Results
use agentdesk_nestjs.Base.{
  same_text, ℕ, ◌++◌, Option, none, some, String, Text, units, decimal, length, slice_to, leb,
  if◌then◌else◌, Action, ◌>>=◌, pure, try_catch, message_of,
}
use agentdesk_nestjs.Json.{Json, bool, num, numeral, str, Fields, stringify}
use agentdesk_nestjs.Tools.{
  validation_error, internal_error, ToolResult, success, failure, Tool, Parsed, parsed, invalid,
  SchemaLibrary, Registry, get_tool,
}

abbrev pub max_result_chars : ℕ
max_result_chars = 4000

abbrev pub notice_head : Text
notice_head = units "\n\n[Result truncated — "

abbrev pub notice_tail : Text
notice_tail = units " chars total. Refine your search to get fewer results.]"

unfoldable pub truncate_result : Text → Text
truncate_result text =
    if leb (length text) max_result_chars
    then text
    else slice_to max_result_chars text ++ (notice_head ++ (decimal (length text) ++ notice_tail))

-- What becomes of the data when `typeof data === 'object'`, null included.
unfoldable pub shorten_object : Json → Json
shorten_object value =
    let text = stringify value in
    let truncated = truncate_result text in
    if same_text truncated text then value else str truncated

unfoldable pub shorten : Json → Json
shorten (str text) = str (truncate_result text)
shorten (bool b) = bool b
shorten (num n) = num n
shorten (numeral t) = numeral t
shorten value = shorten_object value

unfoldable pub shorten_result : ToolResult → ToolResult
shorten_result (success value) = success (shorten value)
shorten_result (failure e) = failure e

abbrev pub unknown_tool : String → ToolResult
unknown_tool name =
    failure (record { code = validation_error; message = units "Unknown tool: " ++ units name })

abbrev pub invalid_input : String → Text → ToolResult
invalid_input name reason = failure (record {
  code = validation_error;
  message = units "Invalid input for " ++ (units name ++ (units ": " ++ reason));
})

module _ {Schema S : Type 0} where
  -- The `try` block: a throw of the tool becomes an INTERNAL_ERROR.
  unfoldable pub run_tool : Tool Schema S → Fields → Action S ToolResult
  run_tool tool input =
      try_catch (tool.execute input >>= λ result. pure (shorten_result result))
        (λ err. pure (failure (record { code = internal_error; message = message_of err })))

  -- What becomes of a call once its input is parsed.
  unfoldable pub run_parsed : String → Tool Schema S → Parsed → Action S ToolResult
  run_parsed name tool (invalid reason) = pure (invalid_input name reason)
  run_parsed name tool (parsed fields) = run_tool tool fields

  -- What becomes of a call once its tool is looked up.
  unfoldable pub dispatch :
      SchemaLibrary Schema → String → Option (Tool Schema S) → Fields → Action S ToolResult
  dispatch zod name none input = pure (unknown_tool name)
  dispatch zod name (some tool) input =
      run_parsed name tool (zod.safe_parse tool.input_schema input)

  unfoldable pub execute :
      SchemaLibrary Schema → Registry Schema S → String → Fields → Action S ToolResult
  execute zod tools name input = dispatch zod name (get_tool name tools) input
