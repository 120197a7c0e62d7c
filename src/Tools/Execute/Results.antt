-- ===== src/Tools/Execute/Results.antt =====
-- The results of the registry: how a call ends, and how large a text gets.
use agentdesk_nestjs.Base.{
  ℕ, zero, suc, ◌+◌, ◌≤◌, ◌<◌, ◌≡◌, refl, [], ◌∷◌, ◌++◌, Option, none, some, String, Text, units,
  same_text, ◌≢◌, sym, ◌∙◌, length, length-append, slice_to, decimal, ap, true, leb, Bool, Result,
  proceed, handle, pure, ok, raise, Exception, message_of, arith, Bool-cases, ◌⊎◌, inl, inr,
}
use agentdesk_nestjs.Json.{Json, null, bool, num, numeral, str, arr, obj, Fields, stringify}
use agentdesk_nestjs.Tools.{
  ToolResult, success, failure, validation_error, internal_error, Tool, Parsed, parsed, invalid,
  SchemaLibrary, Registry, get_tool,
}
use agentdesk_nestjs.Tools.Execute.{
  execute, dispatch, run_parsed, run_tool, shorten, shorten_object, shorten_result, unknown_tool,
  invalid_input, truncate_result, max_result_chars, notice_head, notice_tail,
}

slice_to-append :
    (n : ℕ) (t r : Text) → n ≤ length t → slice_to n (slice_to n t ++ r) ≡ slice_to n t
slice_to-append zero t r h = refl
slice_to-append (suc n) [] r h = ground arith
slice_to-append (suc n) (c ∷ t) r h = ap (λ (l : Text). c ∷ l) (slice_to-append n t r (omega arith))

slice_to-length : (n : ℕ) (t : Text) → n ≤ length t → length (slice_to n t) ≡ n
slice_to-length zero t h = refl
slice_to-length (suc n) [] h = ground arith
slice_to-length (suc n) (c ∷ t) h = omega (arith, slice_to-length n t (omega arith))

-- A text that is too long, shortened: its first 4000 units and the notice with its length.
abbrev pub cut : Text → Text
cut text =
    slice_to 4000 text
    ++ (units "\n\n[Result truncated — "
        ++ (decimal (length text)
            ++ units " chars total. Refine your search to get fewer results.]"))

-- A text of at most 4000 units is left alone, and a longer one is cut.
abbrev pub IsCut : Text → Text → Type 0
IsCut text t = ((length text ≤ 4000) × (t ≡ text)) ⊎ ((4000 < length text) × (t ≡ cut text))

pub truncate_result-IsCut : (text : Text) → IsCut text (truncate_result text)
unfolding truncate_result
truncate_result-IsCut text = elim (Bool-cases (leb (length text) max_result_chars)) [
  | inl short ↦ rw short (inl (ground arith, refl))
  | inr long ↦ rw long (inr (ground arith, refl))
]

-- Data of another kind, which is left alone if its text is, and becomes the cut text if not.
abbrev IsPacked : Json → Json → Type 0
IsPacked value v =
    (t : Text) × IsCut (stringify value) t
    × (((t ≡ stringify value) × (v ≡ value)) ⊎ ((t ≢ stringify value) × (v ≡ str t)))

-- What becomes of the data of a result.
abbrev IsShort : Json → Json → Type 0
IsShort (str text) v = (t : Text) × (v ≡ str t) × IsCut text t
IsShort (bool b) v = v ≡ bool b
IsShort (num n) v = v ≡ num n
IsShort (numeral t) v = v ≡ numeral t
IsShort null v = IsPacked null v
IsShort (arr items) v = IsPacked (arr items) v
IsShort (obj fields) v = IsPacked (obj fields) v

-- What becomes of a result: an error is left alone.
abbrev pub IsShortened : ToolResult → ToolResult → Type 0
IsShortened (success value) r = (v : Json) × (r ≡ success v) × IsShort value v
IsShortened (failure e) r = r ≡ failure e

eq_of_same_text : (s t : Text) → same_text s t ≡ true → s ≡ t
unfolding same_text
eq_of_same_text [] [] e = refl
eq_of_same_text [] (d ∷ t) e = cc e
eq_of_same_text (c ∷ s) [] e = cc e
eq_of_same_text (c ∷ s) (d ∷ t) e =
    let head : c ≡ d = ground arith in
    let rest : same_text s t ≡ true = ground arith in rw (head, eq_of_same_text s t rest) refl

same_text_self : (t : Text) → same_text t t ≡ true
unfolding same_text
same_text_self [] = refl
same_text_self (c ∷ t) = ground (arith, same_text_self t)

shorten_object-IsPacked : (value : Json) → IsPacked value (shorten_object value)
unfolding shorten_object
shorten_object-IsPacked value =
    let text = stringify value in
    elim (Bool-cases (same_text (truncate_result text) text)) [
      | inl same ↦ rw same (
        truncate_result text,
        truncate_result-IsCut text,
        inl (eq_of_same_text (truncate_result text) text same, refl),
      )
      | inr other ↦
          rw other
            (truncate_result text, truncate_result-IsCut text, inr ((λ e. differs e other), refl))
    ]
  where
    differs : {s t : Text} → s ≡ t → same_text s t ≡ Bool.false → ⊥
    differs {s} {t} e other =
        let self : same_text s t ≡ true = rw (← e) (same_text_self s) in cc (sym self ∙ other)

shorten-IsShort : (value : Json) → IsShort value (shorten value)
unfolding shorten
shorten-IsShort (str text) = (_, refl, truncate_result-IsCut text)
shorten-IsShort (bool b) = refl
shorten-IsShort (num n) = refl
shorten-IsShort (numeral t) = refl
shorten-IsShort null = shorten_object-IsPacked null
shorten-IsShort (arr items) = shorten_object-IsPacked (arr items)
shorten-IsShort (obj fields) = shorten_object-IsPacked (obj fields)

shorten_result-IsShortened : (r : ToolResult) → IsShortened r (shorten_result r)
unfolding shorten_result
shorten_result-IsShortened (success value) = (_, refl, shorten-IsShort value)
shorten_result-IsShortened (failure e) = refl

module _ {Schema S : Type 0} (zod : SchemaLibrary Schema) (tools : Registry Schema S)
    (name : String) (input : Fields) (s : S) where
  -- The ways in which a call of a tool can end: the result, and the state it leaves.
  pub data Executes (r : ToolResult) (t : S) : Type 0 where
    unknown :
        get_tool name tools ≡ none
        → r
          ≡ failure
              (record { code = validation_error; message = units "Unknown tool: " ++ units name })
        → t ≡ s
        → Executes r t
    refused :
        (tool : Tool Schema S) (reason : Text)
        → get_tool name tools ≡ some tool
        → zod.safe_parse tool.input_schema input ≡ invalid reason
        → r
          ≡ failure (record {
            code = validation_error;
            message = units "Invalid input for " ++ (units name ++ (units ": " ++ reason));
          })
        → t ≡ s
        → Executes r t
    threw :
        (tool : Tool Schema S) (fields : Fields) (e : Exception)
        → get_tool name tools ≡ some tool
        → zod.safe_parse tool.input_schema input ≡ parsed fields
        → tool.execute fields s ≡ (raise e, t)
        → r ≡ failure (record { code = internal_error; message = message_of e })
        → Executes r t
    ran :
        (tool : Tool Schema S) (fields : Fields) (result : ToolResult)
        → get_tool name tools ≡ some tool
        → zod.safe_parse tool.input_schema input ≡ parsed fields
        → tool.execute fields s ≡ (ok result, t)
        → IsShortened result r
        → Executes r t

  -- The call ends with a result, in one of these ways.
  abbrev pub Ends : Result ToolResult × S → Type 0
  Ends x = (r : ToolResult) × (x.0 ≡ ok r) × Executes r x.1

  run_tool-Ends :
      (tool : Tool Schema S) (fields : Fields)
      → get_tool name tools ≡ some tool
      → zod.safe_parse tool.input_schema input ≡ parsed fields
      → Ends (run_tool tool fields s)
  unfolding run_tool
  run_tool-Ends tool fields found accepted =
      caught (tool.execute fields s).0 (tool.execute fields s).1 refl
    where
      caught :
          (r : Result ToolResult) (t : S)
          → tool.execute fields s ≡ (r, t)
          → Ends (
              let (r', t') = proceed r t (λ result. pure (shorten_result result)) in
              handle r' t'
                λ err. pure (failure (record { code = internal_error; message = message_of err })))
      caught (ok result) t e = (
        shorten_result result,
        refl,
        ran tool fields result found accepted e (shorten_result-IsShortened result),
      )
      caught (raise x) t e = (_, refl, threw tool fields x found accepted e refl)

  run_parsed-Ends :
      (tool : Tool Schema S) (p : Parsed)
      → get_tool name tools ≡ some tool
      → zod.safe_parse tool.input_schema input ≡ p
      → Ends (run_parsed name tool p s)
  unfolding run_parsed
  run_parsed-Ends tool (invalid reason) found e =
      (invalid_input name reason, refl, refused tool reason found e refl refl)
  run_parsed-Ends tool (parsed fields) found e = run_tool-Ends tool fields found e

  dispatch-Ends :
      (o : Option (Tool Schema S)) → get_tool name tools ≡ o → Ends (dispatch zod name o input s)
  unfolding dispatch
  dispatch-Ends none e = (unknown_tool name, refl, unknown e refl refl)
  dispatch-Ends (some tool) e = run_parsed-Ends tool (zod.safe_parse tool.input_schema input) e refl

  -- The registry never throws: a call ends with a result, which is VALIDATION_ERROR with the store
  -- unchanged for an unknown tool or a refused input, INTERNAL_ERROR with the message for a tool
  -- that throws, and otherwise what the tool returns, shortened.
  pub execute-Ends : Ends (execute zod tools name input s)
  unfolding execute
  execute-Ends = dispatch-Ends (get_tool name tools) refl

-- A text of at most 4000 units is left alone. A longer one becomes its first 4000 units, followed by
-- a notice that tells its length in decimal and asks for a narrower search; what is left then has at
-- most 4090 units and the digits of that length.
pub truncate_result-bounds :
    (text : Text)
    → (((length text ≤ 4000) × (truncate_result text ≡ text))
        ⊎ ((4000 < length text)
            × (truncate_result text
                ≡ slice_to 4000 text
                  ++ (units "\n\n[Result truncated — "
                      ++ (decimal (length text)
                          ++ units " chars total. Refine your search to get fewer results.]")))))
      × (slice_to 4000 (truncate_result text) ≡ slice_to 4000 text)
      × (length (truncate_result text) ≤ 4090 + length (decimal (length text)))
truncate_result-bounds text = elim (truncate_result-IsCut text) [
  | inl (short, same) ↦ (inl (short, same), ap (slice_to 4000) same, rw same (omega arith))
  | inr (long, same) ↦ (
    inr (long, same),
    ap (slice_to 4000) same ∙ slice_to-append 4000 text _ (omega arith),
    rw same (cut-length long),
  )
]
  where
    cut-length : 4000 < length text → length (cut text) ≤ 4090 + length (decimal (length text))
    cut-length long = omega (
      arith,
      slice_to-length 4000 text,
      length-append (slice_to 4000 text) (notice_head ++ (decimal (length text) ++ notice_tail)),
      length-append notice_head (decimal (length text) ++ notice_tail),
      length-append (decimal (length text)) notice_tail,
    )
