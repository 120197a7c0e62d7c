-- ===== src/Tools/Tests.antt =====
-- The registry on small inputs, and each theorem about it at a concrete input.
use agentdesk_nestjs.Base.{
  ℕ, ◌≡◌, ◌⊎◌, ◌≤◌, ◌<◌, true, false, [], ◌∷◌, units, length, decimal, ◌++◌, ◌+◌, slice_to, raise,
  failure,
}
use agentdesk_nestjs.Json.{num, end}
use agentdesk_nestjs.Tools.{Tool, Registry, parsed, invalid, SchemaLibrary}
use agentdesk_nestjs.Tools.Execute.{execute, truncate_result}
use agentdesk_nestjs.Tools.Execute.Results.{Ends, execute-Ends, truncate_result-bounds}
use agentdesk_nestjs.Base.{Bool, if◌then◌else◌}

abbrev zod : SchemaLibrary Bool
zod = record {
  safe_parse = λ accepts input. if accepts then parsed input else invalid (units "refused");
  to_json_schema = λ _. num 0;
}

-- A tool that throws after it has counted.
abbrev failing : Tool Bool ℕ
failing = record {
  name = "fail";
  description = "fails";
  input_schema = true;
  mutating = false;
  requires_approval = false;
  execute = λ _ n. (raise (failure (units "down")), ℕ.suc n);
}

abbrev tools : Registry Bool ℕ
tools = ("fail", failing) ∷ []

execute-Ends_example : Ends zod tools "fail" end 7 (execute zod tools "fail" end 7)
execute-Ends_example = execute-Ends zod tools "fail" end 7

truncate_result-bounds_example :
    (((length (units "hello") ≤ 4000) × (truncate_result (units "hello") ≡ units "hello"))
      ⊎ ((4000 < length (units "hello"))
          × (truncate_result (units "hello")
              ≡ slice_to 4000 (units "hello")
                ++ (units "\n\n[Result truncated — "
                    ++ (decimal (length (units "hello"))
                        ++ units " chars total. Refine your search to get fewer results.]")))))
    × (slice_to 4000 (truncate_result (units "hello")) ≡ slice_to 4000 (units "hello"))
    × (length (truncate_result (units "hello")) ≤ 4090 + length (decimal (length (units "hello"))))
truncate_result-bounds_example = truncate_result-bounds (units "hello")
