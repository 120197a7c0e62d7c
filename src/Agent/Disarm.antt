-- ===== src/Agent/Disarm.antt =====
-- The registry with the bodies of all tools that need approval exchanged for another one: what a
-- computation gives the same on both did not run such a tool.
use agentdesk_nestjs.Base.{
  ◌≡◌, refl, ap, ◌∙◌, false, [], ◌∷◌, Option, none, some, String, str_eq, lookup, Action,
  if◌then◌else◌, Bool-cases, inl, inr,
}
use mathlib.Core.Option
use agentdesk_nestjs.Json.{Fields}
use agentdesk_nestjs.Tools.{ToolResult, Tool, SchemaLibrary, Registry, get_tool, get_definitions}
use agentdesk_nestjs.Tools.Execute.{execute, dispatch}
use agentdesk_nestjs.Agent.Batch.{approval_flag, mutating_flag}

module _ {Schema S : Type 0} (body : Fields → Action S ToolResult) where
  abbrev pub disarm_tool : Tool Schema S → Tool Schema S
  disarm_tool t = record t { execute = if t.requires_approval then body else t.execute }

  unfoldable pub disarm : Registry Schema S → Registry Schema S
  disarm [] = []
  disarm (e ∷ tools) = (e.0, disarm_tool e.1) ∷ disarm tools

  pub get_tool-disarm :
      (name : String) (tools : Registry Schema S)
      → get_tool name (disarm tools) ≡ Option.map disarm_tool (get_tool name tools)
  unfolding get_tool disarm lookup
  get_tool-disarm name [] = refl
  get_tool-disarm name (e ∷ tools) = elim (Bool-cases (str_eq e.0 name)) [
    | inl here ↦ rw here refl
    | inr there ↦ rw there (get_tool-disarm name tools)
  ]

  pub get_definitions-disarm :
      (tools : Registry Schema S) → get_definitions (disarm tools) ≡ get_definitions tools
  unfolding get_definitions disarm
  get_definitions-disarm [] = refl
  get_definitions-disarm (e ∷ tools) = rw (get_definitions-disarm tools)

  disarm_tool-free : (t : Tool Schema S) → t.requires_approval ≡ false → disarm_tool t ≡ t
  disarm_tool-free t free = λ i. record t { execute = (if_free free) i }
    where
      if_free :
          t.requires_approval ≡ false
          → (if t.requires_approval then body else t.execute) ≡ t.execute
      if_free e = rw e

  map-disarm_tool :
      (o : Option (Tool Schema S)) → approval_flag o ≡ false → Option.map disarm_tool o ≡ o
  map-disarm_tool none free = refl
  map-disarm_tool (some t) free = ap some (disarm_tool-free t free)

  -- A call whose tool needs no approval runs as before.
  pub execute-disarm :
      (zod : SchemaLibrary Schema) (tools : Registry Schema S) (name : String) (input : Fields)
      → approval_flag (get_tool name tools) ≡ false
      → execute zod (disarm tools) name input ≡ execute zod tools name input
  unfolding execute
  execute-disarm zod tools name input free =
      ap (λ o. dispatch zod name o input)
        (get_tool-disarm name tools ∙ map-disarm_tool (get_tool name tools) free)

  -- The flags of every tool are as before.
  pub approval_flag-disarm :
      (name : String) (tools : Registry Schema S)
      → approval_flag (get_tool name (disarm tools)) ≡ approval_flag (get_tool name tools)
  approval_flag-disarm name tools =
      ap approval_flag (get_tool-disarm name tools) ∙ same (get_tool name tools)
    where
      same :
          (o : Option (Tool Schema S)) → approval_flag (Option.map disarm_tool o) ≡ approval_flag o
      same none = refl
      same (some t) = refl

  pub mutating_flag-disarm :
      (name : String) (tools : Registry Schema S)
      → mutating_flag (get_tool name (disarm tools)) ≡ mutating_flag (get_tool name tools)
  mutating_flag-disarm name tools =
      ap mutating_flag (get_tool-disarm name tools) ∙ same (get_tool name tools)
    where
      same :
          (o : Option (Tool Schema S)) → mutating_flag (Option.map disarm_tool o) ≡ mutating_flag o
      same none = refl
      same (some t) = refl
