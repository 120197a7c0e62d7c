-- ===== src/Llm/Factory.antt =====
-- src/llm/llm.module.ts: the choice of a provider from the settings.
use mathlib.Core.Path.{subst}
use agentdesk_nestjs.Base.{
  ℕ, ◌≡◌, ◌≢◌, refl, sym, ap, true, false, [], Option, none, some, or_else, String, units, str_eq,
  eq_iff, if◌then◌else◌, Exception, failure, Result, ok, raise, Bool-cases, inl, inr,
}
use agentdesk_nestjs.Settings.{Environment, Settings, settings}
use agentdesk_nestjs.Tenancy.Database.{text_ne}
use agentdesk_nestjs.Llm.Fake.{FakeLlmProvider}

-- A provider with the arguments that it is made with; the clients of the APIs are parameters of the
-- providers.
pub data Provider (Schema : Type 0) : Type 0 where
  anthropic : String → String → Provider Schema
  open_ai_compatible : String → String → String → ℕ → String → Provider Schema
  fake : FakeLlmProvider Schema → Provider Schema

abbrev pub anthropic_key_required : Exception
anthropic_key_required = failure (units "ANTHROPIC_API_KEY is required when LLM_PROVIDER=anthropic")

abbrev pub groq_key_required : Exception
groq_key_required = failure (units "GROQ_API_KEY is required when LLM_PROVIDER=groq")

-- `new FakeLlmProvider()`
abbrev pub new_fake : {Schema : Type 0} → FakeLlmProvider Schema
new_fake = record { cassettes = []; strict = true; default_response = none; requests = [] }

abbrev make_anthropic : {Schema : Type 0} → String → String → Result (Provider Schema)
make_anthropic key model =
    if str_eq key "" then raise anthropic_key_required else ok (anthropic key model)

abbrev make_groq : {Schema : Type 0} → String → String → String → Result (Provider Schema)
make_groq key base_url model =
    if str_eq key ""
    then raise groq_key_required
    else ok (open_ai_compatible key base_url model 1024 "groq")

unfoldable pub create_llm_provider : {Schema Num : Type 0} → Settings Num → Result (Provider Schema)
create_llm_provider env =
    if str_eq env.llm_provider "anthropic"
    then make_anthropic env.anthropic_api_key env.llm_model
    else if str_eq env.llm_provider "groq"
    then make_groq env.groq_api_key env.groq_base_url env.groq_model
    else ok (fake new_fake)

-- The provider is one that the environment names, with a key that the environment holds; the fake
-- one is made only if no other is named.
abbrev pub IsNamed : {Schema : Type 0} → Environment → Provider Schema → Type 0
IsNamed env (anthropic key model) =
    (env "LLM_PROVIDER" ≡ some "anthropic") × (env "ANTHROPIC_API_KEY" ≡ some key) × (key ≢ "")
IsNamed env (open_ai_compatible key base_url model max_tokens name) =
    (env "LLM_PROVIDER" ≡ some "groq") × (env "GROQ_API_KEY" ≡ some key) × (key ≢ "")
IsNamed env (fake p) =
    (env "LLM_PROVIDER" ≢ some "anthropic") × (env "LLM_PROVIDER" ≢ some "groq") × (p ≡ new_fake)

-- A variable whose value is not the default was set to it.
set_to : (o : Option String) (default v : String) → or_else o default ≡ v → default ≢ v → o ≡ some v
set_to none default v e apart = elim (apart e) [ ]
set_to (some w) default v e apart = ap some e

not_set_to :
    (o : Option String) (default v : String) → str_eq (or_else o default) v ≡ false → o ≢ some v
not_set_to none default v differs e = cc e
not_set_to (some w) default v differs e =
    let same : w ≡ v = cc e in
    let equal : str_eq w v ≡ true = (eq_iff w v).1 same in cc (equal, differs)

-- A provider that is made is named by the environment: a client of Anthropic or of Groq is made only
-- if LLM_PROVIDER says so, with the key that the environment holds, which is not empty; the fake one
-- is made, with nothing recorded, only if LLM_PROVIDER names neither.
pub create_llm_provider-IsNamed :
    {Schema Num : Type 0} (number : String → Num) (of_nat : ℕ → Num) (env : Environment)
    (p : Provider Schema)
    → create_llm_provider (settings number of_nat env) ≡ ok p
    → IsNamed env p
unfolding create_llm_provider settings
create_llm_provider-IsNamed {Schema} number of_nat env p made =
    elim (Bool-cases (str_eq named "anthropic")) [
      | inl is ↦ with_anthropic ((eq_iff named "anthropic").0 is) _ refl (rw is at made)
      | inr other ↦ elim (Bool-cases (str_eq named "groq")) [
        | inl is ↦ with_groq ((eq_iff named "groq").0 is) _ refl (rw (other, is) at made)
        | inr neither ↦
            let same : fake new_fake ≡ p =
              let e : ok (fake new_fake) ≡ ok p = rw (other, neither) at made in cc e in
            subst (IsNamed env) same (
              not_set_to (env "LLM_PROVIDER") "fake" "anthropic" other,
              not_set_to (env "LLM_PROVIDER") "fake" "groq" neither,
              refl,
            )
      ]
    ]
  where
    named : String
    named = or_else (env "LLM_PROVIDER") "fake"

    with_anthropic :
        named ≡ "anthropic"
        → (key : String) → or_else (env "ANTHROPIC_API_KEY") "" ≡ key
        → make_anthropic key (or_else (env "LLM_MODEL") "claude-3-5-haiku-latest") ≡ ok p
        → IsNamed env p
    with_anthropic is key held made = elim (Bool-cases (str_eq key "")) [
      | inl empty ↦ cc (rw empty at made)
      | inr there ↦
          let made' : ok (anthropic key (or_else (env "LLM_MODEL") "claude-3-5-haiku-latest"))
              ≡ ok p =
            rw there at made in
          let same : anthropic key (or_else (env "LLM_MODEL") "claude-3-5-haiku-latest") ≡ p =
            cc made' in
          subst (IsNamed env) same (
            set_to (env "LLM_PROVIDER") "fake" "anthropic" is (text_ne "fake" "anthropic" refl),
            set_to (env "ANTHROPIC_API_KEY") "" key held (λ e. text_ne key "" there (sym e)),
            text_ne key "" there,
          )
    ]

    with_groq :
        named ≡ "groq"
        → (key : String) → or_else (env "GROQ_API_KEY") "" ≡ key
        → make_groq key
            (or_else (env "GROQ_BASE_URL") "https://api.groq.com/openai/v1")
            (or_else (env "GROQ_MODEL") "openai/gpt-oss-120b")
          ≡ ok p
        → IsNamed env p
    with_groq is key held made = elim (Bool-cases (str_eq key "")) [
      | inl empty ↦ cc (rw empty at made)
      | inr there ↦
          let made' : ok (
                open_ai_compatible key
                  (or_else (env "GROQ_BASE_URL") "https://api.groq.com/openai/v1")
                  (or_else (env "GROQ_MODEL") "openai/gpt-oss-120b") 1024 "groq")
              ≡ ok p =
            rw there at made in
          let same : open_ai_compatible key
                (or_else (env "GROQ_BASE_URL") "https://api.groq.com/openai/v1")
                (or_else (env "GROQ_MODEL") "openai/gpt-oss-120b") 1024 "groq"
              ≡ p =
            cc made' in
          subst (IsNamed env) same (
            set_to (env "LLM_PROVIDER") "fake" "groq" is (text_ne "fake" "groq" refl),
            set_to (env "GROQ_API_KEY") "" key held (λ e. text_ne key "" there (sym e)),
            text_ne key "" there,
          )
    ]
