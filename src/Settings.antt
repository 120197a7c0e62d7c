-- ===== src/Settings.antt =====
-- src/common/constants.ts: the settings, read once from the environment.
pub mod Origins
mod Tests
use agentdesk_nestjs.Base.{
  ℕ, ◌==◌, Bool, true, false, List, [], ◌∷◌, map, select, Option, none, some, or_else, String, Text,
  units, str_eq, is_some, trim, if◌then◌else◌,
}

-- `process.env`
abbrev pub Environment : Type 0
Environment = String → Option String

-- `text.split(separator)` for one unit.
abbrev pub put_first : ℕ → List Text → List Text
put_first c [] = (c ∷ []) ∷ []
put_first c (t ∷ ts) = (c ∷ t) ∷ ts

unfoldable pub split : ℕ → Text → List Text
split separator [] = [] ∷ []
split separator (c ∷ s) =
    let parts = split separator s in if c == separator then [] ∷ parts else put_first c parts

-- `Boolean` of a text.
abbrev pub filled : Text → Bool
filled [] = false
filled (c ∷ s) = true

unfoldable pub origins_of : Text → List Text
origins_of s = select filled (map trim (split b',' s))

abbrev pub is_set_to : String → Option String → Bool
is_set_to s none = false
is_set_to s (some v) = str_eq v s

-- `Number` has the parameter `Num` for its values.
pub record Settings (Num : Type 0) : Type 0 where
  pub node_env : String
  pub port : Num
  pub database_url : Option String
  pub shadow_database_url : Option String
  pub redis_url : String
  pub jwt_secret : String
  pub jwt_secret_set : Bool
  pub jwt_expires_in : String
  pub cookie_access_ttl_ms : Num
  pub cookie_refresh_ttl_ms : Num
  pub cookie_secure : Bool
  pub cookie_same_site : String
  pub throttle_ttl_ms : Num
  pub throttle_limit : Num
  pub allow_tenant_header : Bool
  pub cors_origins : List Text
  pub body_limit : String
  pub llm_provider : String
  pub anthropic_api_key : String
  pub llm_model : String
  pub groq_api_key : String
  pub groq_base_url : String
  pub groq_model : String
  pub agent_max_iterations : Num
  pub agent_max_total_tokens : Num
  pub agent_max_wall_clock_ms : Num
  pub agent_system_prompt : String
  pub agent_llm_max_retries : Num

-- `number` is `Number` on a text, and `of_nat` the value of a literal.
module _ {Num : Type 0} (number : String → Num) (of_nat : ℕ → Num) where
  abbrev pub number_or : ℕ → Option String → Num
  number_or n none = of_nat n
  number_or n (some v) = number v

  unfoldable pub settings : Environment → Settings Num
  settings env = record {
    node_env = or_else (env "NODE_ENV") "development";
    port = number_or 3000 (env "PORT");
    database_url = env "DATABASE_URL";
    shadow_database_url = env "SHADOW_DATABASE_URL";
    redis_url = or_else (env "REDIS_URL") "redis://localhost:6379";
    jwt_secret = or_else (env "JWT_SECRET") "dev-secret-change-me";
    jwt_secret_set = is_some (env "JWT_SECRET");
    jwt_expires_in = or_else (env "JWT_EXPIRES_IN") "1h";
    cookie_access_ttl_ms = number_or 3600000 (env "COOKIE_ACCESS_TTL_MS");
    cookie_refresh_ttl_ms = number_or 2592000000 (env "COOKIE_REFRESH_TTL_MS");
    cookie_secure = is_set_to "true" (env "COOKIE_SECURE");
    cookie_same_site = or_else (env "COOKIE_SAME_SITE") "lax";
    throttle_ttl_ms = number_or 60000 (env "THROTTLE_TTL_MS");
    throttle_limit = number_or 100 (env "THROTTLE_LIMIT");
    allow_tenant_header = is_set_to "true" (env "ALLOW_TENANT_HEADER");
    cors_origins = origins_of (units (or_else (env "CORS_ORIGINS") "*"));
    body_limit = or_else (env "BODY_LIMIT") "100kb";
    llm_provider = or_else (env "LLM_PROVIDER") "fake";
    anthropic_api_key = or_else (env "ANTHROPIC_API_KEY") "";
    llm_model = or_else (env "LLM_MODEL") "claude-3-5-haiku-latest";
    groq_api_key = or_else (env "GROQ_API_KEY") "";
    groq_base_url = or_else (env "GROQ_BASE_URL") "https://api.groq.com/openai/v1";
    groq_model = or_else (env "GROQ_MODEL") "openai/gpt-oss-120b";
    agent_max_iterations = number_or 10 (env "AGENT_MAX_ITERATIONS");
    agent_max_total_tokens = number_or 200000 (env "AGENT_MAX_TOTAL_TOKENS");
    agent_max_wall_clock_ms = number_or 120000 (env "AGENT_MAX_WALL_CLOCK_MS");
    agent_system_prompt = or_else (env "AGENT_SYSTEM_PROMPT") "";
    agent_llm_max_retries = number_or 3 (env "AGENT_LLM_MAX_RETRIES");
  }
