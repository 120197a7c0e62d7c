-- ===== src/Auth/Controller.antt =====
-- src/auth/auth.controller.ts: the endpoints of a session, which keeps its tokens in cookies.
pub mod Sessions
pub mod Spent
use agentdesk_nestjs.Base.{
  ℕ, Bool, true, List, [], ◌∷◌, ◌++◌, Option, none, some, String, units, Exception, failure, Action,
  ok, ◌>>=◌, ◌>>◌, pure, throw,
}
use agentdesk_nestjs.Json.{Json, str, null, end, field, get_field}
use agentdesk_nestjs.Tenancy.{TenantContext, OperationArgs, all_operations}
use agentdesk_nestjs.Tenancy.Database.{QueryResult, one}
use agentdesk_nestjs.Tickets.{no_args}
use agentdesk_nestjs.Auth as Auth
use agentdesk_nestjs.Auth.{TokenTable, Crypto, Users, User}
use agentdesk_nestjs.Auth.Context.{AuthUser, Cookie, text}

-- The settings of a cookie; `http_only` is true and the path is `/` in all of them.
pub record CookieOptions : Type 0 where
  pub http_only : Bool
  pub secure : Bool
  pub same_site : String
  pub path : String
  pub max_age : ℕ

-- What a response tells the browser about its cookies.
pub data CookieCommand : Type 0 where
  set_cookie : String → String → CookieOptions → CookieCommand
  clear_cookie : String → String → CookieCommand

abbrev pub access_cookie : String
access_cookie = "access_token"

abbrev pub refresh_cookie : String
refresh_cookie = "refresh_token"

-- The settings that the options are made of.
pub record CookieSettings : Type 0 where
  pub secure : Bool
  pub same_site : String
  pub access_ttl_ms : ℕ
  pub refresh_ttl_ms : ℕ

abbrev pub options_for : CookieSettings → ℕ → CookieOptions
options_for settings max_age = record {
  http_only = true;
  secure = settings.secure;
  same_site = settings.same_site;
  path = "/";
  max_age = max_age;
}

abbrev pub access_cookie_options : CookieSettings → CookieOptions
access_cookie_options settings = options_for settings settings.access_ttl_ms

abbrev pub refresh_cookie_options : CookieSettings → CookieOptions
refresh_cookie_options settings = options_for settings settings.refresh_ttl_ms

-- The database, and the response that a handler writes to.
pub record Exchange (S : Type 0) : Type 0 where
  pub store : S
  pub reply : List CookieCommand

unfoldable pub on_store : {S A : Type 0} → Action S A → Action (Exchange S) A
on_store m x = ((m x.store).0, record x { store = (m x.store).1 })

abbrev pub tell : {S : Type 0} → CookieCommand → Action (Exchange S) (Unit {0})
tell command x = (ok tt, record x { reply = x.reply ++ command ∷ [] })

unfoldable pub set_cookies :
    {S : Type 0} → CookieSettings → String → String → Action (Exchange S) (Unit {0})
set_cookies settings access_token refresh_token =
    tell (set_cookie access_cookie access_token (access_cookie_options settings))
    >> tell (set_cookie refresh_cookie refresh_token (refresh_cookie_options settings))

unfoldable pub clear_cookies : {S : Type 0} → Action (Exchange S) (Unit {0})
clear_cookies = tell (clear_cookie access_cookie "/") >> tell (clear_cookie refresh_cookie "/")

-- `typeof fromCookie === 'string' ? fromCookie : ''`
abbrev pub text_or_empty : Option Cookie → String
text_or_empty (some (text s)) = s
text_or_empty _ = ""

abbrev pub get_refresh_token : Option (String → Option Cookie) → String
get_refresh_token none = ""
get_refresh_token (some cookies) = text_or_empty (cookies refresh_cookie)

module _ {S : Type 0} (table : TokenTable S) (crypto : Crypto S) (users : Users S)
    (sign : User → Action S String) (settings : CookieSettings) where
  unfoldable pub login : String → String → Action (Exchange S) String
  login email password = do
    tokens ← on_store (Auth.login table crypto users sign settings.refresh_ttl_ms email password)
    set_cookies settings tokens.access_token tokens.refresh_token
    pure tokens.access_token

  unfoldable pub refresh : Option (String → Option Cookie) → Action (Exchange S) String
  refresh cookies = do
    tokens ←
        on_store
          (Auth.refresh table crypto users sign settings.refresh_ttl_ms (get_refresh_token cookies))
    tell (set_cookie access_cookie tokens.access_token (access_cookie_options settings))
    pure tokens.access_token

  unfoldable pub logout : Option (String → Option Cookie) → Action (Exchange S) Bool
  logout cookies = do
    on_store
        (Auth.logout table crypto users sign settings.refresh_ttl_ms (get_refresh_token cookies))
    clear_cookies
    pure true

pub record Profile : Type 0 where
  pub user_id : String
  pub tenant_id : String
  pub email : String
  pub role : String
  pub tenant_name : Json
  pub plan : Json

-- `tenant?.name ?? null`
abbrev pub or_null : Option Json → Json
or_null none = null
or_null (some v) = v

abbrev pub column_of : String → QueryResult → Json
column_of k (one f) = or_null (get_field k f)
column_of k _ = null

abbrev pub no_user : Exception
no_user = failure (units "Cannot read properties of undefined (reading 'tenantId')")

module _ {S : Type 0} (query : String → String → OperationArgs → Action S QueryResult)
    (context : Option TenantContext) where
  unfoldable pub me : Option AuthUser → Action S Profile
  me none = throw no_user
  me (some user) =
      all_operations query none context "Tenant" "findUnique"
        (record no_args { where_clause = some (field "id" (str (units user.tenant_id)) end) })
      >>= λ tenant. pure (record {
        user_id = user.user_id;
        tenant_id = user.tenant_id;
        email = user.email;
        role = user.role;
        tenant_name = column_of "name" tenant;
        plan = column_of "plan" tenant;
      })
