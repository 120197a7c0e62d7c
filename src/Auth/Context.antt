-- ===== src/Auth/Context.antt =====
-- src/auth/auth-context.middleware.ts: who a request comes from, and the tenant that it acts for.
pub mod Admission
pub mod Tenants
pub mod Fixture
use agentdesk_nestjs.Base.{
  ℕ, zero, suc, Bool, str_eq, true, false, not, ◌&&◌, ◌||◌, ◌==◌, leb, List, [], ◌∷◌, Option, none,
  some, String, Text, units, any, starts_with, slice_from, up_to, trim, Exception, bad_request,
  unauthorized, Action, Result, ok, raise, ◌>>=◌, throw, try_catch, if◌then◌else◌,
}
use agentdesk_nestjs.Json.{Json}
use agentdesk_nestjs.Tenancy.{TenantContext}

pub record JwtPayload : Type 0 where
  pub sub : String
  pub tenant_id : String
  pub role : String
  pub email : String

pub record AuthUser : Type 0 where
  pub user_id : String
  pub tenant_id : String
  pub role : String
  pub email : String

-- A cookie as the parser hands it on: a text, or a value that was read as JSON.
pub data Cookie : Type 0 where
  text : String → Cookie
  json : Json → Cookie

-- What the framework hands on of a request.
pub record AuthenticatedRequest : Type 0 where
  pub original_url : Text
  pub header : String → Option String
  pub cookies : Option (String → Option Cookie)
  pub user : Option AuthUser

abbrev pub public_paths : List Text
public_paths =
    units "/health"
    ∷ units "/signup"
    ∷ units "/auth/login"
    ∷ units "/auth/refresh"
    ∷ units "/auth/logout"
    ∷ []

unfoldable pub is_public : Text → Bool
is_public url = any (λ path. starts_with (up_to b'?' url) path) public_paths

abbrev is_hex : ℕ → Bool
is_hex c = (leb b'0' c && leb c b'9') || (leb b'a' c && leb c b'f') || (leb b'A' c && leb c b'F')

-- The text after so many hexadecimal digits.
unfoldable pub after_hex : ℕ → Text → Option Text
after_hex zero s = some s
after_hex (suc n) [] = none
after_hex (suc n) (c ∷ s) = let rest = after_hex n s in if is_hex c then rest else none

abbrev pub after_dash : Text → Option Text
after_dash [] = none
after_dash (c ∷ s) = if c == b'-' then some s else none

-- Groups of digits, the last of them at the end of the text.
unfoldable pub is_groups : ℕ → List ℕ → Text → Bool
is_groups n [] s = elim (after_hex n s) [ some [] ↦ true | _ ↦ false ]
is_groups n (m ∷ ms) s = elim (after_hex n s) [
  | none ↦ false
  | some t ↦ elim (after_dash t) [ none ↦ false | some u ↦ is_groups m ms u ]
]

-- `UUID_PATTERN.test(s)`
unfoldable pub is_uuid : Text → Bool
is_uuid s = is_groups 8 (4 ∷ 4 ∷ 4 ∷ 12 ∷ []) s

abbrev pub invalid_header : Exception
invalid_header = bad_request (units "x-tenant-id must be a valid UUID")

abbrev pub missing_bearer : Exception
missing_bearer = unauthorized (units "Missing bearer token")

abbrev pub invalid_token : Exception
invalid_token = unauthorized (units "Invalid or expired token")

unfoldable pub named_tenant_id : Option String → Result (Option String)
named_tenant_id none = ok none
named_tenant_id (some raw) =
    if str_eq raw ""
    then ok none
    else if is_uuid (units raw)
    then ok (some raw)
    else raise invalid_header

-- The tenant that the header names, if the setting lets a header name one.
unfoldable pub dev_header_tenant_id : Bool → AuthenticatedRequest → Result (Option String)
dev_header_tenant_id allowed req =
    if not allowed then ok none else named_tenant_id (req.header "x-tenant-id")

unfoldable pub extract_bearer : AuthenticatedRequest → Option Text
extract_bearer req = elim (req.header "authorization") [
  | none ↦ none
  | some header ↦
      if starts_with (units header) (units "Bearer ")
      then some (trim (slice_from 7 (units header)))
      else none
]

-- `typeof token === 'string' && token.length > 0`
abbrev pub text_cookie : Option Cookie → Option Text
text_cookie (some (text s)) = if str_eq s "" then none else some (units s)
text_cookie _ = none

unfoldable pub extract_cookie : AuthenticatedRequest → Option Text
extract_cookie req = elim req.cookies [
  | none ↦ none
  | some cookies ↦ text_cookie (cookies "access_token")
]

-- `this.extractBearer(req) ?? this.extractCookie(req)`: an empty bearer token hides the cookie.
abbrev pub token_of : AuthenticatedRequest → Option Text
token_of req = elim (extract_bearer req) [ some token ↦ some token | none ↦ extract_cookie req ]

abbrev pub user_of : JwtPayload → AuthUser
user_of payload = record {
  user_id = payload.sub;
  tenant_id = payload.tenant_id;
  role = payload.role;
  email = payload.email;
}

abbrev pub context_of : AuthUser → TenantContext
context_of user = record {
  tenant_id = user.tenant_id;
  user_id = some user.user_id;
  role = some user.role;
}

-- The context of a request whose header names the tenant.
abbrev pub context_named : String → TenantContext
context_named id = record { tenant_id = id; user_id = none; role = none }

-- `verify` is the token service, and `next` all that follows the middleware: the rest of the
-- request, in the context that is bound.
module _ {S A : Type 0} (allow_tenant_header : Bool) (verify : Text → Action S JwtPayload)
    (next : AuthenticatedRequest → Option TenantContext → Action S A) where
  unfoldable pub admit_user : AuthenticatedRequest → JwtPayload → Action S A
  admit_user req payload =
      let user = user_of payload in next (record req { user = some user }) (some (context_of user))

  unfoldable pub with_token : AuthenticatedRequest → Option Text → Action S A
  with_token req none = throw missing_bearer
  with_token req (some []) = throw missing_bearer
  with_token req (some (c ∷ token)) =
      try_catch (verify (c ∷ token)) (λ _. throw invalid_token) >>= admit_user req

  unfoldable pub with_header : AuthenticatedRequest → Result (Option String) → Action S A
  with_header req (raise e) = throw e
  with_header req (ok (some id)) = next req (some (context_named id))
  with_header req (ok none) = with_token req (token_of req)

  unfoldable pub use_middleware : AuthenticatedRequest → Action S A
  use_middleware req =
      if is_public req.original_url
      then next req none
      else with_header req (dev_header_tenant_id allow_tenant_header req)
