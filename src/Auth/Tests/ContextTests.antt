-- ===== src/Auth/Tests/ContextTests.antt =====
-- Requests to the ticket service behind the middleware, over the database in memory.
use agentdesk_nestjs.Base.{
  ◌≡◌, refl, true, false, [], ◌∷◌, Option, none, some, units, str_eq, starts_with, up_to,
  trim_start, trim_end, is_space, Action, ok, if◌then◌else◌,
}
use agentdesk_nestjs.Json.{str, end, field}
use agentdesk_nestjs.Tenancy.{TenantContext}
use agentdesk_nestjs.Tenancy.Memory.{Table, Tables, view, memory}
use agentdesk_nestjs.Tenancy.Memory.Laws.{memory-Database}
use agentdesk_nestjs.Tickets.{lists, serve}
use agentdesk_nestjs.Auth.Context.{
  AuthUser, AuthenticatedRequest, is_public, is_uuid, is_groups, after_hex, extract_bearer,
  token_of, use_middleware,
}
use agentdesk_nestjs.Auth.Context.Tenants.{
  Confined, requested-Confined, use_middleware-tenant_header,
}
use agentdesk_nestjs.Auth.Context.Fixture.{verify, verify_leaves}

abbrev table : Table
table = field "id" (str (units "x")) (field "tenantId" (str (units "b")) end) ∷ []

abbrev tables : Tables
tables m = if str_eq m "Ticket" then table else []

abbrev request : AuthenticatedRequest
request = record {
  original_url = units "/tickets?status=open";
  header = λ k. if str_eq k "authorization" then some "Bearer  good " else none;
  cookies = none;
  user = none;
}

is_closed : is_public request.original_url ≡ false
unfolding is_public starts_with up_to
is_closed = refl

-- The token is what follows the scheme, without the blanks.
token_is_trimmed : token_of request ≡ some (units "good")
unfolding extract_bearer starts_with trim_start trim_end is_space
token_is_trimmed = refl

uuid_of_any_case : is_uuid (units "0A1b2c3d-0000-4000-8000-00000000000f") ≡ true
unfolding is_uuid is_groups after_hex
uuid_of_any_case = refl

uuid_with_more : is_uuid (units "0a1b2c3d-0000-4000-8000-00000000000f0") ≡ false
unfolding is_uuid is_groups after_hex
uuid_with_more = refl

requested-Confined_example :
    Confined memory view memory-Database false verify verify_leaves
      (λ req. lists none)
      request
      tables
      (use_middleware false verify
        (λ req context. serve memory context (lists none))
        request
        tables)
requested-Confined_example =
    requested-Confined memory view memory-Database false verify verify_leaves (λ req. lists none)
      request tables is_closed

abbrev whoami : Option AuthUser → Option TenantContext → Action Tables (Option AuthUser)
whoami user context s = (ok user, s)

use_middleware-tenant_header_example :
    use_middleware false verify
      (λ r context. whoami r.user context)
      (record request {
        header = λ k. if str_eq k "x-tenant-id" then some "b" else request.header k;
      })
      tables
    ≡ use_middleware false verify (λ r context. whoami r.user context) request tables
use_middleware-tenant_header_example =
    use_middleware-tenant_header verify whoami (some "b") request tables
