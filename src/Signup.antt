-- ===== src/Signup.antt =====
-- src/signup/signup.service.ts: the onboarding of a tenant with its first user.
pub mod Whole
pub mod Login
mod Tests
use agentdesk_nestjs.Base.{
  Bool, false, not, ◌&&◌, Option, none, some, String, units, str_eq, Exception, bad_request,
  conflict, Action, ◌>>=◌, ◌>>◌, pure, throw, try_catch, if◌then◌else◌,
}
use agentdesk_nestjs.Json.{Json, str, Fields, end, field}
use agentdesk_nestjs.Tenancy.{OperationArgs, row, all_operations}
use agentdesk_nestjs.Tenancy.Database.{QueryResult}
use agentdesk_nestjs.Tickets.{no_args}
use agentdesk_nestjs.Auth.Context.{context_named}
use agentdesk_nestjs.Auth.Controller.{column_of}

pub record SignupDto : Type 0 where
  pub company_name : String
  pub workspace_name : String
  pub admin_email : String
  pub admin_password : String
  pub plan : Option String

pub record SignupResult : Type 0 where
  pub tenant_id : String
  pub admin_user_id : Json
  pub plan : String

-- `dto.plan ?? 'FREE'`
abbrev pub plan_of : SignupDto → String
plan_of dto = elim dto.plan [ none ↦ "FREE" | some plan ↦ plan ]

-- `dto.plan && dto.plan !== 'FREE'`
abbrev pub asks_for_more : Option String → Bool
asks_for_more none = false
asks_for_more (some plan) = not (str_eq plan "") && not (str_eq plan "FREE")

abbrev pub free_only : Exception
free_only = bad_request (units "Only the FREE plan is available in the MVP")

abbrev pub already_registered : Exception
already_registered = conflict (units "Email or workspace slug already registered")

abbrev pub tenant_row : SignupDto → String → Fields
tenant_row dto tenant_id = field "id" (str (units tenant_id)) (
    field "name" (str (units dto.company_name)) (
      field "slug" (str (units dto.workspace_name)) (field "plan" (str (units (plan_of dto))) end)))

abbrev pub admin_row : SignupDto → String → String → Fields
admin_row dto tenant_id password_hash = field "email" (str (units dto.admin_email)) (
    field "passwordHash" (str (units password_hash))
      (field "role" (str (units "ADMIN")) (field "tenantId" (str (units tenant_id)) end)))

-- `query` is the base client, `transaction` its `$transaction`, `code` the code of an error that it
-- throws, `random_uuid` and `hash` the libraries'.
module _ {S : Type 0} (query : String → String → OperationArgs → Action S QueryResult)
    (transaction : Action S Json → Action S Json) (code : Exception → Option String)
    (random_uuid : Action S String) (hash : String → Action S String) where
  -- The client inside `tenantContextStore.run({ tenantId }, …)`.
  abbrev pub scoped : String → String → String → OperationArgs → Action S QueryResult
  scoped tenant_id = all_operations query none (some (context_named tenant_id))

  unfoldable pub create_both : SignupDto → String → String → Action S Json
  create_both dto tenant_id password_hash = do
    scoped tenant_id "Tenant" "create"
        (record no_args { data_clause = row (tenant_row dto tenant_id) })
    admin ←
        scoped tenant_id "User" "create"
          (record no_args { data_clause = row (admin_row dto tenant_id password_hash) })
    pure (column_of "id" admin)

  abbrev pub is_unique_constraint_error : Exception → Bool
  is_unique_constraint_error e = elim (code e) [ none ↦ false | some c ↦ str_eq c "P2002" ]

  unfoldable pub report : Exception → Action S SignupResult
  report e = if is_unique_constraint_error e then throw already_registered else throw e

  unfoldable pub signup : SignupDto → Action S SignupResult
  signup dto =
      if asks_for_more dto.plan
      then throw free_only
      else random_uuid >>= λ tenant_id. hash dto.admin_password >>= λ password_hash.
          try_catch
            (transaction (create_both dto tenant_id password_hash) >>= λ admin_user_id.
              pure (record {
                tenant_id = tenant_id;
                admin_user_id = admin_user_id;
                plan = plan_of dto;
              }))
            report
