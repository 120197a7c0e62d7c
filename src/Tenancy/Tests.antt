-- ===== src/Tenancy/Tests.antt =====
-- The scoping of database operations on small inputs, and each theorem about it at a concrete one.
use agentdesk_nestjs.Base.{◌≡◌, refl, Option, none, some, String, units, Action, ok, ℕ, suc}
use agentdesk_nestjs.Json.{str, Fields, end, field}
use agentdesk_nestjs.Tenancy.{
  TenantContext, OperationArgs, absent, apply_tenant_scope, scope_operation, stamp, set_field,
  stamp_clause,
}

-- A caller that names another tenant.
abbrev spoofed : OperationArgs
spoofed = record {
  where_clause = some (field "id" (str (units "x")) (field "tenantId" (str (units "b")) end));
  data_clause = absent;
  create_clause = none;
  update_clause = none;
  rest = end;
}

abbrev context : TenantContext
context = record { tenant_id = "a"; user_id = none; role = none }

-- The context's tenant takes the place of the caller's.
find_is_scoped :
    (apply_tenant_scope "Ticket" "findMany" spoofed "a").where_clause
    ≡ some (field "id" (str (units "x")) (field "tenantId" (str (units "a")) end))
unfolding apply_tenant_scope scope_operation stamp_clause stamp set_field
find_is_scoped = refl

-- A database that counts its operations.
abbrev counting : String → String → OperationArgs → Action ℕ (Option Fields)
counting model operation args n = (ok args.where_clause, suc n)
