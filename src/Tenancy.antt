-- ===== src/Tenancy.antt =====
-- src/tenancy: the tenant of a request, and the database client that every operation on a
-- tenant-owned model goes through.
pub mod Isolation
pub mod Database
pub mod Confinement
pub mod Memory
mod Tests
use Prim.Native.Char.{Char}
use agentdesk_nestjs.Base.{
  ℕ, suc, ◌==◌, Text, decimal, Bool, List, [], ◌∷◌, map, Option, none, some, String, units, str_eq,
  or_else, if◌then◌else◌, Action, Exception, unauthorized, throw,
}
unfoldable pub use agentdesk_nestjs.Json.{set_field}
use agentdesk_nestjs.Json.{str, obj, Fields, end, field}

-- tenant-context.ts; an absent context is an absent store.
pub record TenantContext : Type 0 where
  pub tenant_id : String
  pub user_id : Option String
  pub role : Option String

unfoldable pub get_tenant_id : Option TenantContext → Option String
get_tenant_id none = none
get_tenant_id (some context) = some context.tenant_id

-- The property of an operation that holds its rows: absent, one row, or an array of rows.
pub data Payload : Type 0 where
  absent : Payload
  row : Fields → Payload
  rows : List Fields → Payload

-- The arguments of a database operation. `rest` are the properties that the scoping never touches.
pub record OperationArgs : Type 0 where
  pub where_clause : Option Fields
  pub data_clause : Payload
  pub create_clause : Option Fields
  pub update_clause : Option Fields
  pub rest : Fields

-- `{ ...fields, tenantId }`
unfoldable pub stamp : String → Fields → Fields
stamp tenant_id fields = set_field "tenantId" (str (units tenant_id)) fields

-- The same of an operand that may be absent, which spreads to nothing.
unfoldable pub stamp_clause : String → Option Fields → Fields
stamp_clause tenant_id clause = stamp tenant_id (or_else clause end)

-- `Array.isArray(args.data) ? args.data : [args.data]`
unfoldable pub rows_of : Payload → List Fields
rows_of absent = end ∷ []
rows_of (row fields) = fields ∷ []
rows_of (rows fs) = fs

abbrev pub is_admin : String → Bool
is_admin model = str_eq model "Tenant"

-- The key of an array's item, and an array spread into an object.
abbrev digit : ℕ → Char
digit c =
    if c == b'0'
    then "0"
    else if c == b'1'
    then "1"
    else if c == b'2'
    then "2"
    else if c == b'3'
    then "3"
    else if c == b'4'
    then "4"
    else if c == b'5'
    then "5"
    else if c == b'6'
    then "6"
    else if c == b'7'
    then "7"
    else if c == b'8'
    then "8"
    else "9"

abbrev digits : Text → String
digits [] = ""
digits (c ∷ cs) = String.◌∷◌ (digit c) (digits cs)

unfoldable pub spread_rows : ℕ → List Fields → Fields
spread_rows i [] = end
spread_rows i (f ∷ fs) = field (digits (decimal i)) (obj f) (spread_rows (suc i) fs)

-- What `create` makes of its payload.
unfoldable pub stamp_create : String → Payload → Fields
stamp_create tenant_id absent = stamp tenant_id end
stamp_create tenant_id (row fields) = stamp tenant_id fields
stamp_create tenant_id (rows fs) = stamp tenant_id (spread_rows 0 fs)

-- The branches of the `switch`.
unfoldable pub scope_operation : String → OperationArgs → String → OperationArgs
scope_operation operation args tenant_id =
    if str_eq operation "create"
    then record args { data_clause = row (stamp_create tenant_id args.data_clause) }
    else if str_eq operation "createMany"
    then record args { data_clause = rows (map (stamp tenant_id) (rows_of args.data_clause)) }
    else if str_eq operation "upsert"
    then record args {
      where_clause = some (stamp_clause tenant_id args.where_clause);
      create_clause = some (stamp_clause tenant_id args.create_clause);
    }
    else record args { where_clause = some (stamp_clause tenant_id args.where_clause) }

-- The arguments as the source leaves them in `args`.
unfoldable pub apply_tenant_scope : String → String → OperationArgs → String → OperationArgs
apply_tenant_scope model operation args tenant_id =
    if is_admin model then args else scope_operation operation args tenant_id

abbrev pub missing_tenant : Exception
missing_tenant =
    unauthorized
      (units "Missing tenant context. Tenant-scoped operations require an active tenant.")

-- `!tenantId`: an empty id counts as none.
unfoldable pub active_tenant : Option String → Option TenantContext → Option String
active_tenant override context = elim override [
  | some id ↦ if str_eq id "" then none else some id
  | none ↦ elim (get_tenant_id context) [
    | none ↦ none
    | some id ↦ if str_eq id "" then none else some id
  ]
]

-- The hook that runs around every operation: `query` is the base client's.
module _ {S R : Type 0} (query : String → String → OperationArgs → Action S R) where
  unfoldable pub scoped_as : Option String → String → String → OperationArgs → Action S R
  scoped_as none model operation args = throw missing_tenant
  scoped_as (some tenant_id) model operation args =
      query model operation (apply_tenant_scope model operation args tenant_id)

  unfoldable pub all_operations :
      Option String → Option TenantContext → String → String → OperationArgs → Action S R
  all_operations override context model operation args =
      if is_admin model
      then query model operation args
      else scoped_as (active_tenant override context) model operation args
