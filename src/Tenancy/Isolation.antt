-- ===== src/Tenancy/Isolation.antt =====
-- The scoping of database operations: what a tenant can name, and what it can see.
use mathlib.Core.Path.{ap₂}
use agentdesk_nestjs.Base.{
  ◌≡◌, refl, ap, inl, inr, true, false, ◌||◌, List, [], ◌∷◌, map, Option, none, some, String, units,
  str_eq, eq_refl, or_else, if◌then◌else◌, All, Bool-cases, arith,
}
use agentdesk_nestjs.Json.{Json, str, Fields, end, field, get_field}
use agentdesk_nestjs.Tenancy.{
  OperationArgs, Payload, absent, row, rows, set_field, stamp, stamp_clause, rows_of, stamp_create,
  spread_rows, scope_operation, apply_tenant_scope, is_admin,
}

-- The object says that it belongs to the tenant.
abbrev pub Names : String → Fields → Type 0
Names tenant_id fields = get_field "tenantId" fields ≡ some (str (units tenant_id))

get_field-set_field :
    (k : String) (v : Json) (fs : Fields) → get_field k (set_field k v fs) ≡ some v
unfolding set_field
get_field-set_field k v end = rw (eq_refl k)
get_field-set_field k v (field j u fs) = ground (arith, get_field-set_field k v fs, eq_refl k)

pub stamp-Names : (tenant_id : String) (fields : Fields) → Names tenant_id (stamp tenant_id fields)
unfolding stamp
stamp-Names tenant_id fields = get_field-set_field "tenantId" (str (units tenant_id)) fields

-- What an operation reaches is the tenant's: the rows that it creates, or the condition on the
-- rows that it reads or changes. An upsert has both, and its update is as the caller wrote it.
abbrev pub NamesIn : String → Option Fields → Type 0
NamesIn tenant_id none = false ≡ true
NamesIn tenant_id (some fields) = Names tenant_id fields

abbrev pub AllName : String → Payload → Type 0
AllName tenant_id absent = false ≡ true
AllName tenant_id (row fields) = Names tenant_id fields
AllName tenant_id (rows fs) = All (Names tenant_id) fs

-- How an operation reaches rows.
pub data Reach : Type 0 where
  creates upserts selects : Reach

abbrev pub reach_of : String → Reach
reach_of operation =
    if str_eq operation "create" || str_eq operation "createMany"
    then creates
    else if str_eq operation "upsert"
    then upserts
    else selects

abbrev pub Confines : Reach → String → OperationArgs → OperationArgs → Type 0
Confines creates tenant_id args scoped =
    AllName tenant_id scoped.data_clause
    × (scoped ≡ record args { data_clause = scoped.data_clause })
Confines upserts tenant_id args scoped =
    NamesIn tenant_id scoped.where_clause
    × NamesIn tenant_id scoped.create_clause
    × (scoped
        ≡ record args { where_clause = scoped.where_clause; create_clause = scoped.create_clause })
Confines selects tenant_id args scoped =
    NamesIn tenant_id scoped.where_clause
    × (scoped ≡ record args { where_clause = scoped.where_clause })

-- The scoped arguments confine the operation to the tenant, and change nothing else.
abbrev pub Isolates : String → String → OperationArgs → OperationArgs → Type 0
Isolates operation = Confines (reach_of operation)

set_field-set_field :
    (k : String) (u v : Json) (fs : Fields) → set_field k v (set_field k u fs) ≡ set_field k v fs
unfolding set_field
set_field-set_field k u v end = rw (eq_refl k) refl
set_field-set_field k u v (field j x fs) = ground (arith, set_field-set_field k u v fs, eq_refl k)

stamp-stamp : (t t' : String) (fields : Fields) → stamp t' (stamp t fields) ≡ stamp t' fields
unfolding stamp
stamp-stamp t t' fields = set_field-set_field "tenantId" (str (units t)) (str (units t')) fields

map-stamp :
    (t t' : String) (fs : List Fields) → map (stamp t') (map (stamp t) fs) ≡ map (stamp t') fs
map-stamp t t' [] = refl
map-stamp t t' (f ∷ fs) =
    ap₂ (λ x (l : List Fields). x ∷ l) (stamp-stamp t t' f) (map-stamp t t' fs)

stamp_create-last :
    (t t' : String) (data_clause : Payload)
    → stamp t' (stamp_create t data_clause) ≡ stamp_create t' data_clause
unfolding stamp_create
stamp_create-last t t' absent = stamp-stamp t t' end
stamp_create-last t t' (row fields) = stamp-stamp t t' fields
stamp_create-last t t' (rows fs) = stamp-stamp t t' (spread_rows 0 fs)

scope_operation-last :
    (operation : String) (args : OperationArgs) (t t' : String)
    → scope_operation operation (scope_operation operation args t) t'
      ≡ scope_operation operation args t'
unfolding scope_operation stamp_clause rows_of stamp_create
scope_operation-last operation args t t' = elim (Bool-cases (str_eq operation "create")) [
  | inl one ↦ rw one (
      ap (λ (f : Fields). record args { data_clause = row f })
        (stamp_create-last t t' args.data_clause))
  | inr other ↦ elim (Bool-cases (str_eq operation "createMany")) [
    | inl many ↦
        rw (other, many)
          (ap (λ (l : List Fields). record args { data_clause = rows l })
            (map-stamp t t' (rows_of args.data_clause)))
    | inr neither ↦ elim (Bool-cases (str_eq operation "upsert")) [
      | inl both ↦
          rw (other, neither, both)
            (ap₂ (λ (f g : Fields). record args { where_clause = some f; create_clause = some g })
              (stamp-stamp t t' (or_else args.where_clause end))
              (stamp-stamp t t' (or_else args.create_clause end)))
      | inr reads ↦
          rw (other, neither, reads)
            (ap (λ (f : Fields). record args { where_clause = some f })
              (stamp-stamp t t' (or_else args.where_clause end)))
    ]
  ]
]

-- Two scopes, one after the other, are the second alone: whatever tenant the arguments named
-- before, the one of the context wins. In particular the scoping is idempotent.
pub apply_tenant_scope-last :
    (model operation : String) (args : OperationArgs) (t t' : String)
    → apply_tenant_scope model operation (apply_tenant_scope model operation args t) t'
      ≡ apply_tenant_scope model operation args t'
unfolding apply_tenant_scope
apply_tenant_scope-last model operation args t t' = elim (Bool-cases (is_admin model)) [
  | inl admin ↦ rw admin refl
  | inr scoped ↦ rw scoped (scope_operation-last operation args t t')
]
