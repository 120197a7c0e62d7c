-- ===== src/Tenancy/Memory.antt =====
-- A database in memory: the client's laws can be met.
pub mod Columns
pub mod Laws
use agentdesk_nestjs.Base.{
  Bool, List, [], ◌∷◌, ◌++◌, Option, none, some, String, units, str_eq, select, if◌then◌else◌,
  Action, ok, raise, Exception, failure,
}
use agentdesk_nestjs.Json.{Fields, end, field}
use agentdesk_nestjs.Tenancy.{OperationArgs, Payload, absent, row, rows, set_field}
use agentdesk_nestjs.Tenancy.Database.{QueryResult, nothing, one, many, matches, where_of}

abbrev pub Table : Type 0
Table = List Fields

abbrev pub Tables : Type 0
Tables = String → Table

abbrev pub view : String → Tables → List Fields
view model s = s model

abbrev pub first_of : List Fields → QueryResult
first_of [] = nothing
first_of (f ∷ fs) = one f

-- The table around the first row that meets a test.
pub record Place : Type 0 where
  pub before : List Fields
  pub item : Fields
  pub after : List Fields

abbrev pub further : Fields → Option Place → Option Place
further f none = none
further f (some p) = some (record p { before = f ∷ p.before })

abbrev pub place : (Fields → Bool) → List Fields → Option Place
place p [] = none
place p (f ∷ fs) =
    let rest = further f (place p fs) in
    if p f then some (record { before = []; item = f; after = fs }) else rest

-- The columns of one object set in another.
unfoldable pub overlay : Fields → Fields → Fields
overlay end f = f
overlay (field k v d) f = set_field k v (overlay d f)

abbrev pub Plan : Type 0
Plan = Option (QueryResult × Table)

abbrev pub created : Payload → Table → Plan
created (row d) s = some (one d, s ++ d ∷ [])
created absent s = none
created (rows ds) s = none

abbrev pub updated : Payload → Option Place → Plan
updated (row d) (some p) = let g = overlay d p.item in some (one g, p.before ++ g ∷ p.after)
updated _ _ = none

abbrev pub deleted : Option Place → Plan
deleted none = none
deleted (some p) = some (one p.item, p.before ++ p.after)

-- What an operation does, if it succeeds.
unfoldable pub plan : String → OperationArgs → Table → Plan
plan operation args s =
    let met = matches (where_of args) in
    if str_eq operation "findMany"
    then some (many (select met s), s)
    else if str_eq operation "findUnique"
    then some (first_of (select met s), s)
    else if str_eq operation "findFirst"
    then some (first_of (select met s), s)
    else if str_eq operation "create"
    then created args.data_clause s
    else if str_eq operation "update"
    then updated args.data_clause (place met s)
    else if str_eq operation "delete"
    then deleted (place met s)
    else none

abbrev pub refused : Exception
refused = failure (units "refused")

abbrev pub put : String → Table → Tables → Tables
put model t s m = if str_eq model m then t else s m

abbrev pub commit : String → Plan → Action Tables QueryResult
commit model none s = (raise refused, s)
commit model (some (r, t)) s = (ok r, put model t s)

unfoldable pub memory : String → String → OperationArgs → Action Tables QueryResult
memory model operation args s = commit model (plan operation args (s model)) s
