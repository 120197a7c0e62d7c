-- ===== src/Users.antt =====
-- src/users/users.service.ts: the look-ups of users, by the base database client, which is not
-- scoped to a tenant.
pub mod Login
pub mod Fixture
mod Tests
use agentdesk_nestjs.Base.{Option, none, some, String, units, decode, Action, ◌>>=◌, pure}
use agentdesk_nestjs.Json.{Json, str, Fields, end, field, get_field}
use agentdesk_nestjs.Tenancy.{OperationArgs}
use agentdesk_nestjs.Tenancy.Database.{QueryResult, nothing, one, many}
use agentdesk_nestjs.Tickets.{no_args}
use agentdesk_nestjs.Auth.{User, Users}

-- The text of a column. The columns of a user are required texts; a row without one is not in the
-- table.
abbrev pub text_column : Option Json → String
text_column (some (str t)) = decode t
text_column _ = ""

abbrev pub user_row : Fields → User
user_row f = record {
  id = text_column (get_field "id" f);
  tenant_id = text_column (get_field "tenantId" f);
  role = text_column (get_field "role" f);
  email = text_column (get_field "email" f);
  password_hash = text_column (get_field "passwordHash" f);
}

abbrev pub found_user : QueryResult → Option User
found_user (one f) = some (user_row f)
found_user nothing = none
found_user (many fs) = none

abbrev pub by : String → String → Fields
by column value = field column (str (units value)) end

module _ {S : Type 0} (query : String → String → OperationArgs → Action S QueryResult) where
  unfoldable pub find_user : String → String → Action S (Option User)
  find_user column value =
      query "User" "findUnique" (record no_args { where_clause = some (by column value) }) >>= λ r.
      pure (found_user r)

  unfoldable pub find_by_email : String → Action S (Option User)
  find_by_email email = find_user "email" email

  unfoldable pub find_by_id : String → Action S (Option User)
  find_by_id id = find_user "id" id

  -- The service that the sessions use.
  abbrev pub users_service : Users S
  users_service = record { find_by_email = find_by_email; find_by_id = find_by_id }
