-- ===== src/Users/Tests.antt =====
-- A login over the database in memory.
use agentdesk_nestjs.Base.{
  refl, [], ◌∷◌, units, str_eq, same_text, decode, decode_from, char_of, if◌then◌else◌,
}
use agentdesk_nestjs.Json.{str, Fields, end, field}
use agentdesk_nestjs.Tenancy.Memory.{Tables, view, memory, plan}
use agentdesk_nestjs.Tenancy.Database.{matches, is_text}
use agentdesk_nestjs.Tenancy.Memory.Laws.{memory-Database}
use agentdesk_nestjs.Auth.{LoginResult, login, admit, issue_tokens, issue_for, issue}
use agentdesk_nestjs.Users.{users_service, find_user, find_by_email, find_by_id}
use agentdesk_nestjs.Users.Fixture.{no_tokens, plain_crypto, sign_id}
use agentdesk_nestjs.Users.Login.{Admitted, login-Issued}

abbrev ana : Fields
ana = field "id" (str (units "u1")) (
    field "tenantId" (str (units "t1")) (
      field "role" (str (units "ADMIN"))
        (field "email" (str (units "a@b")) (field "passwordHash" (str (units "pw")) end))))

abbrev tables : Tables
tables model = if str_eq model "User" then ana ∷ [] else []

abbrev tokens : LoginResult
tokens = record { access_token = "u1"; refresh_token = "raw" }

login-Issued_example :
    Admitted memory view memory-Database no_tokens plain_crypto sign_id 9 "a@b" "pw" tokens tables
      (login no_tokens plain_crypto (users_service memory) sign_id 9 "a@b" "pw" tables).1
unfolding login find_by_email find_user memory plan admit matches is_text same_text decode
    decode_from char_of issue_tokens find_by_id issue_for issue
login-Issued_example =
    login-Issued memory view memory-Database no_tokens plain_crypto sign_id 9 "a@b" "pw" tables
      {r = tokens} refl
