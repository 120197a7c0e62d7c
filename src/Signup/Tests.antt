-- ===== src/Signup/Tests.antt =====
-- A signup over the database in memory.
use agentdesk_nestjs.Base.{
  ◌≡◌, refl, sym, ap, [], none, some, Option, String, Exception, Action, Result, ok, raise,
  state_eq, ◌∙◌, str_eq, false, same_text, decode, decode_from, char_of,
}
use agentdesk_nestjs.Json.{Json, null}
use agentdesk_nestjs.Tenancy.Memory.{Tables, view, memory, plan}
use agentdesk_nestjs.Tenancy.Memory.Laws.{memory-Database}
use agentdesk_nestjs.Json.{set_field}
use agentdesk_nestjs.Tenancy.{
  all_operations, scoped_as, active_tenant, get_tenant_id, apply_tenant_scope, scope_operation,
  stamp_create, stamp,
}
use agentdesk_nestjs.Tenancy.Database.{matches, is_text}
use agentdesk_nestjs.Auth.{User, login, issue_tokens, invalid_credentials}
use agentdesk_nestjs.Users.{users_service, find_by_email, find_user}
use agentdesk_nestjs.Users.Fixture.{no_tokens, plain_crypto, sign_id, hash-matches}
use agentdesk_nestjs.Signup.{SignupDto, SignupResult, signup, create_both}
use agentdesk_nestjs.Signup.Login.{signup-login}
use agentdesk_nestjs.Signup.Whole.{Atomic, WholeOrNone, signup-WholeOrNone}

-- A transaction restores the tables if its body throws.
abbrev restoring : Result Json → Tables → Action Tables Json
restoring (ok r) t s = (ok r, t)
restoring (raise e) t s = (raise e, s)

abbrev transaction : Action Tables Json → Action Tables Json
transaction body s = restoring (body s).0 (body s).1 s

abbrev random_uuid : Action Tables String
random_uuid s = (ok "t1", s)

abbrev hash : String → Action Tables String
hash = plain_crypto.hash

abbrev no_code : Exception → Option String
no_code e = none

restoring-Atomic : Atomic view transaction random_uuid hash
restoring-Atomic = record {
  commits = λ body s {r} {t} h. committed body s (body s).0 (body s).1 refl h;
  rolls_back = λ body s {e} {t} h m. undone body s (body s).0 (body s).1 h m;
  uuid_keeps = λ s m. refl;
  hash_keeps = λ password s m. refl;
}
  where
    committed :
        (body : Action Tables Json) (s : Tables) (r : Result Json) (u : Tables) {a : Json}
        {t : Tables}
        → body s ≡ (r, u)
        → restoring r u s ≡ (ok a, t)
        → (v : Tables) × (body s ≡ (ok a, v)) × ((m : String) → view m t ≡ view m v)
    committed body s (ok b) u did h = (
      u,
      did ∙ (λ i. (ap (λ (x : Result Json × Tables). x.0) h i, u)),
      λ m. ap (view m) (sym (state_eq h)),
    )
    committed body s (raise e) u did h = cc (ap (λ (x : Result Json × Tables). x.0) h)

    undone :
        (body : Action Tables Json) (s : Tables) (r : Result Json) (u : Tables) {e : Exception}
        {t : Tables}
        → restoring r u s ≡ (raise e, t)
        → (m : String) → view m t ≡ view m s
    undone body s (ok b) u h m = cc (ap (λ (x : Result Json × Tables). x.0) h)
    undone body s (raise e) u h m = ap (view m) (sym (state_eq h))

abbrev acme : SignupDto
acme = record {
  company_name = "Acme";
  workspace_name = "acme";
  admin_email = "ana@acme";
  admin_password = "password123";
  plan = some "FREE";
}

abbrev empty : Tables
empty m = []

signup-WholeOrNone_example :
    WholeOrNone memory transaction no_code random_uuid hash view memory-Database restoring-Atomic
      acme empty
      (signup memory transaction no_code random_uuid hash acme empty)
signup-WholeOrNone_example =
    signup-WholeOrNone memory transaction no_code random_uuid hash view memory-Database
      restoring-Atomic acme empty

abbrev signed_up : SignupResult
signed_up = record { tenant_id = "t1"; admin_user_id = null; plan = "FREE" }

abbrev after : Tables
after = (signup memory transaction no_code random_uuid hash acme empty).1

abbrev ana : User
ana = record {
  id = "";
  tenant_id = "t1";
  role = "ADMIN";
  email = "ana@acme";
  password_hash = "password123";
}

signup-login_example :
    (admin : User) × (admin.tenant_id ≡ "t1")
    × (admin.role ≡ "ADMIN")
    × (login no_tokens plain_crypto (users_service memory) sign_id 9 "ana@acme" "password123" after
        ≡ issue_tokens no_tokens plain_crypto
            (users_service memory)
            sign_id
            9
            admin.id
            (find_by_email memory "ana@acme" after).1)
    × ((other : String)
        → str_eq other admin.password_hash ≡ false
        → login no_tokens plain_crypto (users_service memory) sign_id 9 "ana@acme" other after
          ≡ (raise invalid_credentials, (find_by_email memory "ana@acme" after).1))
unfolding signup create_both all_operations memory plan scoped_as active_tenant get_tenant_id
    apply_tenant_scope scope_operation stamp_create stamp set_field find_by_email find_user matches
    is_text same_text decode decode_from char_of
signup-login_example =
    signup-login memory transaction no_code random_uuid no_tokens plain_crypto sign_id 9 view
      memory-Database restoring-Atomic hash-matches acme empty after
      (find_by_email memory "ana@acme" after).1 signed_up (some ana) refl refl refl
