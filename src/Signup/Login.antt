-- ===== src/Signup/Login.antt =====
-- A signup and the logins after it: the administrator that it makes can log in.
use mathlib.Core.Path.{subst}
use agentdesk_nestjs.Base.{
  ℕ, ◌≡◌, refl, sym, ap, ◌∙◌, inl, inr, Bool, true, false, ◌&&◌, List, [], ◌∷◌, ◌++◌, Option, some,
  String, units, decode-units, In, select, select-append, Exception, Action, Result, ok, raise,
  proceed, >>=-eq-ok, ok-injective, if◌then◌else◌,
}
use agentdesk_nestjs.Json.{Json, str, Fields, get_field}
use agentdesk_nestjs.Tenancy.{OperationArgs}
use agentdesk_nestjs.Tenancy.Database.{
  QueryResult, Database, HasColumns, HasColumns-text, matches, is_text, textual, same_text_self,
}
use agentdesk_nestjs.Tickets.{no_args}
use agentdesk_nestjs.Auth.{
  TokenTable, Crypto, User, invalid_credentials, admit, login, issue_tokens, hash_of,
}
use agentdesk_nestjs.Users.{
  text_column, user_row, found_user, by, find_user, find_by_email, users_service,
}
use agentdesk_nestjs.Signup.{SignupDto, SignupResult, admin_row, signup}
use agentdesk_nestjs.Signup.Whole.{Atomic, WholeOrNone, signup-WholeOrNone}

-- The only row with the text in the column is the one that is found.
find_user-only :
    {S : Type 0} (query : String → String → OperationArgs → Action S QueryResult)
    (rows : String → S → List Fields) (db : Database query rows) (column value : String)
    (f : Fields) (s : S) {o : Option User} {t : S}
    → select (matches (by column value)) (rows "User" s) ≡ f ∷ []
    → find_user query column value s ≡ (ok o, t)
    → o ≡ some (user_row f)
unfolding find_user textual
find_user-only {S} query rows db column value f s {o} {t} only e =
    let args : OperationArgs = record no_args { where_clause = some (by column value) } in
    let (r, u, asked, last) = >>=-eq-ok (query "User" "findUnique" args) _ s e in
    let answer : found_user r ≡ o = ok-injective last in
    elim (db.find_unique "User" args s refl asked).1 [
      | inl (none_found, missing) ↦ let clash : f ∷ [] ≡ [] = sym only ∙ missing in cc clash
      | inr (g, found, inside) ↦
          sym answer
          ∙ ap found_user found
          ∙ ap (λ (h : Fields). some (user_row h)) (single g (subst (In g) only inside))
    ]
  where
    single : (g : Fields) → In g (f ∷ []) → g ≡ f
    single g (inl same) = same
    single g (inr later) = elim later [ ]

-- The row that a signup adds for the administrator, as a user, and its email.
admin_row-user :
    (dto : SignupDto) (tenant_id password_hash : String) (f : Fields)
    → HasColumns (admin_row dto tenant_id password_hash) f
    → ((user_row f).tenant_id ≡ tenant_id)
      × ((user_row f).role ≡ "ADMIN")
      × ((user_row f).password_hash ≡ password_hash)
      × (matches (by "email" dto.admin_email) f ≡ true)
unfolding matches is_text
admin_row-user dto tenant_id password_hash f has = (
  column "tenantId" tenant_id
      (HasColumns-text (admin_row dto tenant_id password_hash) f "tenantId" _ has refl),
  column "role" "ADMIN"
      (HasColumns-text (admin_row dto tenant_id password_hash) f "role" _ has refl),
  column "passwordHash" password_hash
      (HasColumns-text (admin_row dto tenant_id password_hash) f "passwordHash" _ has refl),
  ap (λ (v : Option Json). is_text v (str (units dto.admin_email)) && true)
        (HasColumns-text (admin_row dto tenant_id password_hash) f "email" _ has refl)
      ∙ ap (λ (b : Bool). b && true) (same_text_self (units dto.admin_email)),
)
  where
    column :
        (k value : String)
        → get_field k f ≡ some (str (units value))
        → text_column (get_field k f) ≡ value
    column k value has = ap text_column has ∙ decode-units value

module _ {S : Type 0} (query : String → String → OperationArgs → Action S QueryResult)
    (transaction : Action S Json → Action S Json) (code : Exception → Option String)
    (random_uuid : Action S String) (table : TokenTable S) (crypto : Crypto S)
    (sign : User → Action S String) (ttl : ℕ) (rows : String → S → List Fields)
    (db : Database query rows) (atomic : Atomic rows transaction random_uuid crypto.hash)
    (hashes : (password password_hash : String) (s t : S)
      → crypto.hash password s ≡ (ok password_hash, t)
      → crypto.compare password password_hash ≡ true) where
  -- If no user had the email, a signup succeeded, and the look-up of the email after it succeeds,
  -- then there is an administrator of the tenant that the signup returned, such that a login with
  -- the email and the password of the signup goes on to issue tokens for that user, and a login
  -- with the email and a password that does not match the user's hash is refused. The client and
  -- the transaction behave as documented, and a hash matches the password that it was made of.
  pub signup-login :
      (dto : SignupDto) (s t u : S) (r : SignupResult) (o : Option User)
      → select (matches (by "email" dto.admin_email)) (rows "User" s) ≡ []
      → signup query transaction code random_uuid crypto.hash dto s ≡ (ok r, t)
      → find_by_email query dto.admin_email t ≡ (ok o, u)
      → (admin : User) × (admin.tenant_id ≡ r.tenant_id)
        × (admin.role ≡ "ADMIN")
        × (login table crypto (users_service query) sign ttl dto.admin_email dto.admin_password t
            ≡ issue_tokens table crypto (users_service query) sign ttl admin.id u)
        × ((other : String)
            → crypto.compare other admin.password_hash ≡ false
            → login table crypto (users_service query) sign ttl dto.admin_email other t
              ≡ (raise invalid_credentials, u))
  unfolding login admit find_by_email
  signup-login dto s t u r o new signed_up looked =
      let (password_hash, (v, w, hashed), (tenant, f, _, has, _, added, _)) =
        subst (WholeOrNone query transaction code random_uuid crypto.hash rows db atomic dto s)
          signed_up
          (signup-WholeOrNone query transaction code random_uuid crypto.hash rows db atomic dto
            s) in
      let (tenant_of, role_of, hash_is, meets) =
        admin_row-user dto r.tenant_id password_hash f has in
      let p : Fields → Bool = matches (by "email" dto.admin_email) in
      let only : select p (rows "User" t) ≡ f ∷ [] =
        ap (select p) added
        ∙ select-append p (rows "User" s) (f ∷ [])
        ∙ ap (λ (fs : List Fields). fs ++ select p (f ∷ [])) new
        ∙ ap (λ (b : Bool). if b then f ∷ [] else []) meets in
      let found : o ≡ some (user_row f) =
        find_user-only query rows db "email" dto.admin_email f t only looked in
      let goes_on : (password : String)
          → login table crypto (users_service query) sign ttl dto.admin_email password t
            ≡ admit table crypto (users_service query) sign ttl
                (crypto.compare password (user_row f).password_hash) (some (user_row f)) u =
        λ password.
          ap
            (λ (x : Result (Option User) × S). proceed x.0 x.1 (λ user.
              admit table crypto (users_service query) sign ttl
                (crypto.compare password (hash_of user)) user))
            (looked ∙ ap (λ (x : Option User). (ok x, u)) found) in
      (
        user_row f,
        tenant_of,
        role_of,
        goes_on dto.admin_password
            ∙ ap
                (λ (b : Bool).
                  admit table crypto (users_service query) sign ttl b (some (user_row f)) u)
                (ap (crypto.compare dto.admin_password) hash_is
                  ∙ hashes dto.admin_password password_hash v w hashed),
        λ other differs.
            goes_on other
            ∙ ap
                (λ (b : Bool).
                  admit table crypto (users_service query) sign ttl b (some (user_row f)) u)
                differs,
      )
