-- ===== src/Signup/Whole.antt =====
-- A signup happens as a whole or not at all.
use mathlib.Core.Path.{subst}
use agentdesk_nestjs.Base.{
  ◌≡◌, ◌≢◌, refl, ap, ◌∙◌, Bool, true, false, List, [], ◌∷◌, ◌++◌, Option, none, some, String,
  str_eq, Exception, Action, Result, ok, raise, proceed, handle, ◌>>=◌, pure, throw, try_catch,
  >>=-eq-ok, state_eq, if◌then◌else◌, Bool-cases, inl, inr,
}
use agentdesk_nestjs.Json.{Json, Fields}
use agentdesk_nestjs.Tenancy.{
  OperationArgs, row, all_operations, scoped_as, apply_tenant_scope, scope_operation, stamp_create,
  stamp, set_field, active_tenant, get_tenant_id,
}
use agentdesk_nestjs.Tenancy.Database.{QueryResult, Database, HasColumns, text_ne}
use agentdesk_nestjs.Tickets.{no_args}
use agentdesk_nestjs.Auth.Context.{context_named}
use agentdesk_nestjs.Signup.{
  SignupDto, SignupResult, plan_of, asks_for_more, tenant_row, admin_row, create_both, report,
  signup, already_registered,
}

-- What a signup relies on, over the rows of the tables: a transaction does what its body does, and
-- changes nothing if the body throws; making an id or a hash changes nothing.
pub record Atomic {S : Type 0} (rows : String → S → List Fields)
    (transaction : Action S Json → Action S Json) (random_uuid : Action S String)
    (hash : String → Action S String) : Type 0 where
  pub commits :
      (body : Action S Json) (s : S) {r : Json} {t : S}
      → transaction body s ≡ (ok r, t)
      → (u : S) × (body s ≡ (ok r, u)) × ((m : String) → rows m t ≡ rows m u)
  pub rolls_back :
      (body : Action S Json) (s : S) {e : Exception} {t : S}
      → transaction body s ≡ (raise e, t)
      → (m : String) → rows m t ≡ rows m s
  pub uuid_keeps : (s : S) (m : String) → rows m (random_uuid s).1 ≡ rows m s
  pub hash_keeps : (password : String) (s : S) (m : String) → rows m (hash password s).1 ≡ rows m s

module _ {S : Type 0} (query : String → String → OperationArgs → Action S QueryResult)
    (transaction : Action S Json → Action S Json) (code : Exception → Option String)
    (random_uuid : Action S String) (hash : String → Action S String)
    (rows : String → S → List Fields) (db : Database query rows)
    (atomic : Atomic rows transaction random_uuid hash) where
  abbrev Same : S → S → Type 0
  Same s t = (m : String) → rows m t ≡ rows m s

  -- The two rows of a signup, and nothing else.
  abbrev pub Adds : SignupDto → String → String → S → S → Type 0
  Adds dto tenant_id password_hash s t =
      (tenant admin : Fields) × HasColumns (tenant_row dto tenant_id) tenant
      × HasColumns (admin_row dto tenant_id password_hash) admin
      × (rows "Tenant" t ≡ rows "Tenant" s ++ tenant ∷ [])
      × (rows "User" t ≡ rows "User" s ++ admin ∷ [])
      × ((m : String) → m ≢ "Tenant" → m ≢ "User" → rows m t ≡ rows m s)

  -- The hash was made of the password.
  abbrev pub MadeOf : String → String → Type 0
  MadeOf password password_hash = (u v : S) × (hash password u ≡ (ok password_hash, v))

  -- A failed signup leaves every table as it was.
  abbrev pub WholeOrNone : SignupDto → S → Result SignupResult × S → Type 0
  WholeOrNone dto s (raise e, t) = (m : String) → rows m t ≡ rows m s
  WholeOrNone dto s (ok r, t) =
      (password_hash : String) × MadeOf dto.admin_password password_hash
      × Adds dto r.tenant_id password_hash s t

  abbrev create_tenant : SignupDto → String → Action S QueryResult
  create_tenant dto tenant_id =
      query "Tenant" "create" (record no_args { data_clause = row (tenant_row dto tenant_id) })

  abbrev create_admin : SignupDto → String → String → Action S QueryResult
  create_admin dto tenant_id password_hash =
      query "User" "create"
        (record no_args { data_clause = row (admin_row dto tenant_id password_hash) })

  abbrev scoped_admin : SignupDto → String → String → Action S QueryResult
  scoped_admin dto tenant_id password_hash =
      all_operations query none (some (context_named tenant_id)) "User" "create"
        (record no_args { data_clause = row (admin_row dto tenant_id password_hash) })

  -- The user is created with the tenant of the context, which is the one that it names.
  scoped_admin-ok :
      (dto : SignupDto) (tenant_id password_hash : String) (s : S) {r : QueryResult} {t : S}
      → scoped_admin dto tenant_id password_hash s ≡ (ok r, t)
      → create_admin dto tenant_id password_hash s ≡ (ok r, t)
  unfolding all_operations scoped_as apply_tenant_scope scope_operation stamp_create stamp set_field
      active_tenant get_tenant_id
  scoped_admin-ok dto tenant_id password_hash s e = elim (Bool-cases (str_eq tenant_id "")) [
    | inl empty ↦ cc (ap (λ (x : Result QueryResult × S). x.0) (rw empty at e))
    | inr there ↦ rw there at e
  ]

  create_both-Adds :
      (dto : SignupDto) (tenant_id password_hash : String) (s : S) {r : Json} {t : S}
      → create_both query transaction code random_uuid hash dto tenant_id password_hash s
        ≡ (ok r, t)
      → Adds dto tenant_id password_hash s t
  unfolding create_both all_operations
  create_both-Adds dto tenant_id password_hash s {r} {t} e =
      let (_, u, first, rest) = >>=-eq-ok (create_tenant dto tenant_id) _ s e in
      let (_, v, second, last) = >>=-eq-ok (scoped_admin dto tenant_id password_hash) _ u rest in
      let (tables, (tenant, _, has, added)) =
        db.create "Tenant" _ (tenant_row dto tenant_id) s refl first in
      let (tables', (admin, _, has', added')) =
        db.create "User" _ (admin_row dto tenant_id password_hash) u refl
          (scoped_admin-ok dto tenant_id password_hash u second) in
      subst (λ t. Adds dto tenant_id password_hash s t) (state_eq last)
        (
          tenant,
          admin,
          has,
          has',
          tables' "Tenant" (text_ne "Tenant" "User" refl) ∙ added,
          added' ∙ ap (λ rs. rs ++ admin ∷ []) (tables "User" (text_ne "User" "Tenant" refl)),
          λ m not_tenant not_user. tables' m not_user ∙ tables m not_tenant,
        )

  -- Tables that are the same before or after.
  Adds-between :
      (dto : SignupDto) (tenant_id password_hash : String) (s s' t t' : S)
      → Same s s'
      → Same t t'
      → Adds dto tenant_id password_hash s' t
      → Adds dto tenant_id password_hash s t'
  Adds-between dto tenant_id password_hash s s' t t' before after
        (tenant, admin, has, has', added, added', others) =
      (
        tenant,
        admin,
        has,
        has',
        after "Tenant" ∙ added ∙ ap (λ rs. rs ++ tenant ∷ []) (before "Tenant"),
        after "User" ∙ added' ∙ ap (λ rs. rs ++ admin ∷ []) (before "User"),
        λ m not_tenant not_user. after m ∙ others m not_tenant not_user ∙ before m,
      )

  -- A step that changes no table, and what follows it.
  quiet-WholeOrNone :
      {A : Type 0} (dto : SignupDto) (m : Action S A) (k : A → Action S SignupResult) (s u : S)
      → Same s u
      → ((n : String) → rows n (m u).1 ≡ rows n u)
      → ((a : A) (v : S) → m u ≡ (ok a, v) → Same s v → WholeOrNone dto s (k a v))
      → WholeOrNone dto s ((m >>= k) u)
  quiet-WholeOrNone {A} dto m k s u before quiet later =
      go (m u).0 (m u).1 refl (λ n. quiet n ∙ before n)
    where
      go : (r : Result A) (v : S) → m u ≡ (r, v) → Same s v → WholeOrNone dto s (proceed r v k)
      go (ok a) v ended same = later a v ended same
      go (raise e) v ended same = same

  abbrev body : SignupDto → String → String → Action S Json
  body = create_both query transaction code random_uuid hash

  abbrev answer : SignupDto → String → Json → Action S SignupResult
  answer dto tenant_id admin_user_id =
      pure (record { tenant_id = tenant_id; admin_user_id = admin_user_id; plan = plan_of dto })

  abbrev attempt : SignupDto → String → String → Action S SignupResult
  attempt dto tenant_id password_hash =
      try_catch (transaction (body dto tenant_id password_hash) >>= answer dto tenant_id)
        (report query transaction code random_uuid hash)

  attempt-WholeOrNone :
      (dto : SignupDto) (tenant_id password_hash : String) (s u : S)
      → MadeOf dto.admin_password password_hash
      → Same s u
      → WholeOrNone dto s (attempt dto tenant_id password_hash u)
  unfolding report
  attempt-WholeOrNone dto tenant_id password_hash s u made before =
      go (transaction (body dto tenant_id password_hash) u).0
        (transaction (body dto tenant_id password_hash) u).1 refl
    where
      reported :
          (b : Bool) (e : Exception) (t : S)
          → Same s t
          → WholeOrNone dto s
              ((if b then throw {S = S} {A = SignupResult} already_registered else throw e) t)
      reported true e t same = same
      reported false e t same = same

      go :
          (r : Result Json) (t : S)
          → transaction (body dto tenant_id password_hash) u ≡ (r, t)
          → let x : Result SignupResult × S = proceed r t (answer dto tenant_id) in
            WholeOrNone dto s (handle x.0 x.1 (report query transaction code random_uuid hash))
      go (raise e) t failed =
          reported _ e t
            (λ m. atomic.rolls_back (body dto tenant_id password_hash) u failed m ∙ before m)
      go (ok r) t done =
          let (v, did, after) = atomic.commits (body dto tenant_id password_hash) u done in
          (
            password_hash,
            made,
            Adds-between dto tenant_id password_hash s u v t before after
                (create_both-Adds dto tenant_id password_hash u did),
          )

  -- A signup that succeeds adds the tenant and its administrator, with the id that is returned and a
  -- hash of the password, and changes no other table; one that throws, for the plan, for a duplicate or for any failure of
  -- the client, the hash or the id, changes no table at all. The client and the transaction behave
  -- as documented.
  pub signup-WholeOrNone :
      (dto : SignupDto) (s : S)
      → WholeOrNone dto s (signup query transaction code random_uuid hash dto s)
  unfolding signup
  signup-WholeOrNone dto s = elim (Bool-cases (asks_for_more dto.plan)) [
    | inl more ↦ rw more (λ m. refl)
    | inr free ↦ rw free (
        quiet-WholeOrNone dto random_uuid _ s s (λ m. refl) (atomic.uuid_keeps s)
          (λ tenant_id u drawn same.
            quiet-WholeOrNone dto (hash dto.admin_password) _ s u same
              (atomic.hash_keeps dto.admin_password u)
              (λ password_hash v hashed same'.
                attempt-WholeOrNone dto tenant_id password_hash s v (u, v, hashed) same')))
  ]
