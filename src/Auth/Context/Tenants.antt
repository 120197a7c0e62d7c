-- ===== src/Auth/Context/Tenants.antt =====
-- Requests to the ticket service, from the middleware to the database.
use mathlib.Core.Path.{subst}
use agentdesk_nestjs.Base.{
  ◌≡◌, refl, sym, ap, ◌∙◌, ◌⊎◌, inl, inr, Bool, false, List, [], ◌∷◌, Option, none, some, String,
  Text, str_eq, Exception, Action, Result, ok, raise, if◌then◌else◌, Bool-cases,
}
use agentdesk_nestjs.Json.{Fields}
use agentdesk_nestjs.Tenancy.{TenantContext, active_tenant, get_tenant_id}
use agentdesk_nestjs.Tenancy.Database.{QueryResult, Database}
use agentdesk_nestjs.Tickets.{TicketCall, serve}
use agentdesk_nestjs.Tenancy.Confinement.{Client, Isolated, Isolated-later}
use agentdesk_nestjs.Tickets.Tenants.{serve-Isolated}
use agentdesk_nestjs.Tickets.Answers.{serve_without_tenant}
use agentdesk_nestjs.Auth.Context.{
  JwtPayload, AuthUser, AuthenticatedRequest, is_public, token_of, user_of, context_of,
  context_named, dev_header_tenant_id, extract_bearer, extract_cookie, with_header, with_token,
  admit_user, use_middleware,
}
use agentdesk_nestjs.Auth.Context.Admission.{
  Outcome, Ends, public, malformed, named, missing, unverified, verified, Named, continue,
  use_middleware-Ends,
}

-- A token that is verified is the only source of a context, but for the header where it is allowed.
module _ {S : Type 0} (allowed : Bool) (verify : Text → Action S JwtPayload)
    (req : AuthenticatedRequest) (s : S) where
  pub data Identifies : TenantContext → Type 0 where
    by_header : (id : String) → Named allowed verify req s id → Identifies (context_named id)
    by_token :
        (token : Text) (payload : JwtPayload) (t : S)
        → token_of req ≡ some token
        → verify token s ≡ (ok payload, t)
        → Identifies (context_of (user_of payload))

module _ {S : Type 0} (query : Client S) (rows : String → S → List Fields)
    (db : Database query rows) where
  -- The service in any context, one with an empty tenant included.
  pub serve_in-Isolated :
      (context : TenantContext) (call : TicketCall) (s : S)
      → Isolated query rows "Ticket" context.tenant_id s (serve query (some context) call s)
  unfolding active_tenant get_tenant_id
  serve_in-Isolated context call s = elim (Bool-cases (str_eq context.tenant_id "")) [
    | inl empty ↦
        rw (serve_without_tenant query (some context) call s (rw empty refl))
          (refl, (λ m _. refl), tt)
    | inr there ↦
        serve-Isolated query rows (some context) context.tenant_id (rw there refl) db call s
  ]

  module _ (allowed : Bool) (verify : Text → Action S JwtPayload)
      (leaves : (token : Text) (s : S) (m : String) → rows m (verify token s).1 ≡ rows m s)
      (call : AuthenticatedRequest → TicketCall) where
    -- The request to the service, behind the middleware.
    abbrev pub requested : AuthenticatedRequest → Action S QueryResult
    requested = use_middleware allowed verify (λ req context. serve query context (call req))

    -- What becomes of a request: it is refused and no table changes, or it stays with the tickets
    -- of the tenant that identifies it.
    abbrev pub Confined : AuthenticatedRequest → S → Result QueryResult × S → Type 0
    Confined req s x =
        ((e : Exception) × (x.0 ≡ raise e) × ((m : String) → rows m x.1 ≡ rows m s))
        ⊎ ((context : TenantContext) × Identifies allowed verify req s context
            × Isolated query rows "Ticket" context.tenant_id s x)

    -- A request to the ticket service on a path that is not public either throws and leaves every
    -- table as it was, or its context is that of a verified token, or of the header where the
    -- setting allows it, and then it leaves the tickets of all other tenants and every other table
    -- as they were and returns tickets of its tenant only. The database behaves as documented, and
    -- the token service changes no table.
    pub requested-Confined :
        (req : AuthenticatedRequest) (s : S)
        → is_public req.original_url ≡ false
        → Confined req s (requested req s)
    requested-Confined req s closed =
        let (o, how, does) = use_middleware-Ends allowed verify req s in
        subst (Confined req s) (sym (does _)) (confined o how)
      where
        confined :
            (o : Outcome S)
            → Ends allowed verify req s o
            → Confined req s (continue (λ req context. serve query context (call req)) o)
        confined _ (public free) = cc (free, closed)
        confined _ (malformed id _ _ _ _) = inl (_, refl, λ m. refl)
        confined _ (missing _ _ _) = inl (_, refl, λ m. refl)
        confined _ (unverified token e t _ _ _ told) =
            inl (_, refl, λ m. sym (ap (λ x. rows m x.1) told) ∙ leaves token s m)
        confined _ (named id _ says) =
            inr (
              context_named id,
              by_header id says,
              serve_in-Isolated (context_named id) (call req) s,
            )
        confined _ (verified token payload t _ _ given told) =
            let context = context_of (user_of payload) in
            let same : (m : String) → rows m t ≡ rows m s =
              λ m. sym (ap (λ x. rows m x.1) told) ∙ leaves token s m in
            inr (
              context,
              by_token token payload t given told,
              Isolated-later query rows "Ticket" payload.tenant_id s t _ same
                  (serve_in-Isolated context _ t),
            )

module _ {S A : Type 0} (verify : Text → Action S JwtPayload)
    (k : Option AuthUser → Option TenantContext → Action S A) where
  -- What follows the middleware reads the user of the request and the context.
  abbrev reads : AuthenticatedRequest → Option TenantContext → Action S A
  reads req context = k req.user context

  -- The request with the header of a tenant set, or taken away.
  abbrev pub with_tenant_header : Option String → AuthenticatedRequest → AuthenticatedRequest
  with_tenant_header o req = record req {
    header = λ k. if str_eq k "x-tenant-id" then o else req.header k;
  }

  with_token-header :
      (o : Option String) (req : AuthenticatedRequest) (token : Option Text)
      → with_token false verify reads (with_tenant_header o req) token
        ≡ with_token false verify reads req token
  unfolding with_token admit_user
  with_token-header o req none = refl
  with_token-header o req (some []) = refl
  with_token-header o req (some (c ∷ token)) = refl

  -- Where the setting does not allow it, the header of a tenant has no influence: not on whether a
  -- request gets past the middleware, and not on the user and the context that it goes on with.
  pub use_middleware-tenant_header :
      (o : Option String) (req : AuthenticatedRequest) (s : S)
      → use_middleware false verify (λ r context. k r.user context) (with_tenant_header o req) s
        ≡ use_middleware false verify (λ r context. k r.user context) req s
  unfolding use_middleware dev_header_tenant_id with_header extract_bearer extract_cookie
  use_middleware-tenant_header o req s = elim (Bool-cases (is_public req.original_url)) [
    | inl free ↦ rw free refl
    | inr closed ↦ rw closed (ap (λ m. m s) (with_token-header o req (token_of req)))
  ]
