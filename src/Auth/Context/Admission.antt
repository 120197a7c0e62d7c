-- ===== src/Auth/Context/Admission.antt =====
-- How a request gets past the middleware, and every way in which it does not.
use mathlib.Core.Path.{subst}
use agentdesk_nestjs.Base.{
  ℕ, ◌≡◌, ◌≢◌, refl, sym, Bool, true, false, not, [], ◌∷◌, Option, none, some, String, Text, str_eq,
  units, Exception, Action, Result, ok, raise, proceed, handle, if◌then◌else◌, Bool-cases, inl, inr,
}
use agentdesk_nestjs.Tenancy.{TenantContext}
use agentdesk_nestjs.Auth.Context.{
  JwtPayload, AuthenticatedRequest, is_public, is_uuid, invalid_header, missing_bearer,
  invalid_token, named_tenant_id, dev_header_tenant_id, token_of, user_of, context_of,
  context_named, admit_user, with_token, with_header, use_middleware,
}

-- A request is refused, or goes on with a context.
pub data Outcome (S : Type 0) : Type 0 where
  refused : Exception → S → Outcome S
  passed : AuthenticatedRequest → Option TenantContext → S → Outcome S

abbrev pub continue :
    {S A : Type 0}
    → (AuthenticatedRequest → Option TenantContext → Action S A)
    → Outcome S
    → Result A × S
continue next (refused e s) = (raise e, s)
continue next (passed req context s) = next req context s

module _ {S : Type 0} (allowed : Bool) (verify : Text → Action S JwtPayload)
    (req : AuthenticatedRequest) (s : S) where
  -- The header names the tenant.
  abbrev pub Named : String → Type 0
  Named id = (allowed ≡ true) × (req.header "x-tenant-id" ≡ some id) × (is_uuid (units id) ≡ true)

  -- No header names a tenant.
  abbrev pub Unnamed : Type 0
  Unnamed = dev_header_tenant_id allowed req ≡ ok none

  -- The ways of a request: the context is that of the header, or that of a token which was
  -- verified, and nothing else.
  pub data Ends : Outcome S → Type 0 where
    public : is_public req.original_url ≡ true → Ends (passed req none s)
    malformed :
        (id : String)
        → is_public req.original_url ≡ false
        → allowed ≡ true
        → req.header "x-tenant-id" ≡ some id
        → is_uuid (units id) ≡ false
        → Ends (refused invalid_header s)
    named :
        (id : String)
        → is_public req.original_url ≡ false
        → Named id
        → Ends (passed req (some (context_named id)) s)
    missing :
        is_public req.original_url ≡ false
        → Unnamed
        → ((c : ℕ) (t : Text) → token_of req ≢ some (c ∷ t))
        → Ends (refused missing_bearer s)
    unverified :
        (token : Text) (e : Exception) (t : S)
        → is_public req.original_url ≡ false
        → Unnamed
        → token_of req ≡ some token
        → verify token s ≡ (raise e, t)
        → Ends (refused invalid_token t)
    verified :
        (token : Text) (payload : JwtPayload) (t : S)
        → is_public req.original_url ≡ false
        → Unnamed
        → token_of req ≡ some token
        → verify token s ≡ (ok payload, t)
        → Ends (
            passed
              (record req { user = some (user_of payload) })
              (some (context_of (user_of payload)))
              t)

  -- What each outcome of the test of the header says.
  abbrev HeaderSays : Result (Option String) → Type 0
  HeaderSays (ok none) = Unit {0}
  HeaderSays (ok (some id)) = Named id
  HeaderSays (raise e) =
      (e ≡ invalid_header)
      × ((id : String) × (allowed ≡ true)
          × (req.header "x-tenant-id" ≡ some id)
          × (is_uuid (units id) ≡ false))

  named_tenant_id-Says :
      (o : Option String)
      → allowed ≡ true
      → req.header "x-tenant-id" ≡ o
      → HeaderSays (named_tenant_id o)
  unfolding named_tenant_id
  named_tenant_id-Says none on given = tt
  named_tenant_id-Says (some raw) on given = elim (Bool-cases (str_eq raw "")) [
    | inl empty ↦ rw empty tt
    | inr there ↦ elim (Bool-cases (is_uuid (units raw))) [
      | inl good ↦ rw (there, good) (on, given, good)
      | inr bad ↦ rw (there, bad) (refl, (raw, on, given, bad))
    ]
  ]

  dev_header_tenant_id-Says : HeaderSays (dev_header_tenant_id allowed req)
  unfolding dev_header_tenant_id
  dev_header_tenant_id-Says = elim (Bool-cases allowed) [
    | inl on ↦
        subst
          (λ b. HeaderSays (if not b then ok none else named_tenant_id (req.header "x-tenant-id")))
          (sym on) (named_tenant_id-Says (req.header "x-tenant-id") on refl)
    | inr off ↦
        subst
          (λ b. HeaderSays (if not b then ok none else named_tenant_id (req.header "x-tenant-id")))
          (sym off) tt
  ]

  module _ {A : Type 0} where
    -- The middleware does what the outcome says, whatever follows it.
    abbrev pub Does :
        ((AuthenticatedRequest → Option TenantContext → Action S A) → Result A × S) → Type 0
    Does run =
        (o : Outcome S) × Ends o
        × ((next : AuthenticatedRequest → Option TenantContext → Action S A)
            → run next ≡ continue next o)

    with_token-Ends :
        is_public req.original_url ≡ false
        → Unnamed
        → Does (λ next. with_token allowed verify next req (token_of req) s)
    unfolding with_token admit_user
    with_token-Ends closed unnamed = go (token_of req) refl
      where
        checked :
            (token : Text)
            → token_of req ≡ some token
            → (r : Result JwtPayload) (t : S) → verify token s ≡ (r, t)
            → Does (λ next.
              let caught = handle r t (λ _ u. (raise invalid_token, u)) in
              proceed caught.0 caught.1 (admit_user allowed verify next req))
        checked token given (ok payload) t e =
            (_, verified token payload t closed unnamed given e, λ next. refl)
        checked token given (raise x) t e =
            (_, unverified token x t closed unnamed given e, λ next. refl)

        go :
            (o : Option Text)
            → token_of req ≡ o
            → Does (λ next. with_token allowed verify next req o s)
        go none e = (_, missing closed unnamed (λ c t h. cc (e, h)), λ next. refl)
        go (some []) e = (_, missing closed unnamed (λ c t h. cc (e, h)), λ next. refl)
        go (some (c ∷ token)) e =
            checked (c ∷ token) e (verify (c ∷ token) s).0 (verify (c ∷ token) s).1 refl

    with_header-Ends :
        is_public req.original_url ≡ false
        → Does (λ next. with_header allowed verify next req (dev_header_tenant_id allowed req) s)
    unfolding with_header
    with_header-Ends closed = go (dev_header_tenant_id allowed req) refl dev_header_tenant_id-Says
      where
        go :
            (r : Result (Option String))
            → dev_header_tenant_id allowed req ≡ r
            → HeaderSays r
            → Does (λ next. with_header allowed verify next req r s)
        go (ok none) unnamed says = with_token-Ends closed unnamed
        go (ok (some id)) e says = (_, named id closed says, λ next. refl)
        go (raise x) e (same, (id, on, given, bad)) =
            (_, malformed id closed on given bad, λ next. rw same refl)

    pub use_middleware-Ends : Does (λ next. use_middleware allowed verify next req s)
    unfolding use_middleware
    use_middleware-Ends = elim (Bool-cases (is_public req.original_url)) [
      | inl free ↦ (_, public free, λ next. rw free refl)
      | inr closed ↦
          let (o, how, does) = with_header-Ends closed in (o, how, λ next. rw closed (does next))
    ]
