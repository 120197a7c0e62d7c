-- ===== src/Chat/Requests.antt =====
-- A request to the agent, from the middleware to the database.
use mathlib.Core.Path.{subst}
use agentdesk_nestjs.Base.{
  ◌≡◌, refl, sym, ap, ◌∙◌, ◌⊎◌, inl, inr, Bool, false, List, String, Text, Exception, Action,
  Result, raise,
}
use agentdesk_nestjs.Json.{Fields}
use agentdesk_nestjs.Tenancy.{TenantContext}
use agentdesk_nestjs.Tenancy.Database.{Database, foreign}
use agentdesk_nestjs.Tenancy.Confinement.{Client}
use agentdesk_nestjs.Tickets.AgentTools.{ZodObject}
use agentdesk_nestjs.Agent.{World, AgentService, ChatResponse, on_store}
use agentdesk_nestjs.Auth.Context.{
  JwtPayload, AuthenticatedRequest, is_public, user_of, context_of, context_named, use_middleware,
}
use agentdesk_nestjs.Auth.Context.Admission.{
  Outcome, Ends, public, malformed, named, missing, unverified, verified, continue,
  use_middleware-Ends,
}
use agentdesk_nestjs.Auth.Context.Tenants.{Identifies, by_header, by_token}
use agentdesk_nestjs.Chat.Store.{OnlyOwn, agent_in, respond_to-OnlyOwn}
use agentdesk_nestjs.Chat.{ChatCall, respond_to}

-- What happens after a step that changes no table.
OnlyOwn-after :
    {S : Type 0} (rows : String → S → List Fields) (tenant_id : String) (s t u : S)
    → ((m : String) → rows m t ≡ rows m s)
    → OnlyOwn rows tenant_id t u
    → OnlyOwn rows tenant_id s u
OnlyOwn-after rows tenant_id s t u same (tickets, conversations, tables) = (
  tickets ∙ ap (foreign tenant_id) (same "Ticket"),
  conversations ∙ ap (foreign tenant_id) (same "Conversation"),
  λ m no_ticket no_conversation. tables m no_ticket no_conversation ∙ same m,
)

module _ {S P : Type 0} (query : Client S) (rows : String → S → List Fields)
    (db : Database query rows) (service : AgentService ZodObject S P) where
  module _ (allowed : Bool) (verify : Text → Action S JwtPayload)
      (quiet : (token : Text) (s : S) (m : String) → rows m (verify token s).1 ≡ rows m s)
      (call : AuthenticatedRequest → ChatCall) where
    abbrev pub check : Text → Action (World S P) JwtPayload
    check token = on_store (verify token)

    -- The request to the agent, behind the middleware.
    abbrev pub asked : AuthenticatedRequest → Action (World S P) ChatResponse
    asked =
        use_middleware allowed check
          (λ req context. respond_to (agent_in query rows db service context) context (call req))

    -- What becomes of a request: it is refused and no table changes, or the rows of all other tenants
    -- than the one that identifies it stay as they are.
    abbrev pub Confined :
        AuthenticatedRequest → World S P → Result ChatResponse × World S P → Type 0
    Confined req w x =
        ((e : Exception) × (x.0 ≡ raise e) × ((m : String) → rows m x.1.store ≡ rows m w.store))
        ⊎ ((context : TenantContext) × Identifies allowed check req w context
            × OnlyOwn rows context.tenant_id w.store x.1.store)

    -- A request to the agent, to chat or to approve, on a path that is not public either throws and
    -- leaves every table as it was, or its context is that of a verified token, or of the header
    -- where the setting allows it, and then, whatever the model answers, and whether the request
    -- returns or throws, the tickets and the conversations of all other tenants stay as they were,
    -- and so does every other table. The database behaves as documented, and the token service
    -- changes no table.
    pub asked-Confined :
        (req : AuthenticatedRequest) (w : World S P)
        → is_public req.original_url ≡ false
        → Confined req w (asked req w)
    asked-Confined req w closed =
        let (o, how, does) = use_middleware-Ends allowed check req w in
        subst (Confined req w) (sym (does _)) (confined o how)
      where
        confined :
            (o : Outcome (World S P))
            → Ends allowed check req w o
            → Confined req w (
                continue
                  (λ req context.
                    respond_to (agent_in query rows db service context) context (call req))
                  o)
        confined _ (public free) = cc (free, closed)
        confined _ (malformed id _ _ _ _) = inl (_, refl, λ m. refl)
        confined _ (missing _ _ _) = inl (_, refl, λ m. refl)
        confined _ (unverified token e v _ _ _ told) =
            inl (_, refl, λ m. sym (ap (λ x. rows m x.1.store) told) ∙ quiet token w.store m)
        confined _ (named id _ says) = inr (
          context_named id,
          by_header id says,
          respond_to-OnlyOwn query rows db service (context_named id) (call req) w,
        )
        confined _ (verified token payload v _ _ given told) =
            let context = context_of (user_of payload) in
            inr (
              context,
              by_token token payload v given told,
              OnlyOwn-after rows context.tenant_id w.store v.store _
                  (λ m. sym (ap (λ x. rows m x.1.store) told) ∙ quiet token w.store m)
                  (respond_to-OnlyOwn query rows db service context (call _) v),
            )
