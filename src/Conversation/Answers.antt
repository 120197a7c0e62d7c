-- ===== src/Conversation/Answers.antt =====
-- What the conversation service finds and stores in the database of a request.
use mathlib.Core.Path.{subst}
use agentdesk_nestjs.Base.{
  ◌≡◌, refl, sym, ap, ◌∙◌, ◌⊎◌, inl, inr, true, List, Option, none, some, String, units, In,
  In-select, select-In, proceed, Result, ok, raise, >>=-eq-ok, ok-injective, state_eq,
}
use agentdesk_nestjs.Json.{str, Fields}
use agentdesk_nestjs.Tenancy.{
  TenantContext, OperationArgs, scope_operation, stamp, stamp_clause, set_field,
}
use agentdesk_nestjs.Tenancy.Database.{QueryResult, Database, matches, belongs, has_value, and_both}
use agentdesk_nestjs.Tenancy.Confinement.{Client}
use agentdesk_nestjs.Tickets.{no_args, by_id}
use agentdesk_nestjs.Tickets.Conditions.{textual-by_id}
use agentdesk_nestjs.Conversation.{Conversation}
use agentdesk_nestjs.Conversation.Service.{
  find_conversation, found_or_throw, conversation_not_found,
}
use agentdesk_nestjs.Conversation.Rows.{
  conversation_query, conversation_of, conversation_table, found_row, find_first,
}
use agentdesk_nestjs.Conversation.Tenants.{in_context}

-- The row has the id and belongs to the tenant.
abbrev pub OwnRow : String → String → Fields → Type 0
OwnRow tenant_id id f = (has_value "id" (str (units id)) f ≡ true) × (belongs tenant_id f ≡ true)

unfoldable pub own_id : String → String → Fields
own_id tenant_id id = stamp tenant_id (by_id (units id))

pub matches-OwnRow :
    (tenant_id id : String) (f : Fields)
    → matches (own_id tenant_id id) f ≡ true
    → OwnRow tenant_id id f
unfolding own_id stamp set_field matches
matches-OwnRow tenant_id id f meets =
    let (has_id, later) = and_both (has_value "id" (str (units id)) f) _ meets in
    (has_id, (and_both (belongs tenant_id f) true later).0)

pub OwnRow-matches :
    (tenant_id id : String) (f : Fields)
    → OwnRow tenant_id id f
    → matches (own_id tenant_id id) f ≡ true
unfolding own_id stamp set_field matches
OwnRow-matches tenant_id id f (has_id, own) = rw (has_id, own) refl

module _ {S : Type 0} (query : Client S) (rows : String → S → List Fields)
    (db : Database query rows) (context : TenantContext) where
  -- An answer of the client in a request is one of the base client.
  pub asked-ok :
      (operation : String) (args : OperationArgs) (s : S) {q : QueryResult} {u : S}
      → conversation_query query (some context) operation args s ≡ (ok q, u)
      → query "Conversation" operation (scope_operation operation args context.tenant_id) s
        ≡ (ok q, u)
  asked-ok operation args s {q} {u} =
      in_context query rows db context
        (λ x.
          x ≡ (ok q, u)
          → query "Conversation" operation (scope_operation operation args context.tenant_id) s
            ≡ (ok q, u))
        operation args s (λ e. cc (ap (λ (x : Result QueryResult × S). x.0) e)) (λ e. e)

  -- What the client's search found: a row of the tenant, or no row that is the tenant's.
  Found : String → S → Option Conversation → Type 0
  Found id s o =
      ((o ≡ none)
        × ((f : Fields) → In f (rows "Conversation" s) → OwnRow context.tenant_id id f → ⊥))
      ⊎ ((f : Fields) × (o ≡ some (conversation_of f))
          × In f (rows "Conversation" s)
          × OwnRow context.tenant_id id f)

  find_first-Found :
      (id : String) (s : S) {o : Option Conversation} {t : S}
      → find_first query (some context) id s ≡ (ok o, t)
      → ((m : String) → rows m t ≡ rows m s) × Found id s o
  unfolding find_first scope_operation stamp_clause own_id Found
  find_first-Found id s {o} {t} e =
      let args : OperationArgs = record no_args { where_clause = some (by_id (units id)) } in
      let (q, u, asked, last) =
        >>=-eq-ok (conversation_query query (some context) "findFirst" args) _ s e in
      let answer : found_row query (some context) q ≡ o = ok-injective last in
      let end : u ≡ t = state_eq last in
      let (same, outcome) =
        db.find_first "Conversation" _ s (textual-by_id context.tenant_id (units id))
          (asked-ok "findFirst" args s asked) in
      (
        subst (λ (t : S). (m : String) → rows m t ≡ rows m s) end same,
        elim outcome [
          | inl (missing, none_met) ↦ inl (
            sym answer ∙ ap (found_row query (some context)) missing,
            λ f inside own. subst (In f) none_met (
                select-In (matches (own_id context.tenant_id id)) f (rows "Conversation" s) inside
                  (OwnRow-matches context.tenant_id id f own)),
          )
          | inr (f, found, met) ↦
              let (inside, meets) =
                In-select (matches (own_id context.tenant_id id)) f (rows "Conversation" s) met in
              inr (
                f,
                sym answer ∙ ap (found_row query (some context)) found,
                inside,
                matches-OwnRow context.tenant_id id f meets,
              )
        ],
      )

  -- No table is changed, and the conversation is a row of the tenant with the id.
  abbrev pub FoundOwn : String → S → Conversation → S → Type 0
  FoundOwn id s c t =
      ((m : String) → rows m t ≡ rows m s)
      × ((f : Fields) × (c ≡ conversation_of f)
          × In f (rows "Conversation" s)
          × OwnRow context.tenant_id id f)

  -- A conversation that the service finds is a row of the request's tenant with the id, and no table
  -- is changed. The database behaves as documented.
  pub find_conversation-own :
      (id : String) (s : S) {c : Conversation} {t : S}
      → find_conversation (conversation_table query (some context)) id s ≡ (ok c, t)
      → FoundOwn id s c t
  unfolding find_conversation found_or_throw Found
  find_conversation-own id s {c} {t} e =
      let (o, u, found, rest) = >>=-eq-ok (find_first query (some context) id) found_or_throw s e in
      let (same, which) = find_first-Found id s found in given o u same which rest
    where
      given :
          (o : Option Conversation) (u : S)
          → ((m : String) → rows m u ≡ rows m s)
          → Found id s o
          → found_or_throw o u ≡ (ok c, t)
          → FoundOwn id s c t
      given none u same which rest = cc (ap (λ (x : Result Conversation × S). x.0) rest)
      given (some d) u same (inl (missing, _)) rest = cc missing
      given (some d) u same (inr (f, which, inside, own)) rest =
          let first : d ≡ c = ok-injective rest in
          let row : d ≡ conversation_of f = cc which in
          (
            subst (λ (t : S). (m : String) → rows m t ≡ rows m s) (state_eq rest) same,
            (f, sym first ∙ row, inside, own),
          )

  -- If no row with the id belongs to the request's tenant, whoever else has one, and the client
  -- answers, then the service throws "Conversation not found". The database behaves as documented.
  pub find_conversation-foreign :
      (id : String) (s : S) (o : Option Conversation) (t : S)
      → ((f : Fields) → In f (rows "Conversation" s) → OwnRow context.tenant_id id f → ⊥)
      → find_first query (some context) id s ≡ (ok o, t)
      → find_conversation (conversation_table query (some context)) id s
        ≡ (raise conversation_not_found, t)
  unfolding find_conversation found_or_throw Found
  find_conversation-foreign id s o t nobody found =
      ap (λ (x : Result (Option Conversation) × S). proceed x.0 x.1 found_or_throw) found
      ∙ elim (find_first-Found id s found).1 [
        | inl (missing, _) ↦ ap (λ (o : Option Conversation). found_or_throw o t) missing
        | inr (f, _, inside, own) ↦ elim (nobody f inside own) [ ]
      ]
