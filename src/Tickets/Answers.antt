-- ===== src/Tickets/Answers.antt =====
-- What the service answers: exactly the tenant's tickets, and nothing about those of others.
use agentdesk_nestjs.Base.{
  ◌≡◌, refl, sym, ap, ◌∙◌, ◌⊎◌, ◌↔◌, inl, inr, Bool, true, false, ◌&&◌, List, [], ◌∷◌, Option, none,
  some, String, Text, select, In, In-select, select-In, Result, ok, raise, proceed,
}
use agentdesk_nestjs.Json.{Fields, str}
use agentdesk_nestjs.Tenancy.{
  TenantContext, active_tenant, scope_operation, scoped_as, all_operations, missing_tenant,
  stamp_clause, stamp, set_field,
}
use agentdesk_nestjs.Tenancy.Database.{
  QueryResult, nothing, one, many, Database, matches, has_value, belongs, and_both,
}
use agentdesk_nestjs.Tickets.{
  TicketCall, creates, lists, gets, updates, removes, serve, create, find_all, find_one, present,
  update, remove, ticket_not_found, by_id, no_args, status_filter, newest_first,
}
use agentdesk_nestjs.Tickets.Conditions.{textual-by_id, textual-filter}
use agentdesk_nestjs.Tenancy.Confinement.{Client}
use agentdesk_nestjs.Tickets.Tenants.{ticket_query-eq}

-- The ticket has the status that is asked for, if one is.
abbrev pub has_status : Option Text → Fields → Bool
has_status none f = true
has_status (some []) f = true
has_status (some (c ∷ status)) f = has_value "status" (str (c ∷ status)) f

and_true : (a b : Bool) → (a && (b && true)) ≡ (a && b)
and_true true true = refl
and_true true false = refl
and_true false b = refl

matches-filter :
    (tenant_id : String) (status : Option Text) (f : Fields)
    → matches (stamp tenant_id (status_filter status)) f
      ≡ (has_status status f && belongs tenant_id f)
unfolding matches stamp set_field
matches-filter tenant_id none f = and_true true (belongs tenant_id f)
matches-filter tenant_id (some []) f = and_true true (belongs tenant_id f)
matches-filter tenant_id (some (c ∷ status)) f =
    and_true (has_value "status" (str (c ∷ status)) f) (belongs tenant_id f)

matches-id :
    (tenant_id : String) (id : Text) (f : Fields)
    → matches (stamp tenant_id (by_id id)) f ≡ (has_value "id" (str id) f && belongs tenant_id f)
unfolding matches stamp set_field
matches-id tenant_id id f = and_true (has_value "id" (str id) f) (belongs tenant_id f)

and_intro : (a b : Bool) → a ≡ true → b ≡ true → (a && b) ≡ true
and_intro a b h k = rw (h, k) refl

-- A request with no active tenant fails before the database is reached.
pub serve_without_tenant :
    {S : Type 0} (query : Client S) (context : Option TenantContext) (call : TicketCall) (s : S)
    → active_tenant none context ≡ none
    → serve query context call s ≡ (raise missing_tenant, s)
unfolding serve create find_all find_one update remove all_operations scoped_as
serve_without_tenant query context (creates title) s missing = rw missing refl
serve_without_tenant query context (lists status) s missing = rw missing refl
serve_without_tenant query context (gets id) s missing = rw missing refl
serve_without_tenant query context (updates id dto) s missing = rw missing refl
serve_without_tenant query context (removes id) s missing = rw missing refl

module _ {S : Type 0} (query : Client S) (rows : String → S → List Fields)
    (context : Option TenantContext) (tenant_id : String)
    (active : active_tenant none context ≡ some tenant_id) (db : Database query rows) where
  -- A list that is returned holds exactly the tenant's tickets that have the status asked for. The
  -- client behaves as documented.
  pub find_all-exact :
      (status : Option Text) (s : S) {r : QueryResult} {t : S}
      → find_all query context status s ≡ (ok r, t)
      → (found : List Fields) × (r ≡ many found)
        × ((f : Fields)
            → In f found ↔ (
                In f (rows "Ticket" s)
                × (has_status status f ≡ true)
                × (belongs tenant_id f ≡ true)))
  unfolding find_all scope_operation stamp_clause
  find_all-exact status s e =
      let args = record no_args {
        where_clause = some (status_filter status);
        rest = newest_first;
      } in
      let (_, (found, result, exact)) =
        db.find_many "Ticket" _ s (textual-filter tenant_id status)
          (sym (ticket_query-eq query rows context tenant_id active "findMany" args s) ∙ e) in
      let filter = matches (stamp tenant_id (status_filter status)) in
      (
        found,
        result,
        λ f. (
          (λ hit.
              let (there, met) = In-select filter f (rows "Ticket" s) ((exact f).0 hit) in
              let both =
                and_both (has_status status f) (belongs tenant_id f)
                  (sym (matches-filter tenant_id status f) ∙ met) in
              (there, both.0, both.1)),
          (λ h. (exact f).1 (
              select-In filter f (rows "Ticket" s) h.0 (
                matches-filter tenant_id status f
                ∙ and_intro (has_status status f) (belongs tenant_id f) h.1 h.2))),
        ),
      )

  -- A ticket that only other tenants have is not found, in the same words as one that nobody has.
  -- The client behaves as documented, and its search succeeds.
  pub find_one-foreign :
      (id : Text) (s : S) {r : QueryResult} {t : S}
      → ((f : Fields)
          → In f (rows "Ticket" s)
          → has_value "id" (str id) f ≡ true
          → belongs tenant_id f ≡ false)
      → query "Ticket" "findUnique"
          (record no_args { where_clause = some (stamp tenant_id (by_id id)) })
          s
        ≡ (ok r, t)
      → find_one query context id s ≡ (raise ticket_not_found, t)
  unfolding find_one scope_operation stamp_clause
  find_one-foreign id s {r} {t} none_own e =
      ap (λ (x : Result QueryResult × S). proceed x.0 x.1 (present query context))
        (ticket_query-eq query rows context tenant_id active "findUnique"
            (record no_args { where_clause = some (by_id id) }) s
          ∙ e)
      ∙ answered (db.find_unique "Ticket" _ s (textual-by_id tenant_id id) e).1
    where
      met : Fields → Bool
      met = matches (stamp tenant_id (by_id id))

      answered :
          ((r ≡ nothing) × (select met (rows "Ticket" s) ≡ []))
            ⊎ ((f : Fields) × (r ≡ one f) × In f (select met (rows "Ticket" s)))
          → present query context r t ≡ (raise ticket_not_found, t)
      answered (inl (result, _)) = unfold present in rw result refl
      answered (inr (f, result, hit)) =
          let (there, both) = In-select met f (rows "Ticket" s) hit in
          let (named, own) =
            and_both (has_value "id" (str id) f) (belongs tenant_id f)
              (sym (matches-id tenant_id id f) ∙ both) in
          cc (own, none_own f there named)
