-- ===== src/Tickets/Kept.antt =====
-- No request but a removal makes a ticket disappear.
use agentdesk_nestjs.Base.{
  ◌≡◌, refl, sym, ap, ◌∙◌, Bool, true, ◌||◌, List, [], ◌∷◌, ◌++◌, Option, none, some, String, Text,
  Exception, any, any-append, Result, ok, raise, Keeps, Keeps-bind,
}
use agentdesk_nestjs.Json.{Json, Fields, end, str, get_field}
use agentdesk_nestjs.Tenancy.{
  TenantContext, OperationArgs, row, active_tenant, scope_operation, stamp_create, stamp_clause,
}
use agentdesk_nestjs.Tenancy.Database.{
  QueryResult, Database, textual, where_of, has_value, is_text, text_ne,
}
use agentdesk_nestjs.Tickets.{
  UpdateTicketDto, create, find_all, find_one, update, ticket_query, update_fields, by_id, no_args,
  optional_text,
}
use agentdesk_nestjs.Tickets.Conditions.{textual-by_id, textual-filter}
use agentdesk_nestjs.Tenancy.Confinement.{Client}
use agentdesk_nestjs.Tickets.Tenants.{ticket_query-eq, find_one-Finds}

-- A ticket with the id is in the table.
abbrev pub has_id : Text → Fields → Bool
has_id id = has_value "id" (str id)

abbrev pub Exists : Text → List Fields → Type 0
Exists id fs = any (has_id id) fs ≡ true

Exists-append : (id : Text) (fs gs : List Fields) → Exists id fs → Exists id (fs ++ gs)
Exists-append id fs gs there = any-append (has_id id) fs gs ∙ rw there refl

-- A change that leaves the ids alone.
Exists-replaced :
    (id : Text) (before after : List Fields) (f g : Fields)
    → has_id id g ≡ has_id id f
    → Exists id (before ++ f ∷ after)
    → Exists id (before ++ g ∷ after)
Exists-replaced id before after f g same there =
    any-append (has_id id) before (g ∷ after)
    ∙ ap (λ b. any (has_id id) before || (b || any (has_id id) after)) same
    ∙ sym (any-append (has_id id) before (f ∷ after))
    ∙ there

update_fields-no_id : (dto : UpdateTicketDto) → get_field "id" (update_fields dto) ≡ none
update_fields-no_id dto = go dto.title dto.status
  where
    go :
        (title status : Option Text)
        → get_field "id" (optional_text "title" title (optional_text "status" status end)) ≡ none
    go none none = refl
    go none (some s) = refl
    go (some t) none = refl
    go (some t) (some s) = refl

module _ {S : Type 0} (query : Client S) (rows : String → S → List Fields)
    (context : Option TenantContext) (tenant_id : String)
    (active : active_tenant none context ≡ some tenant_id) (db : Database query rows)
    (id : Text) where
  abbrev pub There : S → Type 0
  There s = Exists id (rows "Ticket" s)

  raised-There :
      (operation : String) (args : OperationArgs) (s : S) {e : Exception} {t : S}
      → query "Ticket" operation args s ≡ (raise e, t)
      → There s
      → There t
  raised-There operation args s h there =
      ap (any (has_id id)) (db.fails "Ticket" operation args s h "Ticket") ∙ there

  -- The operations of the client.
  created-There :
      (args : OperationArgs) (d : Fields) (s : S)
      → args.data_clause ≡ row d
      → There s
      → There (query "Ticket" "create" args s).1
  created-There args d s payload there = go _ _ refl
    where
      go : (r : Result QueryResult) (t : S) → query "Ticket" "create" args s ≡ (r, t) → There t
      go (raise e) t h = raised-There "create" args s h there
      go (ok r) t h =
          let (_, (f, _, _, added)) = db.create "Ticket" args d s payload h in
          rw added (Exists-append id (rows "Ticket" s) (f ∷ []) there)

  found-There :
      (args : OperationArgs) (s : S)
      → textual (where_of args) ≡ true
      → There s
      → There (query "Ticket" "findMany" args s).1
  found-There args s texts there = go _ _ refl
    where
      go : (r : Result QueryResult) (t : S) → query "Ticket" "findMany" args s ≡ (r, t) → There t
      go (raise e) t h = raised-There "findMany" args s h there
      go (ok r) t h =
          ap (any (has_id id)) ((db.find_many "Ticket" args s texts h).0 "Ticket") ∙ there

  updated-There :
      (args : OperationArgs) (d : Fields) (s : S)
      → args.data_clause ≡ row d
      → get_field "id" d ≡ none
      → textual (where_of args) ≡ true
      → There s
      → There (query "Ticket" "update" args s).1
  updated-There args d s payload untouched texts there = go _ _ refl
    where
      go : (r : Result QueryResult) (t : S) → query "Ticket" "update" args s ≡ (r, t) → There t
      go (raise e) t h = raised-There "update" args s h there
      go (ok r) t h =
          let (_, (before, after, f, g, was, is, _, _, set)) =
            db.update "Ticket" args d s payload texts h in
          rw is (
            Exists-replaced id before after f g
              (ap (λ (v : Option Json). is_text v (str id))
                (set.1 "id" untouched (text_ne "id" "updatedAt" refl)))
              (rw was at there))

  -- The requests of the service.
  pub create-There : (title : Text) → Keeps There (create query context title)
  unfolding create scope_operation stamp_create
  create-There title s there =
      rw (ticket_query-eq query rows context tenant_id active "create" _ s)
        (created-There _ _ s refl there)

  pub find_all-There : (status : Option Text) → Keeps There (find_all query context status)
  unfolding find_all scope_operation stamp_clause
  find_all-There status s there =
      rw (ticket_query-eq query rows context tenant_id active "findMany" _ s)
        (found-There _ s (textual-filter tenant_id status) there)

  pub find_one-There : (ticket : Text) → Keeps There (find_one query context ticket)
  find_one-There ticket s there =
      ap (any (has_id id))
        ((find_one-Finds query rows context tenant_id active db ticket s).0 "Ticket")
      ∙ there

  pub update-There :
      (ticket : Text) (dto : UpdateTicketDto) → Keeps There (update query context ticket dto)
  unfolding update scope_operation stamp_clause
  update-There ticket dto =
      Keeps-bind There (find_one query context ticket)
        (λ _. ticket_query query context "update" (args ticket dto)) (find_one-There ticket)
        (λ _ t there.
          rw (ticket_query-eq query rows context tenant_id active "update" (args ticket dto) t) (
            updated-There _ (update_fields dto) t refl (update_fields-no_id dto)
              (textual-by_id tenant_id ticket) there))
    where
      args : Text → UpdateTicketDto → OperationArgs
      args ticket dto = record no_args {
        where_clause = some (by_id ticket);
        data_clause = row (update_fields dto);
      }
