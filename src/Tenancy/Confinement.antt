-- ===== src/Tenancy/Confinement.antt =====
-- Operations of the scoped client: the rows of one tenant are out of reach of every other.
use agentdesk_nestjs.Base.{
  ◌≡◌, ◌≢◌, refl, sym, ap, ◌∙◌, ◌⊎◌, inl, inr, true, List, [], append-nil, none, some, String,
  select, select-append, In, In-select, Action, Exception, Result, ok, raise,
}
use agentdesk_nestjs.Json.{Fields, get_field}
use agentdesk_nestjs.Tenancy.{OperationArgs, row}
use agentdesk_nestjs.Tenancy.Isolation.{Names}
use agentdesk_nestjs.Tenancy.Database.{
  QueryResult, nothing, one, many, Database, matches, where_of, belongs, foreign, foreign-middle,
  matches-belongs, HasColumns-belongs, textual, Sets-belongs, IsLeaf,
}

abbrev pub Client : Type 0 → Type 0
Client S = String → String → OperationArgs → Action S QueryResult

-- Everything that an operation returned belongs to the tenant.
abbrev pub OwnsResult : String → QueryResult → Type 0
OwnsResult tenant_id nothing = Unit
OwnsResult tenant_id (one f) = belongs tenant_id f ≡ true
OwnsResult tenant_id (many fs) = (f : Fields) → In f fs → belongs tenant_id f ≡ true

abbrev pub Owns : String → Result QueryResult → Type 0
Owns tenant_id (ok r) = OwnsResult tenant_id r
Owns tenant_id (raise e) = Unit

module _ {S : Type 0} (query : Client S) (rows : String → S → List Fields)
    (model tenant_id : String) where
  -- The rows of all other tenants in the table and all other tables are as before, and the result is
  -- the tenant's.
  abbrev pub Isolated : S → Result QueryResult × S → Type 0
  Isolated s x =
      (foreign tenant_id (rows model x.1) ≡ foreign tenant_id (rows model s))
      × ((m : String) → m ≢ model → rows m x.1 ≡ rows m s)
      × Owns tenant_id x.0

  abbrev pub Untouched : S → S → Type 0
  Untouched s t = (m : String) → rows m t ≡ rows m s

  pub Isolated-later :
      (s t : S) (x : Result QueryResult × S) → Untouched s t → Isolated t x → Isolated s x
  Isolated-later s t x same (others, tables, owned) =
      (others ∙ ap (foreign tenant_id) (same model), (λ m ne. tables m ne ∙ same m), owned)

  module _ (db : Database query rows) where
    raised-Isolated :
        (operation : String) (args : OperationArgs) (s : S) {e : Exception} {t : S}
        → query model operation args s ≡ (raise e, t)
        → Isolated s (raise e, t)
    raised-Isolated operation args s h =
        let same = db.fails model operation args s h in
        (ap (foreign tenant_id) (same model), (λ m _. same m), tt)

    -- The operations of the client on arguments that name the tenant.
    pub create-Isolated :
        (args : OperationArgs) (d : Fields) (s : S)
        → args.data_clause ≡ row d
        → Names tenant_id d
        → Isolated s (query model "create" args s)
    create-Isolated args d s payload named =
        go (query model "create" args s).0 (query model "create" args s).1 refl
      where
        go :
            (r : Result QueryResult) (t : S)
            → query model "create" args s ≡ (r, t)
            → Isolated s (r, t)
        go (raise e) t h = raised-Isolated "create" args s h
        go (ok r) t h =
            let (tables, (f, result, set, added)) = db.create model args d s payload h in
            let own = HasColumns-belongs tenant_id d f named set in
            (
              rw added (foreign-middle tenant_id (rows model s) [] f own ∙ append-nil _),
              tables,
              rw result own,
            )

    pub find_many-Isolated :
        (args : OperationArgs) (w : Fields) (s : S)
        → args.where_clause ≡ some w
        → textual w ≡ true
        → Names tenant_id w
        → Isolated s (query model "findMany" args s)
    find_many-Isolated args w s clause texts named =
        go (query model "findMany" args s).0 (query model "findMany" args s).1 refl
      where
        go :
            (r : Result QueryResult) (t : S)
            → query model "findMany" args s ≡ (r, t)
            → Isolated s (r, t)
        go (raise e) t h = raised-Isolated "findMany" args s h
        go (ok r) t h =
            let (same, (found, result, exact)) = db.find_many model args s (rw clause texts) h in
            (
              ap (foreign tenant_id) (same model),
              (λ m _. same m),
              rw result (λ f hit.
                  let (_, met) =
                    In-select (matches (where_of args)) f (rows model s) ((exact f).0 hit) in
                  matches-belongs tenant_id w f named (rw clause at met)),
            )

    -- A search for one row changes nothing, and finds a row of the tenant.
    owned-one :
        (args : OperationArgs) (w : Fields) (s : S) (r : QueryResult)
        → args.where_clause ≡ some w
        → Names tenant_id w
        → ((r ≡ nothing) × (select (matches (where_of args)) (rows model s) ≡ []))
          ⊎ ((f : Fields) × (r ≡ one f) × In f (select (matches (where_of args)) (rows model s)))
        → OwnsResult tenant_id r
    owned-one args w s r clause named (inl (result, none_met)) = rw result tt
    owned-one args w s r clause named (inr (f, result, hit)) =
        let (_, met) = In-select (matches (where_of args)) f (rows model s) hit in
        rw result (matches-belongs tenant_id w f named (rw clause at met))

    pub find_unique-Isolated :
        (args : OperationArgs) (w : Fields) (s : S)
        → args.where_clause ≡ some w
        → textual w ≡ true
        → Names tenant_id w
        → Untouched s (query model "findUnique" args s).1
          × Owns tenant_id (query model "findUnique" args s).0
    find_unique-Isolated args w s clause texts named =
        go (query model "findUnique" args s).0 (query model "findUnique" args s).1 refl
      where
        go :
            (r : Result QueryResult) (t : S)
            → query model "findUnique" args s ≡ (r, t)
            → Untouched s t × Owns tenant_id r
        go (raise e) t h = (db.fails model "findUnique" args s h, tt)
        go (ok r) t h =
            let (same, found) = db.find_unique model args s (rw clause texts) h in
            (same, owned-one args w s r clause named found)

    pub find_first-Isolated :
        (args : OperationArgs) (w : Fields) (s : S)
        → args.where_clause ≡ some w
        → textual w ≡ true
        → Names tenant_id w
        → Untouched s (query model "findFirst" args s).1
          × Owns tenant_id (query model "findFirst" args s).0
    find_first-Isolated args w s clause texts named =
        go (query model "findFirst" args s).0 (query model "findFirst" args s).1 refl
      where
        go :
            (r : Result QueryResult) (t : S)
            → query model "findFirst" args s ≡ (r, t)
            → Untouched s t × Owns tenant_id r
        go (raise e) t h = (db.fails model "findFirst" args s h, tt)
        go (ok r) t h =
            let (same, found) = db.find_first model args s (rw clause texts) h in
            (same, owned-one args w s r clause named found)

    pub update-Isolated :
        (args : OperationArgs) (w d : Fields) (s : S)
        → IsLeaf model
        → args.where_clause ≡ some w
        → textual w ≡ true
        → args.data_clause ≡ row d
        → Names tenant_id w
        → get_field "tenantId" d ≡ none
        → Isolated s (query model "update" args s)
    update-Isolated args w d s leaf clause texts payload named untouched =
        go (query model "update" args s).0 (query model "update" args s).1 refl
      where
        go :
            (r : Result QueryResult) (t : S)
            → query model "update" args s ≡ (r, t)
            → Isolated s (r, t)
        go (raise e) t h = raised-Isolated "update" args s h
        go (ok r) t h =
            let (tables, (before, after, f, g, was, is, result, met, set)) =
              db.update model args d s payload (rw clause texts) h in
            let own = matches-belongs tenant_id w f named (rw clause at met) in
            let own' = Sets-belongs tenant_id d f g set untouched ∙ own in
            (
              rw (was, is)
                  (foreign-middle tenant_id before after g own'
                    ∙ sym (foreign-middle tenant_id before after f own)),
              tables leaf,
              rw result own',
            )

    pub delete-Isolated :
        (args : OperationArgs) (w : Fields) (s : S)
        → IsLeaf model
        → args.where_clause ≡ some w
        → textual w ≡ true
        → Names tenant_id w
        → Isolated s (query model "delete" args s)
    delete-Isolated args w s leaf clause texts named =
        go (query model "delete" args s).0 (query model "delete" args s).1 refl
      where
        go :
            (r : Result QueryResult) (t : S)
            → query model "delete" args s ≡ (r, t)
            → Isolated s (r, t)
        go (raise e) t h = raised-Isolated "delete" args s h
        go (ok r) t h =
            let (tables, (before, after, f, was, is, result, met)) =
              db.delete model args s (rw clause texts) h in
            let own = matches-belongs tenant_id w f named (rw clause at met) in
            (
              rw (was, is)
                  (select-append _ before after
                    ∙ sym (foreign-middle tenant_id before after f own)),
              tables leaf,
              rw result own,
            )
