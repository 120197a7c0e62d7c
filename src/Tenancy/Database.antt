-- ===== src/Tenancy/Database.antt =====
-- What the services rely on of the base database client: its rows, and what each operation does to
-- them.
use mathlib.Core.Path.{ap₂}
use agentdesk_nestjs.Base.{
  same_text, ◌≡◌, ◌≢◌, refl, sym, ◌∙◌, ◌⊎◌, ◌↔◌, Bool, true, false, ◌&&◌, not, List, [], ◌∷◌, ◌++◌,
  Option, none, some, or_else, select-append, ap, String, Text, units, str_eq, eq_iff, select, In,
  Action, Exception, ok, raise, arith, Bool-cases, inl, inr,
}
use agentdesk_nestjs.Json.{
  Json, numeral, str, arr, obj, Items, nil, cons, Fields, end, field, get_field,
}
use agentdesk_nestjs.Tenancy.{OperationArgs, row}
use agentdesk_nestjs.Tenancy.Isolation.{Names}

-- What an operation resolves to.
pub data QueryResult : Type 0 where
  nothing : QueryResult
  one : Fields → QueryResult
  many : List Fields → QueryResult

-- The value of a column is the given text.
unfoldable pub is_text : Option Json → Json → Bool
is_text (some (str s)) (str t) = same_text s t
is_text _ _ = false

abbrev pub has_value : String → Json → Fields → Bool
has_value k v f = is_text (get_field k f) v

-- A condition of equalities between columns and texts, the only conditions that the program writes.
unfoldable pub textual : Fields → Bool
textual end = true
textual (field k (str t) w) = textual w
textual (field k v w) = false

unfoldable pub matches : Fields → Fields → Bool
matches end f = true
matches (field k v w) f = has_value k v f && matches w f

abbrev pub where_of : OperationArgs → Fields
where_of args = or_else args.where_clause end

-- The row belongs to the tenant.
abbrev pub belongs : String → Fields → Bool
belongs tenant_id f = has_value "tenantId" (str (units tenant_id)) f

-- One JSON value for another that a JSON column may give back for it: the order of keys is not kept,
-- nor the spelling of a number.
mutual
  pub data Alike : Json → Json → Type 0 where
    same : {v : Json} → Alike v v
    numerals : (s t : Text) → Alike (numeral s) (numeral t)
    arrays : (xs ys : Items) → AlikeItems xs ys → Alike (arr xs) (arr ys)
    objects :
        (f g : Fields) (at : (k : String) (v : Json) → get_field k f ≡ some v → Json)
        → ((k : String) (v : Json) (e : get_field k f ≡ some v) → get_field k g ≡ some (at k v e))
        → ((k : String) (v : Json) (e : get_field k f ≡ some v) → Alike v (at k v e))
        → ((k : String) → get_field k f ≡ none → get_field k g ≡ none)
        → Alike (obj f) (obj g)

  pub data AlikeItems : Items → Items → Type 0 where
    no_items : AlikeItems nil nil
    items :
        (v w : Json) (xs ys : Items)
        → Alike v w
        → AlikeItems xs ys
        → AlikeItems (cons v xs) (cons w ys)

-- The row has the columns given.
abbrev pub HasColumns : Fields → Fields → Type 0
HasColumns d f =
    (k : String) (v : Json)
    → get_field k d ≡ some v
    → (w : Json) × (get_field k f ≡ some w) × Alike v w

text-Alike : {v w : Json} (t : Text) → Alike v w → v ≡ str t → w ≡ str t
text-Alike t same e = e
text-Alike t (numerals a b) e = cc e
text-Alike t (arrays xs ys h) e = cc e
text-Alike t (objects f g at there alike gone) e = cc e

-- A text is kept as it is.
pub HasColumns-text :
    (d f : Fields) (k : String) (t : Text)
    → HasColumns d f
    → get_field k d ≡ some (str t)
    → get_field k f ≡ some (str t)
HasColumns-text d f k t has named =
    let (w, there, alike) = has k (str t) named in
    there ∙ ap (λ (w : Json). some w) (text-Alike t alike refl)

-- The columns given are set, and all others but the time of the last change are as before.
abbrev pub Sets : Fields → Fields → Fields → Type 0
Sets d f g =
    HasColumns d g
    × ((k : String) → get_field k d ≡ none → k ≢ "updatedAt" → get_field k g ≡ get_field k f)

-- No rows of other tables refer to those of the table, so that a change of its rows cascades to none.
abbrev pub IsLeaf : String → Type 0
IsLeaf model = (model ≢ "Tenant") × (model ≢ "User")

-- The documented behaviour of the client, over a view of the tables: `rows model s`.
pub record Database {S : Type 0} (query : String → String → OperationArgs → Action S QueryResult)
    (rows : String → S → List Fields) : Type 0 where
  pub fails :
      (model operation : String) (args : OperationArgs) (s : S) {e : Exception} {t : S}
      → query model operation args s ≡ (raise e, t)
      → (m : String) → rows m t ≡ rows m s
  pub find_many :
      (model : String) (args : OperationArgs) (s : S) {r : QueryResult} {t : S}
      → textual (where_of args) ≡ true
      → query model "findMany" args s ≡ (ok r, t)
      → ((m : String) → rows m t ≡ rows m s)
        × ((found : List Fields) × (r ≡ many found)
            × ((f : Fields) → In f found ↔ In f (select (matches (where_of args)) (rows model s))))
  pub find_unique :
      (model : String) (args : OperationArgs) (s : S) {r : QueryResult} {t : S}
      → textual (where_of args) ≡ true
      → query model "findUnique" args s ≡ (ok r, t)
      → ((m : String) → rows m t ≡ rows m s)
        × (((r ≡ nothing) × (select (matches (where_of args)) (rows model s) ≡ []))
            ⊎ ((f : Fields) × (r ≡ one f) × In f (select (matches (where_of args)) (rows model s))))
  pub find_first :
      (model : String) (args : OperationArgs) (s : S) {r : QueryResult} {t : S}
      → textual (where_of args) ≡ true
      → query model "findFirst" args s ≡ (ok r, t)
      → ((m : String) → rows m t ≡ rows m s)
        × (((r ≡ nothing) × (select (matches (where_of args)) (rows model s) ≡ []))
            ⊎ ((f : Fields) × (r ≡ one f) × In f (select (matches (where_of args)) (rows model s))))
  pub create :
      (model : String) (args : OperationArgs) (d : Fields) (s : S) {r : QueryResult} {t : S}
      → args.data_clause ≡ row d
      → query model "create" args s ≡ (ok r, t)
      → ((m : String) → m ≢ model → rows m t ≡ rows m s)
        × ((f : Fields) × (r ≡ one f) × HasColumns d f × (rows model t ≡ rows model s ++ f ∷ []))
  pub update :
      (model : String) (args : OperationArgs) (d : Fields) (s : S) {r : QueryResult} {t : S}
      → args.data_clause ≡ row d
      → textual (where_of args) ≡ true
      → query model "update" args s ≡ (ok r, t)
      → (IsLeaf model → (m : String) → m ≢ model → rows m t ≡ rows m s)
        × ((before after : List Fields) × (f g : Fields) × (rows model s ≡ before ++ f ∷ after)
            × (rows model t ≡ before ++ g ∷ after)
            × (r ≡ one g)
            × (matches (where_of args) f ≡ true)
            × Sets d f g)
  pub delete :
      (model : String) (args : OperationArgs) (s : S) {r : QueryResult} {t : S}
      → textual (where_of args) ≡ true
      → query model "delete" args s ≡ (ok r, t)
      → (IsLeaf model → (m : String) → m ≢ model → rows m t ≡ rows m s)
        × ((before after : List Fields) × (f : Fields) × (rows model s ≡ before ++ f ∷ after)
            × (rows model t ≡ before ++ after)
            × (r ≡ one f)
            × (matches (where_of args) f ≡ true))

pub and_both : (a b : Bool) → (a && b) ≡ true → (a ≡ true) × (b ≡ true)
and_both true b h = (refl, h)
and_both false b h = cc h

-- A row that meets a condition which names the tenant belongs to the tenant.
pub matches-belongs :
    (tenant_id : String) (w f : Fields)
    → Names tenant_id w
    → matches w f ≡ true
    → belongs tenant_id f ≡ true
unfolding matches
matches-belongs tenant_id end f named meets = cc named
matches-belongs tenant_id (field k v w) f named meets = elim (Bool-cases (str_eq k "tenantId")) [
  | inl here ↦
      let column : k ≡ "tenantId" = (eq_iff k "tenantId").0 here in
      let named' : some v ≡ some (str (units tenant_id)) = rw here at named in
      let value : v ≡ str (units tenant_id) = cc named' in
      sym (ap₂ (λ (k : String) (v : Json). has_value k v f) column value)
      ∙ (and_both (has_value k v f) (matches w f) meets).0
  | inr there ↦
      matches-belongs tenant_id w f (rw there at named)
        (and_both (has_value k v f) (matches w f) meets).1
]

pub text_ne : (a b : String) → str_eq a b ≡ false → a ≢ b
text_ne a b apart e = let same = (eq_iff a b).1 e in cc (apart, same)

pub same_text_self : (t : Text) → same_text t t ≡ true
unfolding same_text
same_text_self [] = refl
same_text_self (c ∷ t) = ground (arith, same_text_self t)

-- A row with the columns of an object that names the tenant belongs to the tenant.
pub HasColumns-belongs :
    (tenant_id : String) (d f : Fields)
    → Names tenant_id d
    → HasColumns d f
    → belongs tenant_id f ≡ true
unfolding is_text
HasColumns-belongs tenant_id d f named has =
    ap (λ (v : Option Json). is_text v (str (units tenant_id)))
      (HasColumns-text d f "tenantId" (units tenant_id) has named)
    ∙ same_text_self (units tenant_id)

-- The rows of the other tenants.
abbrev pub foreign : String → List Fields → List Fields
foreign tenant_id = select (λ f. not (belongs tenant_id f))

pub foreign-middle :
    (tenant_id : String) (before after : List Fields) (f : Fields)
    → belongs tenant_id f ≡ true
    → foreign tenant_id (before ++ f ∷ after) ≡ foreign tenant_id before ++ foreign tenant_id after
foreign-middle tenant_id before after f own =
    select-append (λ g. not (belongs tenant_id g)) before (f ∷ after) ∙ rw own refl

-- A change of columns that leaves the tenant's alone.
pub Sets-belongs :
    (tenant_id : String) (d f g : Fields)
    → Sets d f g
    → get_field "tenantId" d ≡ none
    → belongs tenant_id g ≡ belongs tenant_id f
Sets-belongs tenant_id d f g set untouched =
    ap (λ (v : Option Json). is_text v (str (units tenant_id)))
      (set.1 "tenantId" untouched (text_ne "tenantId" "updatedAt" refl))
