-- ===== src/Tenancy/Memory/Laws.antt =====
-- The database in memory behaves as the client is documented to.
use agentdesk_nestjs.Base.{
  ◌≡◌, ◌≢◌, refl, sym, ap, ◌∙◌, ◌⊎◌, inl, inr, Bool, true, List, [], ◌∷◌, ◌++◌, Option, none, some,
  String, str_eq, eq_iff, eq_refl, select, In, Result, ok, raise, Exception, ok-injective, state_eq,
  Bool-cases,
}
use agentdesk_nestjs.Json.{Fields}
use agentdesk_nestjs.Tenancy.{OperationArgs, Payload, row}
use agentdesk_nestjs.Tenancy.Database.{
  Alike, QueryResult, nothing, one, many, Database, matches, where_of, Sets,
}
use agentdesk_nestjs.Tenancy.Memory.{
  Table, Tables, put, view, first_of, Place, place, overlay, Plan, created, updated, deleted, plan,
  commit, memory,
}
use agentdesk_nestjs.Tenancy.Memory.Columns.{overlay-HasColumns, overlay-others, place-splits}

-- An operation that succeeds has a plan.
memory-eq-ok :
    (model operation : String) (args : OperationArgs) (s : Tables) {r : QueryResult} {t : Tables}
    → memory model operation args s ≡ (ok r, t)
    → (l : Table) × (plan operation args (s model) ≡ some (r, l)) × (t ≡ put model l s)
unfolding memory
memory-eq-ok model operation args s {r} {t} e = go (plan operation args (s model)) e
  where
    go :
        (o : Plan)
        → commit model o s ≡ (ok r, t)
        → (l : Table) × (o ≡ some (r, l)) × (t ≡ put model l s)
    go none e = cc (ap (λ (x : Result QueryResult × Tables). x.0) e)
    go (some (r', l)) e =
        (l, ap (λ (q : QueryResult). some (q, l)) (ok-injective e), sym (state_eq e))

memory-eq-raise :
    (model operation : String) (args : OperationArgs) (s : Tables) {e : Exception} {t : Tables}
    → memory model operation args s ≡ (raise e, t)
    → t ≡ s
unfolding memory
memory-eq-raise model operation args s {e = x} {t} h = go (plan operation args (s model)) h
  where
    go : (o : Plan) → commit model o s ≡ (raise x, t) → t ≡ s
    go none h = sym (state_eq h)
    go (some (r', l)) h = cc (ap (λ (x : Result QueryResult × Tables). x.0) h)

-- The table that is put, and the others.
put_self : (model : String) (l : Table) (s : Tables) → put model l s model ≡ l
put_self model l s = rw (eq_refl model) refl

put-others : (model m : String) (l : Table) (s : Tables) → m ≢ model → put model l s m ≡ s m
put-others model m l s apart = elim (Bool-cases (str_eq model m)) [
  | inl same ↦ let e = (eq_iff model m).0 same in elim (apart (sym e)) [ ]
  | inr other ↦ rw other refl
]

put-same : (model m : String) (l : Table) (s : Tables) → l ≡ s model → put model l s m ≡ s m
put-same model m l s same = elim (Bool-cases (str_eq model m)) [
  | inl here ↦ rw here (same ∙ ap s ((eq_iff model m).0 here))
  | inr other ↦ rw other refl
]

created-some :
    (p : Payload) (d : Fields) (s : Table) {r : QueryResult} {t : Table}
    → p ≡ row d
    → created p s ≡ some (r, t)
    → (r ≡ one d) × (t ≡ s ++ d ∷ [])
created-some p d s {r} {t} given made =
    let made' : some (one d, s ++ d ∷ []) ≡ some (r, t) = rw given at made in
    let pair : (one d, s ++ d ∷ []) ≡ (r, t) = cc made' in
    (
      sym (ap (λ (x : QueryResult × Table). x.0) pair),
      sym (ap (λ (x : QueryResult × Table). x.1) pair),
    )

first_of-cases :
    (l : List Fields)
    → ((first_of l ≡ nothing) × (l ≡ [])) ⊎ ((f : Fields) × (first_of l ≡ one f) × In f l)
first_of-cases [] = inl (refl, refl)
first_of-cases (f ∷ l) = inr (f, refl, inl refl)

deleted-some :
    (met : Fields → Bool) (s : Table) {r : QueryResult} {t : Table}
    → deleted (place met s) ≡ some (r, t)
    → (before after : List Fields) × (f : Fields) × (s ≡ before ++ f ∷ after)
      × (t ≡ before ++ after)
      × (r ≡ one f)
      × (met f ≡ true)
deleted-some met s {r} {t} h = go (place met s) (place-splits met s) h
  where
    go :
        (o : Option Place)
        → ((q : Place) → o ≡ some q → (s ≡ q.before ++ q.item ∷ q.after) × (met q.item ≡ true))
        → deleted o ≡ some (r, t)
        → (before after : List Fields) × (f : Fields) × (s ≡ before ++ f ∷ after)
          × (t ≡ before ++ after)
          × (r ≡ one f)
          × (met f ≡ true)
    go none split h = cc h
    go (some q) split h =
        let (splits, meets) = split q refl in
        let result : one q.item ≡ r = cc h in
        let table : q.before ++ q.after ≡ t = cc h in
        (q.before, q.after, q.item, splits, sym table, sym result, meets)

updated-some :
    (p : Payload) (d : Fields) (met : Fields → Bool) (s : Table) {r : QueryResult} {t : Table}
    → p ≡ row d
    → updated p (place met s) ≡ some (r, t)
    → (before after : List Fields) × (f g : Fields) × (s ≡ before ++ f ∷ after)
      × (t ≡ before ++ g ∷ after)
      × (r ≡ one g)
      × (met f ≡ true)
      × Sets d f g
updated-some p d met s {r} {t} given h = go (place met s) (place-splits met s) (rw given at h)
  where
    go :
        (o : Option Place)
        → ((q : Place) → o ≡ some q → (s ≡ q.before ++ q.item ∷ q.after) × (met q.item ≡ true))
        → updated (row d) o ≡ some (r, t)
        → (before after : List Fields) × (f g : Fields) × (s ≡ before ++ f ∷ after)
          × (t ≡ before ++ g ∷ after)
          × (r ≡ one g)
          × (met f ≡ true)
          × Sets d f g
    go none split h = cc h
    go (some q) split h =
        let (splits, meets) = split q refl in
        let result : one (overlay d q.item) ≡ r = cc h in
        let table : q.before ++ overlay d q.item ∷ q.after ≡ t = cc h in
        (
          q.before,
          q.after,
          q.item,
          overlay d q.item,
          splits,
          sym table,
          sym result,
          meets,
          (overlay-HasColumns d q.item, λ k out now. overlay-others d q.item k out),
        )

-- A search for one row.
found-first :
    (model : String) (args : OperationArgs) (s : Tables) {r : QueryResult} {l : Table} {t : Tables}
    → ◌≡◌ {A = Plan}
        (some (first_of (select (matches (where_of args)) (s model)), s model))
        (some (r, l))
    → t ≡ put model l s
    → ((m : String) → view m t ≡ view m s)
      × (((r ≡ nothing) × (select (matches (where_of args)) (s model) ≡ []))
          ⊎ ((f : Fields) × (r ≡ one f) × In f (select (matches (where_of args)) (s model))))
found-first model args s {r} {l} {t} planned table =
    let result : first_of (select (matches (where_of args)) (s model)) ≡ r = cc planned in
    let same : s model ≡ l = cc planned in
    (
      λ m. ap (λ (t : Tables). t m) table ∙ put-same model m l s (sym same),
      elim (first_of-cases (select (matches (where_of args)) (s model))) [
        | inl (first, none_met) ↦ inl (sym result ∙ first, none_met)
        | inr (f, first, met) ↦ inr (f, sym result ∙ first, met)
      ],
    )

pub memory-Database : Database memory view
unfolding plan
memory-Database = record {
  fails = λ model operation args s {e} {t} h m.
      ap (λ (t : Tables). t m) (memory-eq-raise model operation args s h);
  find_many = λ model args s {r} {t} plain h.
      let (l, planned, table) = memory-eq-ok model "findMany" args s h in
      let result : many (select (matches (where_of args)) (s model)) ≡ r = cc planned in
      let same : s model ≡ l = cc planned in
      (
        λ m. ap (λ (t : Tables). t m) table ∙ put-same model m l s (sym same),
        (select (matches (where_of args)) (s model), sym result, λ f. (λ x. x, λ x. x)),
      );
  find_unique = λ model args s plain h.
      let (l, planned, table) = memory-eq-ok model "findUnique" args s h in
      found-first model args s planned table;
  find_first = λ model args s plain h.
      let (l, planned, table) = memory-eq-ok model "findFirst" args s h in
      found-first model args s planned table;
  create = λ model args d s {r} {t} given h.
      let (l, planned, table) = memory-eq-ok model "create" args s h in
      let (result, added) = created-some args.data_clause d (s model) given planned in
      (
        λ m apart. ap (λ (t : Tables). t m) table ∙ put-others model m l s apart,
        (
          d,
          result,
          λ k v has. (v, has, Alike.same),
          ap (λ (t : Tables). t model) table ∙ put_self model l s ∙ added,
        ),
      );
  update = λ model args d s {r} {t} given plain h.
      let (l, planned, table) = memory-eq-ok model "update" args s h in
      let (before, after, f, g, was, is, result, met, set) =
        updated-some args.data_clause d (matches (where_of args)) (s model) given planned in
      (
        λ leaf m apart. ap (λ (t : Tables). t m) table ∙ put-others model m l s apart,
        (
          before,
          after,
          f,
          g,
          was,
          ap (λ (t : Tables). t model) table ∙ put_self model l s ∙ is,
          result,
          met,
          set,
        ),
      );
  delete = λ model args s {r} {t} plain h.
      let (l, planned, table) = memory-eq-ok model "delete" args s h in
      let (before, after, f, was, is, result, met) =
        deleted-some (matches (where_of args)) (s model) planned in
      (
        λ leaf m apart. ap (λ (t : Tables). t m) table ∙ put-others model m l s apart,
        (
          before,
          after,
          f,
          was,
          ap (λ (t : Tables). t model) table ∙ put_self model l s ∙ is,
          result,
          met,
        ),
      );
}
