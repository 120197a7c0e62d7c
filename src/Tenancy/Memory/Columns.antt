-- ===== src/Tenancy/Memory/Columns.antt =====
-- The columns that are set in a row, and the row that an operation finds.
use mathlib.Core.Path.{subst}
use agentdesk_nestjs.Base.{
  ◌≡◌, refl, ap, inl, inr, Bool, true, List, [], ◌∷◌, ◌++◌, Option, none, some, String, str_eq,
  eq_iff, if◌then◌else◌, Bool-cases, arith,
}
use agentdesk_nestjs.Json.{Json, Fields, end, field, get_field}
use agentdesk_nestjs.Tenancy.{set_field}
use agentdesk_nestjs.Tenancy.Database.{HasColumns, Alike}
use agentdesk_nestjs.Tenancy.Memory.{Place, further, place, overlay}

get_field-set_field :
    (k j : String) (v : Json) (f : Fields)
    → get_field j (set_field k v f) ≡ (if str_eq k j then some v else get_field j f)
unfolding set_field
get_field-set_field k j v end = refl
get_field-set_field k j v (field i u f) =
    ground (arith, eq_iff k j, eq_iff i k, eq_iff i j, get_field-set_field k j v f)

overlay-sets :
    (d f : Fields) (k : String) (v : Json)
    → get_field k d ≡ some v
    → get_field k (overlay d f) ≡ some v
unfolding overlay
overlay-sets end f k v has = cc has
overlay-sets (field j u d) f k v has = elim (Bool-cases (str_eq j k)) [
  | inl here ↦ rw (get_field-set_field j k u (overlay d f), here) (rw here at has)
  | inr there ↦
      rw (get_field-set_field j k u (overlay d f), there) (overlay-sets d f k v (rw there at has))
]

pub overlay-HasColumns : (d f : Fields) → HasColumns d (overlay d f)
overlay-HasColumns d f k v has = (v, overlay-sets d f k v has, Alike.same)

pub overlay-others :
    (d f : Fields) (k : String) → get_field k d ≡ none → get_field k (overlay d f) ≡ get_field k f
unfolding overlay
overlay-others end f k out = refl
overlay-others (field j u d) f k out = elim (Bool-cases (str_eq j k)) [
  | inl here ↦ let found : some u ≡ none = rw here at out in cc found
  | inr there ↦
      rw (get_field-set_field j k u (overlay d f), there) (overlay-others d f k (rw there at out))
]

-- The place that is found splits the table.
pub place-splits :
    (p : Fields → Bool) (fs : List Fields) (q : Place)
    → place p fs ≡ some q
    → (fs ≡ q.before ++ q.item ∷ q.after) × (p q.item ≡ true)
place-splits p [] q e = cc e
place-splits p (f ∷ fs) q e = elim (Bool-cases (p f)) [
  | inl here ↦
      let same : some (record { before = []; item = f; after = fs }) ≡ some q = rw here at e in
      let exact : record { before = []; item = f; after = fs } ≡ q = cc same in
      subst (λ (q : Place). (f ∷ fs ≡ q.before ++ q.item ∷ q.after) × (p q.item ≡ true)) exact
        (refl, here)
  | inr there ↦ later (place p fs) (place-splits p fs) (rw there at e)
]
  where
    later :
        (o : Option Place)
        → ((q : Place) → o ≡ some q → (fs ≡ q.before ++ q.item ∷ q.after) × (p q.item ≡ true))
        → further f o ≡ some q
        → (f ∷ fs ≡ q.before ++ q.item ∷ q.after) × (p q.item ≡ true)
    later none ih h = cc h
    later (some q') ih h =
        let (splits, meets) = ih q' refl in
        let exact : record q' { before = f ∷ q'.before } ≡ q = cc h in
        subst (λ (q : Place). (f ∷ fs ≡ q.before ++ q.item ∷ q.after) × (p q.item ≡ true)) exact
          (ap (λ (l : List Fields). f ∷ l) splits, meets)
