-- ===== src/Json/RoundTrip/Reading.antt =====
-- The tokens of a value are read as that value.
use agentdesk_nestjs.Base.{
  ◌≡◌, refl, sym, ap, ◌∙◌, ◌∷◌, ◌++◌, none, some, String, units, str_eq, decode, decode-units,
  append_assoc, Bool-cases, inl, inr,
}
use agentdesk_nestjs.Json.{
  Json, null, bool, num, numeral, str, arr, obj, Items, nil, cons, Fields, end, field, get_field,
  set_field,
}
use agentdesk_nestjs.Json.Lex.{Tokens}
use agentdesk_nestjs.Json.Parse.{
  in_array, in_object, Stack, Mode, want, first_item, first_key, after, add_item, read_token,
  read_tokens,
}
use agentdesk_nestjs.Json.RoundTrip.{
  Distinct, IsExact, AreExact, HasExact, emit, emit_items, emit_more, emit_fields, emit_rest,
}

-- Items and fields behind others, as the reader puts them there.
abbrev add_items : Items → Items → Items
add_items acc nil = acc
add_items acc (cons v xs) = add_items (add_item acc v) xs

abbrev set_fields : Fields → Fields → Fields
set_fields acc end = acc
set_fields acc (field k v fs) = set_fields (set_field k v acc) fs

-- The same, put there at once.
abbrev join_items : Items → Items → Items
join_items nil ys = ys
join_items (cons x xs) ys = cons x (join_items xs ys)

abbrev join_fields : Fields → Fields → Fields
join_fields end gs = gs
join_fields (field k v fs) gs = field k v (join_fields fs gs)

join-add_item :
    (acc : Items) (v : Json) (xs : Items)
    → join_items (add_item acc v) xs ≡ join_items acc (cons v xs)
join-add_item nil v xs = refl
join-add_item (cons w acc) v xs = ap (cons w) (join-add_item acc v xs)

join_items-nil : (acc : Items) → join_items acc nil ≡ acc
join_items-nil nil = refl
join_items-nil (cons w acc) = ap (cons w) (join_items-nil acc)

add_items-join : (acc xs : Items) → add_items acc xs ≡ join_items acc xs
add_items-join acc nil = sym (join_items-nil acc)
add_items-join acc (cons v xs) = add_items-join (add_item acc v) xs ∙ join-add_item acc v xs

join_fields-end : (acc : Fields) → join_fields acc end ≡ acc
join_fields-end end = refl
join_fields-end (field k v acc) = ap (field k v) (join_fields-end acc)

join-set_field :
    (acc : Fields) (k : String) (v : Json) (fs : Fields)
    → get_field k acc ≡ none
    → join_fields (set_field k v acc) fs ≡ join_fields acc (field k v fs)
unfolding set_field
join-set_field end k v fs h = refl
join-set_field (field j u acc) k v fs h = elim (Bool-cases (str_eq j k)) [
  | inl here ↦ let found : some u ≡ none = rw here at h in cc found
  | inr other ↦ rw other (ap (field j u) (join-set_field acc k v fs (rw other at h)))
]

set_fields-join : (acc fs : Fields) → Distinct acc fs → set_fields acc fs ≡ join_fields acc fs
set_fields-join acc end distinct = sym (join_fields-end acc)
set_fields-join acc (field k v fs) (absent, distinct) =
    set_fields-join (set_field k v acc) fs distinct ∙ join-set_field acc k v fs absent

-- With a mode and what follows.
abbrev Reads : Mode → Tokens → Mode → Tokens → Type 0
Reads m ts n rest = read_tokens m (ts ++ rest) ≡ read_tokens n rest

abbrev ReadsValue : Json → Type 0
ReadsValue v = IsExact v → (k : Stack) (rest : Tokens) → Reads (want k) (emit v) (after v k) rest

abbrev ReadsItems : Items → Type 0
ReadsItems xs =
    AreExact xs
    → (k : Stack) (rest : Tokens)
    → Reads (first_item k) (emit_items xs) (after (arr xs) k) rest
      × ((acc : Items) (v : Json)
          → Reads (after v (in_array acc ∷ k)) (emit_more xs)
              (after (arr (add_items (add_item acc v) xs)) k) rest)

abbrev ReadsFields : Fields → Type 0
ReadsFields fs =
    HasExact fs
    → (k : Stack) (rest : Tokens)
    → ((distinct : Distinct end fs) → Reads (first_key k) (emit_fields fs) (after (obj fs) k) rest)
      × ((acc : Fields) (key : String) (v : Json)
          → Reads (after v (in_object acc key ∷ k)) (emit_rest fs)
              (after (obj (set_fields (set_field key v acc) fs)) k) rest)

-- The first item does not close the array.
first_item-want :
    (v : Json) (k : Stack) (rest : Tokens)
    → read_tokens (first_item k) (emit v ++ rest)
      ≡ read_tokens (want (in_array nil ∷ k)) (emit v ++ rest)
unfolding emit read_tokens read_token
first_item-want null k rest = refl
first_item-want (bool b) k rest = refl
first_item-want (num n) k rest = refl
first_item-want (numeral t) k rest = refl
first_item-want (str s) k rest = refl
first_item-want (arr xs) k rest = refl
first_item-want (obj fs) k rest = refl

-- An item of an array, and a field of an object behind its key.
item-Reads :
    (acc : Items) (w : Json) (ts : Tokens) (k : Stack) (rest : Tokens)
    → Reads (want (in_array acc ∷ k)) (emit w) (after w (in_array acc ∷ k)) (ts ++ rest)
    → read_tokens (want (in_array acc ∷ k)) ((emit w ++ ts) ++ rest)
      ≡ read_tokens (after w (in_array acc ∷ k)) (ts ++ rest)
item-Reads acc w ts k rest read =
    ap (read_tokens (want (in_array acc ∷ k))) (append_assoc (emit w) ts rest) ∙ read

field-Reads :
    (acc : Fields) (key : String) (w : Json) (ts : Tokens) (k : Stack) (rest : Tokens)
    → Reads (want (in_object acc key ∷ k)) (emit w) (after w (in_object acc key ∷ k)) (ts ++ rest)
    → read_tokens (want (in_object acc (decode (units key)) ∷ k)) ((emit w ++ ts) ++ rest)
      ≡ read_tokens (after w (in_object acc key ∷ k)) (ts ++ rest)
field-Reads acc key w ts k rest read =
    ap (λ (i : String). read_tokens (want (in_object acc i ∷ k)) ((emit w ++ ts) ++ rest))
      (decode-units key)
    ∙ ap (read_tokens (want (in_object acc key ∷ k))) (append_assoc (emit w) ts rest)
    ∙ read

pub emit-Reads : (v : Json) → ReadsValue v
unfolding emit read_tokens read_token IsExact set_field
emit-Reads v = elim v as ReadsValue ReadsItems ReadsFields [
  | arr (xs → ih) ↦ λ exact k rest. (ih exact k rest).0
  | obj (fs → ih) ↦ λ exact k rest. (ih exact.1 k rest).0 exact.0
  | nil ↦ λ exact k rest. (refl, λ acc v. refl)
  | cons (w → ih) (xs → ihs) ↦ λ exact k rest.
      let more = (ihs exact.1 k rest).1 in
      (
        ap (read_tokens (first_item k)) (append_assoc (emit w) (emit_more xs) rest)
            ∙ first_item-want w k (emit_more xs ++ rest)
            ∙ ih exact.0 (in_array nil ∷ k) (emit_more xs ++ rest)
            ∙ more nil w
            ∙ ap (λ ys. read_tokens (after (arr ys) k) rest) (add_items-join (cons w nil) xs),
        λ acc v.
            item-Reads (add_item acc v) w (emit_more xs) k rest
              (ih exact.0 (in_array (add_item acc v) ∷ k) (emit_more xs ++ rest))
            ∙ more (add_item acc v) w,
      )
  | end ↦ λ exact k rest. (λ distinct. refl, λ acc key v. refl)
  | field key (w → ih) (fs → ihs) ↦ λ exact k rest.
      let more = (ihs exact.1 k rest).1 in
      (
        λ distinct.
            field-Reads end key w (emit_rest fs) k rest
              (ih exact.0 (in_object end key ∷ k) (emit_rest fs ++ rest))
            ∙ more end key w
            ∙ ap (λ gs. read_tokens (after (obj gs) k) rest)
                (set_fields-join (field key w end) fs distinct.1),
        λ acc key' v.
            field-Reads (set_field key' v acc) key w (emit_rest fs) k rest
              (ih exact.0 (in_object (set_field key' v acc) key ∷ k) (emit_rest fs ++ rest))
            ∙ more (set_field key' v acc) key w,
      )
  | _ ↦ λ exact k rest. refl
]
