-- ===== src/Json/RoundTrip/Lexing.antt =====
-- A value that was written is read as its tokens.
use agentdesk_nestjs.Base.{
  ℕ, ◌≡◌, refl, sym, ap, ◌∙◌, Bool, true, false, ◌||◌, [], ◌∷◌, ◌++◌, Option, none, some, Text,
  units, All, decimal, ◌==◌, append_assoc, append-nil, same_text,
}
use agentdesk_nestjs.Json.{
  Json, null, bool, num, numeral, str, arr, obj, Items, nil, cons, Fields, end, field, stringify,
  stringify_items, stringify_more, stringify_fields, stringify_rest, quote,
}
use agentdesk_nestjs.Json.Lex.{
  Tokens, text, literal, punct, lbrack, rbrack, lbrace, rbrace, comma, colon, Punct, State, between,
  bare, begin, begin_bare, after_literal, is_delimiter, is_blank, punct_of, has_punct, read_literal,
  read_natural, is_number_from, literal_only, step, follow, lex, put_before,
}
use agentdesk_nestjs.Json.RoundTrip.{
  IsExact, AreExact, HasExact, emit, emit_items, emit_more, emit_fields, emit_rest,
}
use agentdesk_nestjs.Json.RoundTrip.Decimals.{decimal-bare, read_literal-decimal}
use agentdesk_nestjs.Json.RoundTrip.Texts.{lex-quiet, lex-quote}

pub put_before-append :
    (ts us : Tokens) (o : Option Tokens) → put_before (ts ++ us) o ≡ put_before ts (put_before us o)
put_before-append ts us none = refl
put_before-append ts us (some vs) = ap (λ (l : Tokens). some l) (append_assoc ts us vs)

-- Nothing follows, or a unit that ends a run.
abbrev pub Delimited : Text → Type 0
Delimited [] = Unit
Delimited (c ∷ s) = is_delimiter c ≡ true

abbrev IsBare : Text → Type 0
IsBare = All (λ c. is_delimiter c ≡ false)

after_literal-follow :
    (v : Json) (x : Tokens × State) (k : State → Option Tokens)
    → follow (after_literal (some v) x) k ≡ put_before (literal v ∷ []) (follow (some x) k)
after_literal-follow v (ts, next) k = put_before-append (literal v ∷ []) ts (k next)

lex-bare :
    (s acc : Text) (v : Json) (rest : Text)
    → IsBare s
    → read_literal (acc ++ s) ≡ some v
    → Delimited rest
    → lex (bare acc) (s ++ rest) ≡ put_before (literal v ∷ []) (lex between rest)
unfolding lex step
lex-bare [] acc v [] bare_units known delimited =
    ap literal_only (ap read_literal (sym (append-nil acc)) ∙ known)
lex-bare [] acc v (c ∷ rest) bare_units known delimited =
    let read = ap read_literal (sym (append-nil acc)) ∙ known in
    rw (delimited, read) (after_literal-follow v (begin c) (λ next. lex next rest))
lex-bare (c ∷ s) acc v rest (here, later) known delimited =
    lex-quiet (bare acc) (bare (acc ++ c ∷ [])) c (s ++ rest) (rw here refl)
    ∙ lex-bare s (acc ++ c ∷ []) v rest later
        (ap read_literal (append_assoc acc (c ∷ []) s) ∙ known) delimited

or_false : (a b : Bool) → (a || b) ≡ false → (a ≡ false) × (b ≡ false)
or_false true b h = cc h
or_false false b h = (refl, h)

begin-bare : (c : ℕ) → is_delimiter c ≡ false → begin c ≡ ([], bare (c ∷ []))
unfolding begin
begin-bare c h =
    let (not_blank, h') = or_false (is_blank c) ((c == b'"') || has_punct (punct_of c)) h in
    let (not_quote, not_punct) = or_false (c == b'"') (has_punct (punct_of c)) h' in
    rw (not_blank, not_quote) (no_punct (punct_of c) not_punct)
  where
    no_punct : (o : Option Punct) → has_punct o ≡ false → begin_bare o c ≡ ([], bare (c ∷ []))
    no_punct none h = refl
    no_punct (some p) h = cc h

read_literal-nil : read_literal [] ≡ none
unfolding read_literal same_text read_natural is_number_from
read_literal-nil = refl

-- A run of units that stands for a value.
lex-literal :
    (s : Text) (v : Json) (rest : Text)
    → IsBare s
    → read_literal s ≡ some v
    → Delimited rest
    → lex between (s ++ rest) ≡ put_before (literal v ∷ []) (lex between rest)
unfolding step
lex-literal [] v rest bare_units known delimited = cc (known, read_literal-nil)
lex-literal (c ∷ s) v rest (here, later) known delimited =
    lex-quiet between (bare (c ∷ [])) c (s ++ rest)
      (ap (λ (x : Tokens × State). some x) (begin-bare c here))
    ∙ lex-bare s (c ∷ []) v rest later known delimited

lex-punct :
    (p : Punct) (c : ℕ) (rest : Text)
    → begin c ≡ (punct p ∷ [], between)
    → lex between (c ∷ rest) ≡ put_before (punct p ∷ []) (lex between rest)
unfolding lex step
lex-punct p c rest h = ap (λ (x : Tokens × State). follow (some x) (λ next. lex next rest)) h

-- The tokens of a text, whatever follows it.
abbrev Lexes : Text → Tokens → Text → Type 0
Lexes s ts rest = lex between (s ++ rest) ≡ put_before ts (lex between rest)

Lexes-then :
    (s t : Text) (ts us : Tokens) (rest : Text)
    → Lexes s ts (t ++ rest)
    → Lexes t us rest
    → Lexes (s ++ t) (ts ++ us) rest
Lexes-then s t ts us rest first second =
    ap (lex between) (append_assoc s t rest)
    ∙ first
    ∙ ap (put_before ts) second
    ∙ sym (put_before-append ts us (lex between rest))

abbrev LexesValue : Json → Type 0
LexesValue v = IsExact v → (rest : Text) → Delimited rest → Lexes (stringify v) (emit v) rest

-- Each but the first of the items, and each but the first of the fields, with what closes them.
abbrev LexesItems : Items → Type 0
LexesItems xs =
    AreExact xs
    → (rest : Text)
    → Lexes (stringify_items xs) (emit_items xs) rest
      × Lexes (stringify_more xs) (emit_more xs) rest
      × Delimited (stringify_more xs ++ rest)

abbrev LexesFields : Fields → Type 0
LexesFields fs =
    HasExact fs
    → (rest : Text)
    → Lexes (stringify_fields fs) (emit_fields fs) rest
      × Lexes (stringify_rest fs) (emit_rest fs) rest
      × Delimited (stringify_rest fs ++ rest)

null-Lexes : LexesValue null
unfolding stringify emit read_literal same_text
null-Lexes exact rest d =
    lex-literal (units "null") null rest (refl, (refl, (refl, (refl, tt)))) refl d

bool-Lexes : (b : Bool) → LexesValue (bool b)
unfolding stringify emit read_literal same_text
bool-Lexes true exact rest d =
    lex-literal (units "true") (bool true) rest (refl, (refl, (refl, (refl, tt)))) refl d
bool-Lexes false exact rest d =
    lex-literal (units "false") (bool false) rest (refl, (refl, (refl, (refl, (refl, tt))))) refl d

pub stringify-Lexes : (v : Json) → LexesValue v
unfolding stringify emit begin IsExact
stringify-Lexes v = elim v as LexesValue LexesItems LexesFields [
  | null ↦ null-Lexes
  | bool b ↦ bool-Lexes b
  | num n ↦ λ exact rest d.
      lex-literal (decimal n) (num n) rest (decimal-bare n) (read_literal-decimal n) d
  | numeral t ↦ λ exact rest d. lex-literal t (numeral t) rest exact.1 exact.0 d
  | str s ↦ λ exact rest d. lex-quote s rest
  | arr (xs → ih) ↦ λ exact rest d.
      Lexes-then (b'[' ∷ []) (stringify_items xs) (punct lbrack ∷ []) (emit_items xs) rest
        (lex-punct lbrack b'[' (stringify_items xs ++ rest) refl) (ih exact rest).0
  | obj (fs → ih) ↦ λ exact rest d.
      Lexes-then (b'{' ∷ []) (stringify_fields fs) (punct lbrace ∷ []) (emit_fields fs) rest
        (lex-punct lbrace b'{' (stringify_fields fs ++ rest) refl) (ih exact.1 rest).0
  | nil ↦ λ exact rest. (lex-punct rbrack b']' rest refl, lex-punct rbrack b']' rest refl, refl)
  | cons (w → ih) (xs → ihs) ↦ λ exact rest.
      let (_, more, delimited) = ihs exact.1 rest in
      let whole =
        Lexes-then (stringify w) (stringify_more xs) (emit w) (emit_more xs) rest
          (ih exact.0 (stringify_more xs ++ rest) delimited) more in
      (
        whole,
        Lexes-then (b',' ∷ []) (stringify w ++ stringify_more xs) (punct comma ∷ [])
            (emit w ++ emit_more xs) rest (lex-punct comma b',' _ refl) whole,
        refl,
      )
  | end ↦ λ exact rest. (lex-punct rbrace b'}' rest refl, lex-punct rbrace b'}' rest refl, refl)
  | field k (w → ih) (fs → ihs) ↦ λ exact rest.
      let (_, more, delimited) = ihs exact.1 rest in
      let value =
        Lexes-then (stringify w) (stringify_rest fs) (emit w) (emit_rest fs) rest
          (ih exact.0 (stringify_rest fs ++ rest) delimited) more in
      let with_colon =
        Lexes-then (b':' ∷ []) (stringify w ++ stringify_rest fs) (punct colon ∷ [])
          (emit w ++ emit_rest fs) rest (lex-punct colon b':' _ refl) value in
      let whole =
        Lexes-then (quote (units k)) (b':' ∷ (stringify w ++ stringify_rest fs))
          (text (units k) ∷ []) (punct colon ∷ (emit w ++ emit_rest fs)) rest
          (lex-quote (units k) _) with_colon in
      (
        whole,
        Lexes-then (b',' ∷ []) (quote (units k) ++ b':' ∷ (stringify w ++ stringify_rest fs))
            (punct comma ∷ []) (text (units k) ∷ punct colon ∷ (emit w ++ emit_rest fs)) rest
            (lex-punct comma b',' _ refl) whole,
        refl,
      )
]
