-- ===== src/Json/RoundTrip.antt =====
-- Values that `JSON.stringify` writes so that `JSON.parse` reads them back, and their tokens.
pub mod Decimals
pub mod Texts
pub mod Lexing
pub mod Reading
pub mod Whole
use agentdesk_nestjs.Base.{◌≡◌, false, All, [], ◌∷◌, ◌++◌, none, some, Text, units}
use agentdesk_nestjs.Json.{
  Json, null, bool, num, numeral, str, arr, obj, Items, nil, cons, Fields, end, field, get_field,
  set_field,
}
use agentdesk_nestjs.Json.Lex.{
  Tokens, text, literal, punct, lbrack, rbrack, lbrace, rbrace, comma, colon, is_delimiter,
  read_literal,
}

-- The keys are different from each other and from those of the fields before.
abbrev pub Distinct : Fields → Fields → Type 0
Distinct before end = Unit
Distinct before (field k v fs) = (get_field k before ≡ none) × Distinct (set_field k v before) fs

-- A number that is not natural is written as JSON allows it.
abbrev pub IsNumeral : Text → Type 0
IsNumeral t = (read_literal t ≡ some (numeral t)) × All (λ c. is_delimiter c ≡ false) t

-- No object has a key twice, and every number is written as JSON allows it.
unfoldable mutual
  pub IsExact : Json → Type 0
  IsExact (numeral t) = IsNumeral t
  IsExact (arr xs) = AreExact xs
  IsExact (obj fs) = Distinct end fs × HasExact fs
  IsExact _ = Unit

  pub AreExact : Items → Type 0
  AreExact nil = Unit
  AreExact (cons v xs) = IsExact v × AreExact xs

  pub HasExact : Fields → Type 0
  HasExact end = Unit
  HasExact (field k v fs) = IsExact v × HasExact fs

unfoldable mutual
  pub emit : Json → Tokens
  emit (str s) = text s ∷ []
  emit (arr xs) = punct lbrack ∷ emit_items xs
  emit (obj fs) = punct lbrace ∷ emit_fields fs
  emit null = literal null ∷ []
  emit (bool b) = literal (bool b) ∷ []
  emit (num n) = literal (num n) ∷ []
  emit (numeral t) = literal (numeral t) ∷ []

  pub emit_items : Items → Tokens
  emit_items nil = punct rbrack ∷ []
  emit_items (cons v xs) = emit v ++ emit_more xs

  pub emit_more : Items → Tokens
  emit_more nil = punct rbrack ∷ []
  emit_more (cons v xs) = punct comma ∷ (emit v ++ emit_more xs)

  pub emit_fields : Fields → Tokens
  emit_fields end = punct rbrace ∷ []
  emit_fields (field k v fs) = text (units k) ∷ punct colon ∷ (emit v ++ emit_rest fs)

  pub emit_rest : Fields → Tokens
  emit_rest end = punct rbrace ∷ []
  emit_rest (field k v fs) = punct comma ∷ text (units k) ∷ punct colon ∷ (emit v ++ emit_rest fs)
