-- ===== src/Json.antt =====
-- JSON values and `JSON.stringify`. The numbers of the program's own payloads are natural; any
-- other number that a text may hold is kept as it is written.
pub mod Lex
pub mod Parse
pub mod RoundTrip
mod Tests
use agentdesk_nestjs.Base.{
  ℕ, ◌+◌, ◌/◌, ◌%◌, Bool, true, false, [], ◌∷◌, ◌++◌, String, Text, units, decimal, ltb, ◌==◌,
  if◌then◌else◌, ◌-◌, ◌||◌, Option, none, some, str_eq, ◌≡◌, refl,
}

mutual
  pub data Json : Type 0 where
    null : Json
    bool : Bool → Json
    num : ℕ → Json
    numeral : Text → Json
    str : Text → Json
    arr : Items → Json
    obj : Fields → Json

  pub data Items : Type 0 where
    nil : Items
    cons : Json → Items → Items

  pub data Fields : Type 0 where
    end : Fields
    field : String → Json → Fields → Fields

abbrev pub hex_digit : ℕ → ℕ
hex_digit n = if ltb n 10 then b'0' + n else b'a' + (n - 10)

-- One code unit inside a quoted text.
abbrev pub escape_unit : ℕ → Text
escape_unit c =
    if c == b'"' || c == 0x5c
    then 0x5c ∷ c ∷ []
    else if c == 8
    then units "\\b"
    else if c == 9
    then units "\\t"
    else if c == 10
    then units "\\n"
    else if c == 12
    then units "\\f"
    else if c == 13
    then units "\\r"
    else if ltb c 32
    then units "\\u00" ++ hex_digit (c / 16) ∷ hex_digit (c % 16) ∷ []
    else c ∷ []

unfoldable pub escape : Text → Text
escape [] = []
escape (c ∷ s) = escape_unit c ++ escape s

unfoldable pub quote : Text → Text
unfolding escape
quote s = b'"' ∷ (escape s ++ b'"' ∷ [])

unfoldable mutual
  unfolding quote decimal

  pub stringify : Json → Text
  stringify null = units "null"
  stringify (bool true) = units "true"
  stringify (bool false) = units "false"
  stringify (num n) = decimal n
  stringify (numeral t) = t
  stringify (str s) = quote s
  stringify (arr xs) = b'[' ∷ stringify_items xs
  stringify (obj fs) = b'{' ∷ stringify_fields fs

  -- The items, each but the last followed by a comma, and the closing bracket.
  pub stringify_items : Items → Text
  stringify_items nil = b']' ∷ []
  stringify_items (cons v xs) = stringify v ++ stringify_more xs

  pub stringify_more : Items → Text
  stringify_more nil = b']' ∷ []
  stringify_more (cons v xs) = b',' ∷ (stringify v ++ stringify_more xs)

  pub stringify_fields : Fields → Text
  stringify_fields end = b'}' ∷ []
  stringify_fields (field k v fs) = quote (units k) ++ b':' ∷ (stringify v ++ stringify_rest fs)

  pub stringify_rest : Fields → Text
  stringify_rest end = b'}' ∷ []
  stringify_rest (field k v fs) =
      b',' ∷ (quote (units k) ++ b':' ∷ (stringify v ++ stringify_rest fs))

-- A property of an object; `undefined` if it is absent.
abbrev pub get_field : String → Fields → Option Json
get_field k end = none
get_field k (field j v fs) = if str_eq j k then some v else get_field k fs

-- `{ ...fields, [key]: value }`: a present key keeps its place, a new one is added at the end.
unfoldable pub set_field : String → Json → Fields → Fields
set_field k v end = field k v end
set_field k v (field j u fs) =
    let later = set_field k v fs in if str_eq j k then field k v fs else field j u later

stringify_example :
    stringify (
      obj (
        field "a"
          (arr (cons (num 10) (cons (bool true) nil)))
          (field "b" (str (units "x\"y")) end)))
    ≡ units "{\"a\":[10,true],\"b\":\"x\\\"y\"}"
unfolding stringify
stringify_example = refl
