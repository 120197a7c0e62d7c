-- ===== src/Json/Parse.antt =====
-- The second half of `JSON.parse`: the value that tokens stand for, read token by token with the
-- brackets that are open.
use agentdesk_nestjs.Base.{List, [], ◌∷◌, Option, none, some, String, Text, decode}
use agentdesk_nestjs.Json.{Json, arr, obj, str, Items, nil, cons, Fields, end, set_field}
use agentdesk_nestjs.Json.Lex.{
  Token, Tokens, text, literal, punct, lbrack, rbrack, lbrace, rbrace, comma, colon, lex, between,
}

-- What is open around a value: the items before it, or the fields before it and its key.
pub data Frame : Type 0 where
  in_array : Items → Frame
  in_object : Fields → String → Frame

abbrev pub Stack : Type 0
Stack = List Frame

-- What may come next.
pub data Mode : Type 0 where
  want first_item first_key : Stack → Mode
  next_key : Fields → Stack → Mode
  want_colon : Fields → String → Stack → Mode
  after : Json → Stack → Mode

abbrev pub add_item : Items → Json → Items
add_item nil v = cons v nil
add_item (cons w xs) v = cons w (add_item xs v)

abbrev pub begin_value : Token → Stack → Option Mode
begin_value (literal v) k = some (after v k)
begin_value (text s) k = some (after (str s) k)
begin_value (punct lbrack) k = some (first_item k)
begin_value (punct lbrace) k = some (first_key k)
begin_value _ k = none

abbrev pub end_value : Json → Frame → Stack → Token → Option Mode
end_value v (in_array xs) k (punct comma) = some (want (in_array (add_item xs v) ∷ k))
end_value v (in_array xs) k (punct rbrack) = some (after (arr (add_item xs v)) k)
end_value v (in_object fs key) k (punct comma) = some (next_key (set_field key v fs) k)
end_value v (in_object fs key) k (punct rbrace) = some (after (obj (set_field key v fs)) k)
end_value v frame k _ = none

-- A key that comes again replaces the value and keeps its place.
unfoldable pub read_token : Mode → Token → Option Mode
read_token (want k) t = begin_value t k
read_token (first_item k) (punct rbrack) = some (after (arr nil) k)
read_token (first_item k) t = begin_value t (in_array nil ∷ k)
read_token (first_key k) (punct rbrace) = some (after (obj end) k)
read_token (first_key k) (text key) = some (want_colon end (decode key) k)
read_token (first_key k) _ = none
read_token (next_key fs k) (text key) = some (want_colon fs (decode key) k)
read_token (next_key fs k) _ = none
read_token (want_colon fs key k) (punct colon) = some (want (in_object fs key ∷ k))
read_token (want_colon fs key k) _ = none
read_token (after v []) t = none
read_token (after v (frame ∷ k)) t = end_value v frame k t

abbrev pub whole_value : Mode → Option Json
whole_value (after v []) = some v
whole_value _ = none

unfoldable pub read_tokens : Mode → Tokens → Option Json
read_tokens mode [] = whole_value mode
read_tokens mode (t ∷ ts) = elim (read_token mode t) [
  | none ↦ none
  | some next ↦ read_tokens next ts
]

abbrev pub read_all : Option Tokens → Option Json
read_all none = none
read_all (some tokens) = read_tokens (want []) tokens

-- `JSON.parse`; `none` is a throw. A lone half of a pair in a key is read as U+FFFD.
unfoldable pub parse : Text → Option Json
parse s = read_all (lex between s)
