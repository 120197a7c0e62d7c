-- ===== src/Json/Lex.antt =====
-- The first half of `JSON.parse`: a text as the tokens of JSON, read unit by unit.
use agentdesk_nestjs.Base.{
  ℕ, zero, suc, ◌+◌, ◌-◌, ◌*◌, Bool, true, false, ◌&&◌, ◌||◌, List, [], ◌∷◌, ◌++◌, Option, none,
  some, Text, units, ltb, leb, ◌==◌, if◌then◌else◌, same_text,
}
use agentdesk_nestjs.Json.{Json, null, bool, num, numeral}

pub data Punct : Type 0 where
  lbrack rbrack lbrace rbrace comma colon : Punct

-- A text, a value that is written without quotes or brackets, or a sign between values.
pub data Token : Type 0 where
  text : Text → Token
  literal : Json → Token
  punct : Punct → Token

abbrev pub Tokens : Type 0
Tokens = List Token

abbrev pub is_digit : ℕ → Bool
is_digit c = leb b'0' c && leb c b'9'

-- The number that digits spell behind `n`.
unfoldable pub read_digits : ℕ → Text → Option ℕ
read_digits n [] = some n
read_digits n (c ∷ s) =
    let more = read_digits (n * 10 + (c - b'0')) s in if is_digit c then more else none

-- Only `0` itself begins with a zero.
unfoldable pub read_natural : Text → Option ℕ
read_natural [] = none
read_natural (c ∷ []) = read_digits 0 (c ∷ [])
read_natural (c ∷ d ∷ s) = if c == b'0' then none else read_digits 0 (c ∷ d ∷ s)

-- How far a number has been read.
pub data NumberState : Type 0 where
  start signed leading_zero whole point fraction exponent exponent_sign power : NumberState

abbrev if_digit : ℕ → NumberState → Option NumberState
if_digit c n = if is_digit c then some n else none

abbrev is_e : ℕ → Bool
is_e c = c == b'e' || c == b'E'

abbrev whole_part : ℕ → Option NumberState
whole_part c = if c == b'0' then some leading_zero else if_digit c whole

unfoldable pub number_step : NumberState → ℕ → Option NumberState
number_step start c = if c == b'-' then some signed else whole_part c
number_step signed c = whole_part c
number_step leading_zero c =
    if c == b'.' then some point else if is_e c then some exponent else none
number_step whole c =
    if c == b'.' then some point else if is_e c then some exponent else if_digit c whole
number_step point c = if_digit c fraction
number_step fraction c = if is_e c then some exponent else if_digit c fraction
number_step exponent c = if c == b'+' || c == b'-' then some exponent_sign else if_digit c power
number_step exponent_sign c = if_digit c power
number_step power c = if_digit c power

abbrev may_end : NumberState → Bool
may_end leading_zero = true
may_end whole = true
may_end fraction = true
may_end power = true
may_end _ = false

unfoldable pub is_number_from : NumberState → Text → Bool
is_number_from n [] = may_end n
is_number_from n (c ∷ s) = elim (number_step n c) [ none ↦ false | some m ↦ is_number_from m s ]

abbrev number_or_none : Option ℕ → Text → Option Json
number_or_none (some n) s = some (num n)
number_or_none none s = if is_number_from start s then some (numeral s) else none

-- What a run of units outside quotes stands for.
unfoldable pub read_literal : Text → Option Json
read_literal s =
    if same_text s (units "null")
    then some null
    else if same_text s (units "true")
    then some (bool true)
    else if same_text s (units "false")
    then some (bool false)
    else number_or_none (read_natural s) s

-- What has been read of a text: whether a backslash came last, or some digits after `\u`.
pub data Escape : Type 0 where
  plain escaped : Escape
  hex : ℕ → ℕ → Escape

pub data State : Type 0 where
  between : State
  bare : Text → State
  quoted : Text → Escape → State

abbrev pub punct_of : ℕ → Option Punct
punct_of c =
    if c == b'['
    then some lbrack
    else if c == b']'
    then some rbrack
    else if c == b'{'
    then some lbrace
    else if c == b'}'
    then some rbrace
    else if c == b','
    then some comma
    else if c == b':'
    then some colon
    else none

abbrev pub is_blank : ℕ → Bool
is_blank c = c == 32 || (c == 10 || (c == 13 || c == 9))

abbrev pub begin_bare : Option Punct → ℕ → Tokens × State
begin_bare (some p) c = (punct p ∷ [], between)
begin_bare none c = ([], bare (c ∷ []))

-- A unit outside quotes: the tokens that it makes and what is read next.
unfoldable pub begin : ℕ → Tokens × State
begin c =
    if is_blank c
    then ([], between)
    else if c == b'"'
    then ([], quoted [] plain)
    else begin_bare (punct_of c) c

abbrev pub has_punct : Option Punct → Bool
has_punct none = false
has_punct (some p) = true

-- A unit that ends a run.
abbrev pub is_delimiter : ℕ → Bool
is_delimiter c = is_blank c || (c == b'"' || has_punct (punct_of c))

abbrev pub after_literal : Option Json → Tokens × State → Option (Tokens × State)
after_literal none next = none
after_literal (some v) (tokens, state) = some (literal v ∷ tokens, state)

-- The unit after a backslash; `none` refuses it.
abbrev pub escaped_unit : ℕ → Option ℕ
escaped_unit c =
    if c == b'"' || (c == 0x5c || c == b'/')
    then some c
    else if c == b'b'
    then some 8
    else if c == b't'
    then some 9
    else if c == b'n'
    then some 10
    else if c == b'f'
    then some 12
    else if c == b'r'
    then some 13
    else none

abbrev pub hex_value : ℕ → Option ℕ
hex_value c =
    if is_digit c
    then some (c - b'0')
    else if leb b'a' c && leb c b'f'
    then some (c - b'a' + 10)
    else if leb b'A' c && leb c b'F'
    then some (c - b'A' + 10)
    else none

abbrev pub add_unit : Text → Option ℕ → Option (Tokens × State)
add_unit acc none = none
add_unit acc (some c) = some ([], quoted (acc ++ c ∷ []) plain)

-- Of four digits, `left` are to come after this one.
abbrev pub add_digit : Text → ℕ → ℕ → Option ℕ → Option (Tokens × State)
add_digit acc left n none = none
add_digit acc zero n (some d) = some ([], quoted (acc ++ (n * 16 + d) ∷ []) plain)
add_digit acc (suc left) n (some d) = some ([], quoted acc (hex left (n * 16 + d)))

abbrev pub add_escaped : Text → ℕ → Option (Tokens × State)
add_escaped acc c =
    if c == b'u' then some ([], quoted acc (hex 3 0)) else add_unit acc (escaped_unit c)

abbrev pub add_plain : Text → ℕ → Option (Tokens × State)
add_plain acc c =
    if c == b'"'
    then some (text acc ∷ [], between)
    else if c == 0x5c
    then some ([], quoted acc escaped)
    else if ltb c 32
    then none
    else some ([], quoted (acc ++ c ∷ []) plain)

unfoldable pub step : State → ℕ → Option (Tokens × State)
step between c = some (begin c)
step (bare s) c =
    if is_delimiter c
    then after_literal (read_literal s) (begin c)
    else some ([], bare (s ++ c ∷ []))
step (quoted acc plain) c = add_plain acc c
step (quoted acc escaped) c = add_escaped acc c
step (quoted acc (hex left n)) c = add_digit acc left n (hex_value c)

abbrev pub literal_only : Option Json → Option Tokens
literal_only none = none
literal_only (some v) = some (literal v ∷ [])

abbrev pub ended : State → Option Tokens
ended between = some []
ended (bare s) = literal_only (read_literal s)
ended (quoted acc e) = none

abbrev pub put_before : Tokens → Option Tokens → Option Tokens
put_before tokens none = none
put_before tokens (some more) = some (tokens ++ more)

abbrev pub follow : Option (Tokens × State) → (State → Option Tokens) → Option Tokens
follow none k = none
follow (some (tokens, next)) k = put_before tokens (k next)

unfoldable pub lex : State → Text → Option Tokens
lex state [] = ended state
lex state (c ∷ s) = follow (step state c) (λ next. lex next s)
