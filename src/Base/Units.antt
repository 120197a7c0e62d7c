-- ===== src/Base/Units.antt =====
-- Text as the runtime holds it: a list of UTF-16 code units. `String` serves where a text is only
-- compared (names, ids, tags); `units` carries one over.
use Prim.Native.Nat.{ℕ, zero, suc, ◌+◌, ◌-◌, ◌/◌, ◌%◌}
use Prim.Native.Char.{code}
use Prim.Native.String.{String}
use mathlib.Core.Bool.{Bool, true, false, ◌&&◌, ◌||◌}
use mathlib.Core.List.{List, [], ◌∷◌, ◌++◌, map}
use agentdesk_nestjs.Base.Tests.{ltb, leb, ◌==◌, if◌then◌else◌}

abbrev pub Text : Type 0
Text = List ℕ

-- A character beyond the basic plane is a pair of surrogates.
abbrev pub encode : ℕ → Text
encode c =
    if ltb c 0x10000
    then c ∷ []
    else (0xd800 + (c - 0x10000) / 0x400) ∷ (0xdc00 + (c - 0x10000) % 0x400) ∷ []

abbrev pub units : String → Text
units String.[] = []
units (String.◌∷◌ c s) = encode (code c) ++ units s

-- `s.slice(0, n)`
abbrev pub slice_to : ℕ → Text → Text
slice_to zero s = []
slice_to (suc n) [] = []
slice_to (suc n) (c ∷ s) = c ∷ slice_to n s

-- `String(n)` of a natural number; the first argument bounds the number of digits.
unfoldable pub decimal_from : ℕ → ℕ → Text → Text
decimal_from zero n acc = acc
decimal_from (suc f) n acc =
    let here = (b'0' + n % 10) ∷ acc in
    let rest = decimal_from f (n / 10) here in if ltb n 10 then here else rest

unfoldable pub decimal : ℕ → Text
unfolding decimal_from
decimal n = decimal_from (suc n) n []

-- `toLowerCase` on the ASCII letters; the texts that the program lowers are its own messages and
-- the database client's, which are ASCII.
unfoldable pub to_lower : Text → Text
to_lower = map (λ c. if leb b'A' c && leb c b'Z' then c + 32 else c)

unfoldable pub starts_with : Text → Text → Bool
starts_with s [] = true
starts_with [] (p ∷ ps) = false
starts_with (c ∷ s) (p ∷ ps) = c == p && starts_with s ps

-- `s.slice(n)`
abbrev pub slice_from : ℕ → Text → Text
slice_from zero s = s
slice_from (suc n) [] = []
slice_from (suc n) (c ∷ s) = slice_from n s

-- `s.split(c)[0]` for a separator of one unit.
unfoldable pub up_to : ℕ → Text → Text
up_to c [] = []
up_to c (d ∷ s) = if d == c then [] else d ∷ up_to c s

-- What `trim` removes: white space and line terminators.
unfoldable pub is_space : ℕ → Bool
is_space c =
    (leb 9 c && leb c 13)
    || c == 32
    || c == 0xa0
    || c == 0x1680
    || (leb 0x2000 c && leb c 0x200a)
    || c == 0x2028
    || c == 0x2029
    || c == 0x202f
    || c == 0x205f
    || c == 0x3000
    || c == 0xfeff

unfoldable pub trim_start : Text → Text
trim_start [] = []
trim_start (c ∷ s) = if is_space c then trim_start s else c ∷ s

add_end : ℕ → Text → Text
add_end c [] = if is_space c then [] else c ∷ []
add_end c (d ∷ s) = c ∷ d ∷ s

unfoldable pub trim_end : Text → Text
unfolding add_end
trim_end [] = []
trim_end (c ∷ s) = add_end c (trim_end s)

abbrev pub trim : Text → Text
trim s = trim_end (trim_start s)

-- `s.includes(part)`
unfoldable pub includes : Text → Text → Bool
unfolding starts_with
includes [] part = starts_with [] part
includes (c ∷ s) part = starts_with (c ∷ s) part || includes s part

-- `===` on texts.
unfoldable pub same_text : Text → Text → Bool
same_text [] [] = true
same_text (c ∷ s) (d ∷ t) = c == d && same_text s t
same_text _ _ = false
