-- ===== src/Base/Decode.antt =====
-- A text of UTF-16 units as a string of characters, and that `units` is read back.
use Prim.Native.Nat.{ℕ, Ordering, compare, ◌+◌, ◌-◌, ◌*◌, ◌<◌}
use Prim.Native.Char.{Char, char, code, IsLt, IsScalar}
use Prim.Native.String.{String}
use mathlib.Core.Path.{◌≡◌, refl, ap, ◌∙◌}
use mathlib.Core.Logic.{◌⊎◌, inl, inr}
use mathlib.Core.Bool.{Bool, ◌&&◌}
use mathlib.Core.Option.{Option, none, some}
use mathlib.Core.List.{[], ◌∷◌, ◌++◌}
use native.Mathlib.Omega.{arith}
use agentdesk_nestjs.Base.Tests.{ltb, leb, if◌then◌else◌, Bool-cases}
use agentdesk_nestjs.Base.Units.{Text, units, encode}

-- `IsScalar n` is these clauses on three comparisons.
abbrev Both : Ordering → Ordering → Type 0
Both Ordering.lt o = IsLt o
Both Ordering.eq _ = ⊥
Both Ordering.gt _ = ⊥

abbrev Scalar : Ordering → Ordering → Ordering → Type 0
Scalar Ordering.lt _ _ = Unit
Scalar Ordering.eq o p = Both o p
Scalar Ordering.gt o p = Both o p

abbrev below_both : (o p : Ordering) → Option (Both o p)
below_both Ordering.lt Ordering.lt = some tt
below_both Ordering.lt Ordering.eq = none
below_both Ordering.lt Ordering.gt = none
below_both Ordering.eq _ = none
below_both Ordering.gt _ = none

abbrev is_scalar : (o p q : Ordering) → Option (Scalar o p q)
is_scalar Ordering.lt _ _ = some tt
is_scalar Ordering.eq p q = below_both p q
is_scalar Ordering.gt p q = below_both p q

abbrev replacement : Char
replacement = char 0xfffd tt

abbrev char_or : (n : ℕ) → Option (IsScalar n) → Char
char_or n none = replacement
char_or n (some p) = char n p

-- The character of a number; U+FFFD stands for a number that is none.
unfoldable pub char_of : ℕ → Char
char_of n = char_or n (is_scalar (compare n 55296) (compare 57343 n) (compare n 1114112))

below_both-some : (o p : Ordering) (w : Both o p) → below_both o p ≡ some w
below_both-some Ordering.lt Ordering.lt w = refl
below_both-some Ordering.lt Ordering.eq w = elim w [ ]
below_both-some Ordering.lt Ordering.gt w = elim w [ ]
below_both-some Ordering.eq _ w = elim w [ ]
below_both-some Ordering.gt _ w = elim w [ ]

is_scalar-some : (o p q : Ordering) (w : Scalar o p q) → is_scalar o p q ≡ some w
is_scalar-some Ordering.lt p q w = refl
is_scalar-some Ordering.eq p q w = below_both-some p q w
is_scalar-some Ordering.gt p q w = below_both-some p q w

char_of-code : (c : Char) → char_of (code c) ≡ c
unfolding char_of
char_of-code (char n w) =
    ap (char_or n) (is_scalar-some (compare n 55296) (compare 57343 n) (compare n 1114112) w)

-- The two halves of a pair.
abbrev is_high : ℕ → Bool
is_high c = leb 0xd800 c && ltb c 0xdc00

abbrev is_low : ℕ → Bool
is_low c = leb 0xdc00 c && ltb c 0xe000

-- The first argument is the first half of a pair that was read. A half that stands alone becomes
-- U+FFFD.
unfoldable pub decode_from : Option ℕ → Text → String
decode_from none [] = String.[]
decode_from none (c ∷ s) =
    let pair = decode_from (some c) s in
    let alone = decode_from none s in if is_high c then pair else String.◌∷◌ (char_of c) alone
decode_from (some h) [] = String.◌∷◌ replacement String.[]
decode_from (some h) (c ∷ s) =
    let pair = decode_from (some c) s in
    let alone = decode_from none s in
    if is_low c
    then String.◌∷◌ (char_of (0x10000 + (h - 0xd800) * 0x400 + (c - 0xdc00))) alone
    else String.◌∷◌ replacement (if is_high c then pair else String.◌∷◌ (char_of c) alone)

unfoldable pub decode : Text → String
decode s = decode_from none s

-- A character is below the halves or above them.
Scalar-bounds :
    (n : ℕ)
    → Scalar (compare n 55296) (compare 57343 n) (compare n 1114112)
    → (n < 0xd800) ⊎ ((0xdfff < n) × (n < 0x110000))
Scalar-bounds n w = go (compare n 55296) (compare 57343 n) (compare n 1114112) refl refl refl w
  where
    above :
        (p q : Ordering)
        → compare 57343 n ≡ p
        → compare n 1114112 ≡ q
        → Both p q
        → (n < 0xd800) ⊎ ((0xdfff < n) × (n < 0x110000))
    above Ordering.lt Ordering.lt h k w = inr (ground arith, ground arith)
    above Ordering.lt Ordering.eq h k w = elim w [ ]
    above Ordering.lt Ordering.gt h k w = elim w [ ]
    above Ordering.eq q h k w = elim w [ ]
    above Ordering.gt q h k w = elim w [ ]

    go :
        (o p q : Ordering)
        → compare n 55296 ≡ o
        → compare 57343 n ≡ p
        → compare n 1114112 ≡ q
        → Scalar o p q
        → (n < 0xd800) ⊎ ((0xdfff < n) × (n < 0x110000))
    go Ordering.lt p q e h k w = inl (ground arith)
    go Ordering.eq p q e h k w = above p q h k w
    go Ordering.gt p q e h k w = above p q h k w

decode_from-pair :
    (n : ℕ) (s : Text)
    → 0xffff < n
    → n < 0x110000
    → decode_from none (encode n ++ s) ≡ String.◌∷◌ (char_of n) (decode_from none s)
unfolding decode_from
decode_from-pair n s big small = ground arith

decode_from-single :
    (n : ℕ) (s : Text)
    → (n < 0xd800) ⊎ ((0xdfff < n) × (n < 0x10000))
    → decode_from none (encode n ++ s) ≡ String.◌∷◌ (char_of n) (decode_from none s)
unfolding decode_from
decode_from-single n s small = ground arith

decode_from-code :
    (c : Char) (s : Text)
    → decode_from none (encode (code c) ++ s) ≡ String.◌∷◌ c (decode_from none s)
decode_from-code (char n w) s =
    read ∙ ap (λ d. String.◌∷◌ d (decode_from none s)) (char_of-code (char n w))
  where
    read : decode_from none (encode n ++ s) ≡ String.◌∷◌ (char_of n) (decode_from none s)
    read = elim (Scalar-bounds n w) [
      | inl small ↦ decode_from-single n s (inl small)
      | inr (above, small) ↦ elim (Bool-cases (ltb n 0x10000)) [
        | inl one ↦ decode_from-single n s (inr (above, ground arith))
        | inr two ↦ decode_from-pair n s (ground arith) small
      ]
    ]

-- A string is read back from its units.
pub decode-units : (s : String) → decode (units s) ≡ s
unfolding decode
decode-units String.[] = unfold decode_from in refl
decode-units (String.◌∷◌ c s) =
    decode_from-code c (units s) ∙ ap (λ t. String.◌∷◌ c t) (decode-units s)
