-- ===== src/Json/RoundTrip/Texts.antt =====
-- A quoted text is read back unit by unit.
use agentdesk_nestjs.Base.{
  ℕ, ◌/◌, ◌%◌, ◌<◌, ◌≡◌, refl, sym, ap, ◌∙◌, true, false, [], ◌∷◌, ◌++◌, Option, none, some, Text,
  units, ltb, ◌==◌, arith, Bool-cases, inl, inr, append_assoc, append-nil,
}
use mathlib.Core.Path.{subst}
use agentdesk_nestjs.Json.{hex_digit, escape_unit, escape, quote}
use agentdesk_nestjs.Json.Lex.{
  Tokens, text, State, between, quoted, plain, escaped, hex, begin, hex_value, add_digit, step,
  follow, lex, put_before,
}

pub put_before-nil : (o : Option Tokens) → put_before [] o ≡ o
put_before-nil none = refl
put_before-nil (some ts) = refl

-- A unit that makes no token.
pub lex-quiet :
    (state next : State) (c : ℕ) (s : Text)
    → step state c ≡ some ([], next)
    → lex state (c ∷ s) ≡ lex next s
unfolding lex
lex-quiet state next c s quiet =
    ap (λ o. follow o (λ next. lex next s)) quiet ∙ put_before-nil (lex next s)

hex_value-digit : (d : ℕ) → d < 16 → hex_value (hex_digit d) ≡ some d
hex_value-digit d h = ground arith

-- The text so far is longer by the unit.
abbrev Adds : Text → ℕ → Type 0
Adds s c =
    (acc rest : Text) → lex (quoted acc plain) (s ++ rest) ≡ lex (quoted (acc ++ c ∷ []) plain) rest

-- Two units: a backslash, and the letter of the unit.
short_Adds :
    (e c : ℕ)
    → ((acc : Text) → step (quoted acc escaped) e ≡ some ([], quoted (acc ++ c ∷ []) plain))
    → Adds (0x5c ∷ e ∷ []) c
unfolding step
short_Adds e c same acc rest =
    lex-quiet (quoted acc plain) (quoted acc escaped) 0x5c (e ∷ rest) refl
    ∙ lex-quiet (quoted acc escaped) (quoted (acc ++ c ∷ []) plain) e rest (same acc)

hex_Adds : (c : ℕ) → c < 32 → Adds (units "\\u00" ++ hex_digit (c / 16) ∷ hex_digit (c % 16) ∷ []) c
unfolding step
hex_Adds c small acc rest =
    lex-quiet (quoted acc plain) (quoted acc escaped) 0x5c _ refl
    ∙ lex-quiet (quoted acc escaped) (quoted acc (hex 3 0)) b'u' _ refl
    ∙ lex-quiet (quoted acc (hex 3 0)) (quoted acc (hex 2 0)) b'0' _ refl
    ∙ lex-quiet (quoted acc (hex 2 0)) (quoted acc (hex 1 0)) b'0' _ refl
    ∙ lex-quiet (quoted acc (hex 1 0)) (quoted acc (hex 0 (c / 16))) (hex_digit (c / 16)) _ (
        ap (add_digit acc 1 0) (hex_value-digit (c / 16) (omega arith))
        ∙ ap (λ n. some ([], quoted acc (hex 0 n))) (omega arith))
    ∙ lex-quiet (quoted acc (hex 0 (c / 16))) (quoted (acc ++ c ∷ []) plain) (hex_digit (c % 16))
        rest
        (ap (add_digit acc 0 (c / 16)) (hex_value-digit (c % 16) (omega arith))
          ∙ ap (λ n. some ([], quoted (acc ++ n ∷ []) plain)) (omega arith))

plain_Adds :
    (c : ℕ) → (c == b'"') ≡ false → (c == 0x5c) ≡ false → ltb c 32 ≡ false → Adds (c ∷ []) c
unfolding step
plain_Adds c not_quote not_backslash large acc rest =
    lex-quiet (quoted acc plain) (quoted (acc ++ c ∷ []) plain) c rest
      (rw (not_quote, not_backslash, large) refl)

-- A unit that is equal to a numeral.
at_numeral : (P : ℕ → Type 0) (c n : ℕ) → (c == n) ≡ true → P n → P c
at_numeral P c n same h = let e : n ≡ c = ground arith in subst P e h

escape_unit-Adds : (c : ℕ) → Adds (escape_unit c) c
unfolding step
escape_unit-Adds c = split 34 (short_Adds 34 34 (λ acc. refl)) λ n34.
    split 0x5c (short_Adds 0x5c 0x5c (λ acc. refl)) λ n5c.
      split 8 (short_Adds b'b' 8 (λ acc. refl)) λ n8.
        split 9 (short_Adds b't' 9 (λ acc. refl)) λ n9.
          split 10 (short_Adds b'n' 10 (λ acc. refl)) λ n10.
            split 12 (short_Adds b'f' 12 (λ acc. refl)) λ n12.
              split 13 (short_Adds b'r' 13 (λ acc. refl)) λ n13. elim (Bool-cases (ltb c 32)) [
                | inl small ↦
                    rw (n34, n5c, n8, n9, n10, n12, n13, small) (hex_Adds c (ground arith))
                | inr large ↦
                    rw (n34, n5c, n8, n9, n10, n12, n13, large) (plain_Adds c n34 n5c large)
              ]
  where
    Goal : ℕ → Type 0
    Goal c = Adds (escape_unit c) c

    split : (n : ℕ) → Goal n → ((c == n) ≡ false → Goal c) → Goal c
    split n here other = elim (Bool-cases (c == n)) [
      | inl same ↦ at_numeral Goal c n same here
      | inr apart ↦ other apart
    ]

escape-quoted :
    (s acc rest : Text)
    → lex (quoted acc plain) (escape s ++ b'"' ∷ rest)
      ≡ put_before (text (acc ++ s) ∷ []) (lex between rest)
unfolding escape lex step
escape-quoted [] acc rest =
    ap (λ t. put_before (text t ∷ []) (lex between rest)) (sym (append-nil acc))
escape-quoted (c ∷ s) acc rest =
    ap (lex (quoted acc plain)) (append_assoc (escape_unit c) (escape s) (b'"' ∷ rest))
    ∙ escape_unit-Adds c acc (escape s ++ b'"' ∷ rest)
    ∙ escape-quoted s (acc ++ c ∷ []) rest
    ∙ ap (λ t. put_before (text t ∷ []) (lex between rest)) (append_assoc acc (c ∷ []) s)

-- A quoted text is one token.
pub lex-quote :
    (s rest : Text) → lex between (quote s ++ rest) ≡ put_before (text s ∷ []) (lex between rest)
unfolding quote step begin
lex-quote s rest =
    lex-quiet between (quoted [] plain) b'"' ((escape s ++ b'"' ∷ []) ++ rest) refl
    ∙ ap (lex (quoted [] plain)) (append_assoc (escape s) (b'"' ∷ []) rest)
    ∙ escape-quoted s [] rest
