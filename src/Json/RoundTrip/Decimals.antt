-- ===== src/Json/RoundTrip/Decimals.antt =====
-- A natural number is read back from its digits.
use agentdesk_nestjs.Base.{
  ℕ, zero, suc, ◌+◌, ◌/◌, ◌%◌, ◌<◌, ◌≡◌, refl, sym, ap, ◌∙◌, true, false, [], ◌∷◌, some, Text, All,
  decimal, decimal_from, ltb, ◌==◌, arith, same_text, Bool-cases, inl, inr,
}
use agentdesk_nestjs.Json.{num}
use agentdesk_nestjs.Json.Lex.{is_digit, is_delimiter, read_digits, read_natural, read_literal}

read_digits-decimal :
    (f n : ℕ) (acc : Text) → n < f → read_digits 0 (decimal_from f n acc) ≡ read_digits n acc
unfolding decimal_from read_digits
read_digits-decimal zero n acc h = absurd (omega arith)
read_digits-decimal (suc f) n acc h =
    ground (arith, read_digits-decimal f (n / 10) ((b'0' + n % 10) ∷ acc))

abbrev AllDigits : Text → Type 0
AllDigits = All (λ c. is_digit c ≡ true)

digit_of : (n : ℕ) → is_digit (b'0' + n % 10) ≡ true
digit_of n = ground arith

decimal_from-AllDigits : (f n : ℕ) (acc : Text) → AllDigits acc → AllDigits (decimal_from f n acc)
unfolding decimal_from
decimal_from-AllDigits zero n acc h = h
decimal_from-AllDigits (suc f) n acc h = elim (Bool-cases (ltb n 10)) [
  | inl small ↦ rw small (digit_of n, h)
  | inr large ↦ rw large (decimal_from-AllDigits f (n / 10) _ (digit_of n, h))
]

-- The first digit of a positive number is not zero.
abbrev Leads : Text → Type 0
Leads t = (c : ℕ) × (s : Text) × (t ≡ c ∷ s) × (is_digit c ≡ true) × ((c == b'0') ≡ false)

decimal_from-Leads : (f n : ℕ) (acc : Text) → n < f → 0 < n → Leads (decimal_from f n acc)
unfolding decimal_from
decimal_from-Leads zero n acc h positive = absurd (omega arith)
decimal_from-Leads (suc f) n acc h positive = elim (Bool-cases (ltb n 10)) [
  | inl small ↦ rw small (b'0' + n % 10, acc, refl, digit_of n, ground arith)
  | inr large ↦ rw large (decimal_from-Leads f (n / 10) _ (ground arith) (ground arith))
]

digit-not_delimiter : (c : ℕ) → is_digit c ≡ true → is_delimiter c ≡ false
digit-not_delimiter c h = ground arith

digits-delimiters : (s : Text) → AllDigits s → All (λ c. is_delimiter c ≡ false) s
digits-delimiters [] h = tt
digits-delimiters (c ∷ s) (d, ds) = (digit-not_delimiter c d, digits-delimiters s ds)

pub decimal-bare : (n : ℕ) → All (λ c. is_delimiter c ≡ false) (decimal n)
unfolding decimal
decimal-bare n = digits-delimiters _ (decimal_from-AllDigits (suc n) n [] tt)

read_natural-lead :
    (c : ℕ) (s : Text) → (c == b'0') ≡ false → read_natural (c ∷ s) ≡ read_digits 0 (c ∷ s)
unfolding read_natural
read_natural-lead c [] h = refl
read_natural-lead c (d ∷ s) h = rw h refl

read_literal-lead :
    (c : ℕ) (s : Text) (n : ℕ)
    → is_digit c ≡ true
    → read_natural (c ∷ s) ≡ some n
    → read_literal (c ∷ s) ≡ some (num n)
unfolding read_literal same_text
read_literal-lead c s n d h =
    let not_n : (c == b'n') ≡ false = ground arith in
    let not_t : (c == b't') ≡ false = ground arith in
    let not_f : (c == b'f') ≡ false = ground arith in rw (not_n, not_t, not_f, h) refl

-- The digits of a number stand for it.
pub read_literal-decimal : (n : ℕ) → read_literal (decimal n) ≡ some (num n)
unfolding decimal
read_literal-decimal zero =
    unfold read_literal in
    unfold read_natural in unfold read_digits in unfold decimal_from in unfold same_text in refl
read_literal-decimal (suc m) =
    let (c, s, shape, d, lead) =
      decimal_from-Leads (suc (suc m)) (suc m) [] (omega arith) (omega arith) in
    let whole : read_digits 0 (decimal_from (suc (suc m)) (suc m) []) ≡ some (suc m) =
      read_digits-decimal (suc (suc m)) (suc m) [] (omega arith) ∙ (unfold read_digits in refl) in
    rw shape (
      read_literal-lead c s (suc m) d
        (read_natural-lead c s lead ∙ sym (ap (read_digits 0) shape) ∙ whole))
