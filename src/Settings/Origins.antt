-- ===== src/Settings/Origins.antt =====
-- The allowlist of origins that CORS_ORIGINS stands for.
use agentdesk_nestjs.Base.{
  ◌==◌, ◌≡◌, refl, ap, ◌∙◌, Bool, true, false, List, [], ◌∷◌, ◌++◌, map, select, Text, All, trim,
  trim_start, trim_end, if◌then◌else◌,
}
use agentdesk_nestjs.Settings.{split, filled, origins_of}

-- An origin that is not empty, has no comma and no white space at its ends.
abbrev pub IsOrigin : Text → Type 0
IsOrigin o = (filled o ≡ true) × (trim o ≡ o) × All (λ c. (c == b',') ≡ false) o

unfoldable pub join_commas : List Text → Text
join_commas [] = []
join_commas (o ∷ []) = o
join_commas (o ∷ p ∷ os) = o ++ b',' ∷ join_commas (p ∷ os)

-- A text with no comma is one part, and a comma after it starts the next.
split-last : (o : Text) → All (λ c. (c == b',') ≡ false) o → split b',' o ≡ o ∷ []
unfolding split
split-last [] plain = refl
split-last (c ∷ o) plain = rw (plain.0, split-last o plain.1) refl

split-part :
    (o s : Text) → All (λ c. (c == b',') ≡ false) o → split b',' (o ++ b',' ∷ s) ≡ o ∷ split b',' s
unfolding split
split-part [] s plain = refl
split-part (c ∷ o) s plain = rw (plain.0, split-part o s plain.1) refl

-- The origins that are kept of the parts.
abbrev kept : List Text → List Text
kept parts = select filled (map trim parts)

kept-IsOrigin : (o : Text) (parts : List Text) → IsOrigin o → kept (o ∷ parts) ≡ o ∷ kept parts
kept-IsOrigin o parts (there, trimmed, _) =
    ap (λ (t : Text). if filled t then t ∷ kept parts else kept parts) trimmed
    ∙ ap (λ (b : Bool). if b then o ∷ kept parts else kept parts) there

-- If every origin is not empty, has no comma and no white space at its ends, then the setting that
-- lists them with commas between stands for exactly these, in their order; an empty setting stands
-- for none.
pub origins_of-join_commas : (os : List Text) → All IsOrigin os → origins_of (join_commas os) ≡ os
unfolding origins_of join_commas split trim_start trim_end
origins_of-join_commas [] are = refl
origins_of-join_commas (o ∷ []) are = ap kept (split-last o are.0.2) ∙ kept-IsOrigin o [] are.0
origins_of-join_commas (o ∷ p ∷ os) are =
    ap kept (split-part o (join_commas (p ∷ os)) are.0.2)
    ∙ kept-IsOrigin o (split b',' (join_commas (p ∷ os))) are.0
    ∙ ap (λ (l : List Text). o ∷ l) (origins_of-join_commas (p ∷ os) are.1)
