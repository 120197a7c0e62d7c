-- ===== src/Base/Lists.antt =====
-- Lists measured by native numbers, tests on their items, and predicates by recursion.
use Prim.Native.Nat.{ℕ, suc, ◌+◌}
use mathlib.Core.Path.{◌≡◌, refl, sym, ap, ◌∙◌}
use mathlib.Core.Logic.{◌⊎◌, inl, inr}
use mathlib.Core.Bool.{Bool, true, false, ◌||◌}
use mathlib.Core.Option.{Option, none, some}
use mathlib.Core.List.{List, [], ◌∷◌, ◌++◌, append_assoc}
use native.Mathlib.Omega.{arith}
use agentdesk_nestjs.Base.Tests.{if◌then◌else◌, Bool-cases}

module _ {ℓ} {A : Type ℓ} where
  abbrev pub length : List A → ℕ
  length [] = 0
  length (x ∷ xs) = suc (length xs)

  -- `filter` of the source's arrays: a Boolean test.
  abbrev pub select : (A → Bool) → List A → List A
  select p [] = []
  select p (x ∷ xs) = if p x then x ∷ select p xs else select p xs

  -- `some`
  abbrev pub any : (A → Bool) → List A → Bool
  any p [] = false
  any p (x ∷ xs) = p x || any p xs

  -- `find`
  abbrev pub find : (A → Bool) → List A → Option A
  find p [] = none
  find p (x ∷ xs) = if p x then some x else find p xs

  -- The last item.
  abbrev pub last? : List A → Option A
  last? [] = none
  last? (x ∷ []) = some x
  last? (x ∷ y ∷ xs) = last? (y ∷ xs)

  pub length-append : (xs ys : List A) → length (xs ++ ys) ≡ length xs + length ys
  length-append [] ys = omega arith
  length-append (x ∷ xs) ys = omega (arith, length-append xs ys)

  pub select-append :
      (p : A → Bool) (xs ys : List A) → select p (xs ++ ys) ≡ select p xs ++ select p ys
  select-append p [] ys = refl
  select-append p (x ∷ xs) ys = ground (arith, select-append p xs ys)

  pub any-append : (p : A → Bool) (xs ys : List A) → any p (xs ++ ys) ≡ (any p xs || any p ys)
  any-append p [] ys = refl
  any-append p (x ∷ xs) ys = ground (arith, any-append p xs ys)

module _ {ℓ κ} {A : Type ℓ} {B : Type κ} where
  -- `flatMap`
  abbrev pub concat_map : (A → List B) → List A → List B
  concat_map f [] = []
  concat_map f (x ∷ xs) = f x ++ concat_map f xs

  pub concat_map-append :
      (f : A → List B) (xs ys : List A)
      → concat_map f (xs ++ ys) ≡ concat_map f xs ++ concat_map f ys
  concat_map-append f [] ys = refl
  concat_map-append f (x ∷ xs) ys = simp (concat_map-append f xs ys, append_assoc)

module _ {ℓ κ} {A : Type ℓ} (P : A → Type κ) where
  abbrev pub All : List A → Type κ
  All [] = Unit
  All (x ∷ xs) = P x × All xs

  pub All-append : (xs ys : List A) → All xs → All ys → All (xs ++ ys)
  All-append [] ys hx hy = hy
  All-append (x ∷ xs) ys hx hy = (hx.0, All-append xs ys hx.1 hy)

-- The item stands in the list.
module _ {A : Type 0} where
  abbrev pub In : A → List A → Type 0
  In a [] = ⊥
  In a (x ∷ xs) = (a ≡ x) ⊎ In a xs

  pub In-select : (p : A → Bool) (a : A) (xs : List A) → In a (select p xs) → In a xs × (p a ≡ true)
  In-select p a [] h = elim h [ ]
  In-select p a (x ∷ xs) h = elim (Bool-cases (p x)) [
    | inl kept ↦ taken kept (In-select p a xs) (rw kept at h)
    | inr dropped ↦ let (found, holds) = In-select p a xs (rw dropped at h) in (inr found, holds)
  ]
    where
      taken :
          p x ≡ true
          → (In a (select p xs) → In a xs × (p a ≡ true))
          → (a ≡ x) ⊎ In a (select p xs)
          → ((a ≡ x) ⊎ In a xs) × (p a ≡ true)
      taken kept rest (inl same) = (inl same, rw same kept)
      taken kept rest (inr later) = let (found, holds) = rest later in (inr found, holds)

  pub select-In : (p : A → Bool) (a : A) (xs : List A) → In a xs → p a ≡ true → In a (select p xs)
  select-In p a [] h holds = elim h [ ]
  select-In p a (x ∷ xs) (inl same) holds = rw (ap p (sym same) ∙ holds) (inl same)
  select-In p a (x ∷ xs) (inr later) holds = elim (Bool-cases (p x)) [
    | inl kept ↦ rw kept (inr (select-In p a xs later holds))
    | inr dropped ↦ rw dropped (select-In p a xs later holds)
  ]
