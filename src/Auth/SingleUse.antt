-- ===== src/Auth/SingleUse.antt =====
-- A refresh token is good for one use.
use agentdesk_nestjs.Base.{
  ℕ, ◌≡◌, refl, sym, ap, ◌∙◌, Bool, true, false, not, List, [], ◌∷◌, Option, none, some, String,
  str_eq, eq_iff, find, select, All, ltb, if◌then◌else◌, Result, ok, raise, proceed, Exception, ◌⊎◌,
  ◌>>◌, >>=-eq-ok, ok-injective, state_eq, Bool-cases, inl, inr, arith, pure, throw,
}
use agentdesk_nestjs.Auth.{
  RefreshToken, TokenTable, Crypto, accepts, redeem, consume, invalid_token,
}

-- What the session service relies on: the table holds rows, a scan that succeeds returns them, no
-- scan changes them, a deletion that succeeds removes the rows with the id and no others, and
-- reading the clock changes no row.
pub record HoldsRows {S : Type 0} (table : TokenTable S) (crypto : Crypto S)
    (rows : S → List RefreshToken) : Type 0 where
  pub scan : (s : S) {found : List RefreshToken} → (table.find_many s).0 ≡ ok found → found ≡ rows s
  pub scanned : (s : S) → rows (table.find_many s).1 ≡ rows s
  pub deleted :
      (id : String) (s : S) {t : S}
      → table.delete id s ≡ (ok tt, t)
      → rows t ≡ select (λ r. not (str_eq r.id id)) (rows s)
  pub clock : (s : S) {n : ℕ} {t : S} → crypto.now s ≡ (ok n, t) → rows t ≡ rows s

-- Every row that a test accepts has the id.
abbrev pub OnlyRow : (RefreshToken → Bool) → String → List RefreshToken → Type 0
OnlyRow p id = All (λ (r : RefreshToken). p r ≡ true → r.id ≡ id)

pub find-OnlyRow :
    (p : RefreshToken → Bool) (id : String) (rs : List RefreshToken) (m : RefreshToken)
    → OnlyRow p id rs
    → find p rs ≡ some m
    → m.id ≡ id
find-OnlyRow p id [] m only e = cc e
find-OnlyRow p id (r ∷ rs) m only e = elim (Bool-cases (p r)) [
  | inl hit ↦ let same : some r ≡ some m = (rw hit at e) in cc (same, only.0 hit)
  | inr miss ↦ find-OnlyRow p id rs m only.1 (rw miss at e)
]

pub find-deleted :
    (p : RefreshToken → Bool) (id : String) (rs : List RefreshToken)
    → OnlyRow p id rs
    → find p (select (λ r. not (str_eq r.id id)) rs) ≡ none
find-deleted p id [] only = refl
find-deleted p id (r ∷ rs) only =
    ground (arith, find-deleted p id rs only.1, only.0, eq_iff r.id id)

module _ {S : Type 0} (table : TokenTable S) (crypto : Crypto S) (rows : S → List RefreshToken)
    (laws : HoldsRows table crypto rows) where
  -- A redeemed row is deleted.
  pub redeem-deletes :
      (o : Option RefreshToken) (s : S) {user_id : String} {t : S}
      → redeem table crypto o s ≡ (ok user_id, t)
      → (m : RefreshToken) × (o ≡ some m)
        × (user_id ≡ m.user_id)
        × (rows t ≡ select (λ r. not (str_eq r.id m.id)) (rows s))
  unfolding redeem
  redeem-deletes none s e = cc (ap (λ (x : Result String × S). x.0) e)
  redeem-deletes (some m) s {user_id} {t} e =
      let (now, u, told, rest) =
        >>=-eq-ok crypto.now
          (λ now.
            table.delete m.id
            >> (if ltb m.expires_at now then throw invalid_token else pure m.user_id))
          s e in
      let (_, v, gone, last) =
        >>=-eq-ok (table.delete m.id)
          (λ _. if ltb m.expires_at now then throw invalid_token else pure m.user_id) u rest in
      elim (Bool-cases (ltb m.expires_at now)) [
        | inl late ↦ cc (ap (λ (x : Result String × S). x.0) (rw late at last))
        | inr fresh ↦
            let done = rw fresh at last in
            (
              m,
              refl,
              sym (ok-injective done),
              rw (← state_eq done) (laws.deleted m.id u gone ∙ rw (laws.clock s told) refl),
            )
      ]

  -- A successful use of a token redeems the row that accepts it.
  pub consume-redeems :
      (raw : String) (s : S) {user_id : String} {t : S}
      → str_eq raw "" ≡ false
      → consume table crypto raw s ≡ (ok user_id, t)
      → (u : S) × (rows u ≡ rows s)
        × (redeem table crypto (find (accepts table crypto raw) (rows s)) u ≡ (ok user_id, t))
  unfolding consume
  consume-redeems raw s given e =
      let (found, u, scan, rest) =
        >>=-eq-ok table.find_many
          (λ tokens. redeem table crypto (find (accepts table crypto raw) tokens)) s
          (rw given at e) in
      let all : found ≡ rows s =
        laws.scan s (ap (λ (x : Result (List RefreshToken) × S). x.0) scan) in
      let same : rows u ≡ rows s =
        sym (ap (λ (x : Result (List RefreshToken) × S). rows x.1) scan) ∙ laws.scanned s in
      (
        u,
        same,
        ap (λ (l : List RefreshToken). redeem table crypto (find (accepts table crypto raw) l) u)
              (sym all)
            ∙ rest,
      )

  -- The use of a token is refused and changes no row: the token is invalid, unless the scan itself
  -- fails.
  abbrev pub Refuses : String → S → Type 0
  Refuses raw s =
      (e : Exception) × (t : S) × (consume table crypto raw s ≡ (raise e, t))
      × (rows t ≡ rows s)
      × ((e ≡ invalid_token) ⊎ ((table.find_many s).0 ≡ raise e))

  -- A token that no row accepts is refused.
  pub consume-Refuses :
      (raw : String) (s : S)
      → str_eq raw "" ≡ false
      → find (accepts table crypto raw) (rows s) ≡ none
      → Refuses raw s
  unfolding consume redeem
  consume-Refuses raw s given gone = rw given (scanned (table.find_many s).0 refl)
    where
      scanned :
          (r : Result (List RefreshToken))
          → (table.find_many s).0 ≡ r
          → (e : Exception) × (t : S) × (proceed r
                (table.find_many s).1
                (λ tokens. redeem table crypto (find (accepts table crypto raw) tokens))
              ≡ (raise e, t))
            × (rows t ≡ rows s)
            × ((e ≡ invalid_token) ⊎ ((table.find_many s).0 ≡ raise e))
      scanned (raise e) failed = (e, (table.find_many s).1, refl, laws.scanned s, inr failed)
      scanned (ok found) scan =
          let none_left : find (accepts table crypto raw) found ≡ none =
            rw (laws.scan s scan) gone in
          (
            invalid_token,
            (table.find_many s).1,
            ap (λ o. redeem table crypto o (table.find_many s).1) none_left,
            laws.scanned s,
            inl refl,
          )

  pub consume-given :
      (raw : String) (s : S) {user_id : String} {t : S}
      → consume table crypto raw s ≡ (ok user_id, t)
      → str_eq raw "" ≡ false
  unfolding consume
  consume-given raw s e = elim (Bool-cases (str_eq raw "")) [
    | inl empty ↦ cc (ap (λ (x : Result String × S). x.0) (rw empty at e))
    | inr given ↦ given
  ]

  -- If no row but that of one id accepts a token, then a successful use of the token gives the user
  -- of that row and removes the rows with its id and no others. A second use of the token in the
  -- state that it leaves is refused and changes no row: the token is invalid, unless the scan of the
  -- table itself fails. The table is one that holds rows.
  pub consume-single_use :
      (raw id : String) (s : S) {user_id : String} {t : S}
      → OnlyRow (accepts table crypto raw) id (rows s)
      → consume table crypto raw s ≡ (ok user_id, t)
      → ((m : RefreshToken) × (find (accepts table crypto raw) (rows s) ≡ some m)
          × (user_id ≡ m.user_id))
        × (rows t ≡ select (λ r. not (str_eq r.id id)) (rows s))
        × Refuses raw t
  consume-single_use raw id s {user_id} {t} only e =
      let given = consume-given raw s e in
      let (u, kept, redeems) = consume-redeems raw s given e in
      let (m, found, owner, left) =
        redeem-deletes (find (accepts table crypto raw) (rows s)) u redeems in
      let same = find-OnlyRow (accepts table crypto raw) id (rows s) m only found in
      let left' : rows t ≡ select (λ r. not (str_eq r.id id)) (rows s) = rw (← same, ← kept) left in
      let gone : find (accepts table crypto raw) (rows t) ≡ none =
        rw left' (find-deleted (accepts table crypto raw) id (rows s) only) in
      ((m, found, owner), left', consume-Refuses raw t given gone)
