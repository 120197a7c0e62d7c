-- ===== src/Auth/Rotation.antt =====
-- A refresh replaces the refresh token.
use mathlib.Core.Path.{subst}
use agentdesk_nestjs.Base.{
  ℕ, ◌+◌, ◌≡◌, refl, ap, ◌∙◌, Bool, true, false, not, ◌&&◌, List, [], ◌∷◌, ◌++◌, Option, none, some,
  String, str_eq, find, select, Action, Result, ok, >>=-eq-ok, ok-injective, state_eq, Bool-cases,
  inl, inr,
}
use agentdesk_nestjs.Auth.{
  RefreshToken, TokenTable, Crypto, Users, User, LoginResult, issue, issue_for, issue_tokens,
  refresh, consume, accepts,
}
use agentdesk_nestjs.Auth.SingleUse.{
  HoldsRows, OnlyRow, find-deleted, Refuses, consume-Refuses, consume-given, consume-single_use,
}

-- What issuing a token relies on: a creation adds its row, and the other services change no row. A
-- hash accepts the text that it was made of; what else it accepts is left open (bcrypt reads the
-- first 72 bytes of a text).
pub record IssuesRows {S : Type 0} (table : TokenTable S) (crypto : Crypto S) (users : Users S)
    (sign : User → Action S String) (rows : S → List RefreshToken) : Type 0 where
  pub found :
      (id : String) (s : S) {o : Option User} {t : S}
      → users.find_by_id id s ≡ (ok o, t)
      → rows t ≡ rows s
  pub signed :
      (user : User) (s : S) {v : String} {t : S} → sign user s ≡ (ok v, t) → rows t ≡ rows s
  pub drawn : (s : S) {raw : String} {t : S} → crypto.random_token s ≡ (ok raw, t) → rows t ≡ rows s
  pub hashed :
      (raw : String) (s : S) {h : String} {t : S} → crypto.hash raw s ≡ (ok h, t) → rows t ≡ rows s
  pub matched :
      (raw : String) (s : S) {h : String} {t : S}
      → crypto.hash raw s ≡ (ok h, t)
      → crypto.compare raw h ≡ true
  pub created :
      (user_id token_hash : String) (expires_at : ℕ) (s : S) {t : S}
      → table.create user_id token_hash expires_at s ≡ (ok tt, t)
      → (id : String) × (rows t
          ≡ rows s
            ++ record {
              id = id;
              user_id = user_id;
              token_hash = token_hash;
              expires_at = expires_at;
            }
              ∷ [])

find-append_none :
    (p : RefreshToken → Bool) (rs : List RefreshToken) (r : RefreshToken)
    → find p rs ≡ none
    → p r ≡ false
    → find p (rs ++ r ∷ []) ≡ none
find-append_none p [] r none_found miss = rw miss refl
find-append_none p (q ∷ rs) r none_found miss = elim (Bool-cases (p q)) [
  | inl hit ↦ let found : some q ≡ none = rw hit at none_found in cc found
  | inr other ↦ rw other (find-append_none p rs r (rw other at none_found) miss)
]

module _ {S : Type 0} (table : TokenTable S) (crypto : Crypto S) (users : Users S)
    (sign : User → Action S String) (rows : S → List RefreshToken)
    (holds : HoldsRows table crypto rows) (issues : IssuesRows table crypto users sign rows) where
  -- The text is a hash of the token.
  abbrev pub IsHashOf : String → String → Type 0
  IsHashOf raw h = (u v : S) × (crypto.hash raw u ≡ (ok h, v))

  -- The row of a token of the user, with a hash of the token, which accepts it.
  abbrev pub IsRowFor : String → String → RefreshToken → Type 0
  IsRowFor user_id raw r =
      (r.user_id ≡ user_id) × IsHashOf raw r.token_hash × (crypto.compare raw r.token_hash ≡ true)

  -- The rows after a token was issued.
  abbrev pub Issued : String → String → S → S → Type 0
  Issued user_id raw s t = (r : RefreshToken) × IsRowFor user_id raw r × (rows t ≡ rows s ++ r ∷ [])

  Issued-along :
      (user_id : String) (s : S) {a b : String} {x y : S}
      → a ≡ b
      → x ≡ y
      → Issued user_id a s x
      → Issued user_id b s y
  Issued-along user_id s p q =
      subst (λ (z : String × S). Issued user_id z.0 s z.1) (λ i. (p i, q i))

  issue-Issued :
      (user_id : String) (expires_at : ℕ) (s : S) {raw : String} {t : S}
      → issue table crypto user_id expires_at s ≡ (ok raw, t)
      → Issued user_id raw s t
  unfolding issue
  issue-Issued user_id expires_at s {raw} {t} e =
      let (new, u, drew, rest) = >>=-eq-ok crypto.random_token _ s e in
      let (h, v, hash, rest') = >>=-eq-ok (crypto.hash new) _ u rest in
      let (_, w, create, last) = >>=-eq-ok (table.create user_id h expires_at) _ v rest' in
      let (id, added) = issues.created user_id h expires_at v create in
      let same : rows v ≡ rows s = issues.hashed new u hash ∙ issues.drawn s drew in
      let row : RefreshToken = record {
        id = id;
        user_id = user_id;
        token_hash = h;
        expires_at = expires_at;
      } in
      let issued : Issued user_id new s w = (
        row,
        (refl, (u, v, hash), issues.matched new u hash),
        added ∙ ap (λ rs. rs ++ row ∷ []) same,
      ) in
      Issued-along user_id s (ok-injective last) (state_eq last) issued

  issue_tokens-Issued :
      (ttl : ℕ) (user_id : String) (s : S) {tokens : LoginResult} {t : S}
      → issue_tokens table crypto users sign ttl user_id s ≡ (ok tokens, t)
      → (user : User) × ((u : S) × (users.find_by_id user_id s ≡ (ok (some user), u)))
        × Issued user.id tokens.refresh_token s t
  unfolding issue_tokens issue_for
  issue_tokens-Issued ttl user_id s {tokens} {t} e =
      let (o, u, find_user, rest) = >>=-eq-ok (users.find_by_id user_id) _ s e in
      go o u find_user rest
    where
      go :
          (o : Option User) (u : S)
          → users.find_by_id user_id s ≡ (ok o, u)
          → issue_for table crypto users sign ttl o u ≡ (ok tokens, t)
          → (user : User) × ((u : S) × (users.find_by_id user_id s ≡ (ok (some user), u)))
            × Issued user.id tokens.refresh_token s t
      go none u find_user rest = cc (ap (λ (x : Result LoginResult × S). x.0) rest)
      go (some user) u find_user rest =
          let (access, v, told, rest') = >>=-eq-ok (sign user) _ u rest in
          let (now, w, clock, rest'') = >>=-eq-ok crypto.now _ v rest' in
          let (raw, z, issue_it, last) =
            >>=-eq-ok (issue table crypto user.id (now + ttl)) _ w rest'' in
          let (r, for_user, added) = issue-Issued user.id (now + ttl) w issue_it in
          let done : record { access_token = access; refresh_token = raw } ≡ tokens =
            ok-injective last in
          let same : rows w ≡ rows s =
            holds.clock v clock ∙ issues.signed user u told ∙ issues.found user_id s find_user in
          (
            user,
            (u, find_user),
            Issued-along user.id s (ap (λ (x : LoginResult). x.refresh_token) done) (state_eq last)
                (r, for_user, added ∙ ap (λ rs. rs ++ r ∷ []) same),
          )

  -- If no row but that of one id accepts the old token, and no hash of the new token accepts it, then
  -- a refresh that succeeds replaces the token: the rows with that id are deleted and no others, and
  -- a row is added for the user that the old row names, with a hash of the new token, which accepts
  -- it. From then on the old token is refused: it is invalid, unless the scan of the table itself
  -- fails. The table holds rows, issuing adds one, and a hash accepts its text.
  pub refresh-rotates :
      (ttl : ℕ) (raw id : String) (s : S) {tokens : LoginResult} {t : S}
      → OnlyRow (accepts table crypto raw) id (rows s)
      → ((h : String) → IsHashOf tokens.refresh_token h → crypto.compare raw h ≡ false)
      → refresh table crypto users sign ttl raw s ≡ (ok tokens, t)
      → ((m : RefreshToken) × (user : User) × (r : RefreshToken) × (find
              (accepts table crypto raw)
              (rows s)
            ≡ some m)
          × ((u v : S) × (users.find_by_id m.user_id u ≡ (ok (some user), v)))
          × IsRowFor user.id tokens.refresh_token r
          × (rows t ≡ select (λ r. not (str_eq r.id id)) (rows s) ++ r ∷ []))
        × Refuses table crypto rows holds raw t
  unfolding refresh
  refresh-rotates ttl raw id s {tokens} {t} only new e =
      let (owner, u, used, rest) = >>=-eq-ok (consume table crypto raw) _ s e in
      let ((m, found, same), left, _) =
        consume-single_use table crypto rows holds raw id s only used in
      let (user, (v, find_user), (r, for_user, added)) = issue_tokens-Issued ttl owner u rest in
      let kept : rows t ≡ select (λ r. not (str_eq r.id id)) (rows s) ++ r ∷ [] =
        added ∙ ap (λ rs. rs ++ r ∷ []) left in
      let gone : find (accepts table crypto raw) (rows t) ≡ none = rw kept (
        find-append_none (accepts table crypto raw) (select (λ r. not (str_eq r.id id)) (rows s)) r
          (find-deleted (accepts table crypto raw) id (rows s) only)
          (rw (new r.token_hash for_user.1) (and_false _))) in
      (
        (
          m,
          user,
          r,
          found,
          (u, v, subst (λ i. users.find_by_id i u ≡ (ok (some user), v)) same find_user),
          for_user,
          kept,
        ),
        consume-Refuses table crypto rows holds raw t
            (consume-given table crypto rows holds raw s used) gone,
      )
    where
      and_false : (b : Bool) → (b && false) ≡ false
      and_false true = refl
      and_false false = refl
