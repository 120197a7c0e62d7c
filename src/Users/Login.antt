-- ===== src/Users/Login.antt =====
-- Who a login lets in.
use mathlib.Core.Path.{subst}
use agentdesk_nestjs.Base.{
  ℕ, ◌+◌, ◌≡◌, refl, sym, ap, ◌∙◌, inl, inr, Bool, true, false, List, Option, none, some, String,
  units, In, In-select, select, Action, Result, ok, >>=-eq-ok, ok-injective, state_eq,
}
use agentdesk_nestjs.Json.{str, Fields}
use agentdesk_nestjs.Tenancy.{OperationArgs}
use agentdesk_nestjs.Tenancy.Database.{QueryResult, Database, matches, has_value, and_both, textual}
use agentdesk_nestjs.Tickets.{no_args}
use agentdesk_nestjs.Auth.{
  TokenTable, Crypto, User, LoginResult, admit, login, issue_tokens, issue_for, hash_of, issue,
}
use agentdesk_nestjs.Users.{
  user_row, found_user, by, find_user, find_by_email, find_by_id, users_service,
}

-- The row is one of those that have the text in the column.
abbrev pub InColumn : String → String → Fields → List Fields → Type 0
InColumn column value f fs = In f fs × (has_value column (str (units value)) f ≡ true)

selected-InColumn :
    (column value : String) (f : Fields) (fs : List Fields)
    → In f (select (matches (by column value)) fs)
    → InColumn column value f fs
unfolding matches
selected-InColumn column value f fs inside =
    let (found, meets) = In-select (matches (by column value)) f fs inside in
    (found, (and_both (has_value column (str (units value)) f) true meets).0)

module _ {S : Type 0} (query : String → String → OperationArgs → Action S QueryResult)
    (rows : String → S → List Fields) (db : Database query rows) where
  -- A user that is found is a row with the text, and nothing is changed.
  pub find_user-found :
      (column value : String) (s : S) {user : User} {t : S}
      → find_user query column value s ≡ (ok (some user), t)
      → ((m : String) → rows m t ≡ rows m s)
        × ((f : Fields) × InColumn column value f (rows "User" s) × (user ≡ user_row f))
  unfolding find_user textual
  find_user-found column value s {user} {t} e =
      let args : OperationArgs = record no_args { where_clause = some (by column value) } in
      let (r, u, asked, last) = >>=-eq-ok (query "User" "findUnique" args) _ s e in
      let (same, outcome) = db.find_unique "User" args s refl asked in
      let answer : found_user r ≡ some user = ok-injective last in
      let end : u ≡ t = state_eq last in
      subst
        (λ (w : S).
          ((m : String) → rows m w ≡ rows m s)
          × ((f : Fields) × InColumn column value f (rows "User" s) × (user ≡ user_row f)))
        end
        (
          same,
          elim outcome [
            | inl (none_found, _) ↦
                let clash : none ≡ some user = sym (ap found_user none_found) ∙ answer in cc clash
            | inr (f, found, inside) ↦
                let here : some (user_row f) ≡ some user = sym (ap found_user found) ∙ answer in
                (f, selected-InColumn column value f (rows "User" s) inside, cc here)
          ],
        )

  module _ (table : TokenTable S) (crypto : Crypto S) (sign : User → Action S String)
      (ttl : ℕ) where
    -- Tokens that are made for the user of a row.
    abbrev pub Issued : Fields → LoginResult → S → Type 0
    Issued g r t =
        (u v : S) × (sign (user_row g) u ≡ (ok r.access_token, v))
        × ((now : ℕ) × (w : S) × (issue table crypto (user_row g).id (now + ttl) w
              ≡ (ok r.refresh_token, t)))

    abbrev pair_of : String → String → LoginResult
    pair_of access_token refresh_token = record {
      access_token = access_token;
      refresh_token = refresh_token;
    }

    issue_for-Issued :
        (g : Fields) (s : S) {r : LoginResult} {t : S}
        → issue_for table crypto (users_service query) sign ttl (some (user_row g)) s ≡ (ok r, t)
        → Issued g r t
    unfolding issue_for
    issue_for-Issued g s {r} {t} e =
        let (access_token, v, signed, rest) = >>=-eq-ok (sign (user_row g)) _ s e in
        let (now, w, read, rest') = >>=-eq-ok crypto.now _ v rest in
        let (refresh_token, x, issued, last) =
          >>=-eq-ok (issue table crypto (user_row g).id (now + ttl)) _ w rest' in
        let answer : pair_of access_token refresh_token ≡ r = ok-injective last in
        let end : x ≡ t = state_eq last in
        (
          s,
          v,
          signed ∙ ap (λ (r : LoginResult). (ok r.access_token, v)) answer,
          (
            now,
            w,
            issued
                ∙ ap (λ (r : LoginResult). (ok r.refresh_token, x)) answer
                ∙ ap (λ (y : S). (ok r.refresh_token, y)) end,
          ),
        )

    issue_tokens-Issued :
        (id : String) (s : S) {r : LoginResult} {t : S}
        → issue_tokens table crypto (users_service query) sign ttl id s ≡ (ok r, t)
        → (g : Fields) × InColumn "id" id g (rows "User" s) × Issued g r t
    unfolding issue_tokens find_by_id
    issue_tokens-Issued id s {r} {t} e =
        let (o, u, found, rest) = >>=-eq-ok (find_user query "id" id) _ s e in
        for_found o u found rest
      where
        for_found :
            (o : Option User) (u : S)
            → find_user query "id" id s ≡ (ok o, u)
            → issue_for table crypto (users_service query) sign ttl o u ≡ (ok r, t)
            → (g : Fields) × InColumn "id" id g (rows "User" s) × Issued g r t
        for_found none u found rest =
            unfold issue_for in cc (ap (λ (x : Result LoginResult × S). x.0) rest)
        for_found (some user) u found rest =
            let (_, (g, inside, same)) = find_user-found "id" id s found in
            (
              g,
              inside,
              issue_for-Issued g u (
                  subst
                    (λ (x : User).
                      issue_for table crypto (users_service query) sign ttl (some x) u ≡ (ok r, t))
                    same rest),
            )

    -- Who was let in: a row with the email and the password, and tokens for the row with its id.
    abbrev pub Admitted : String → String → LoginResult → S → S → Type 0
    Admitted email password r s t =
        (f g : Fields) × InColumn "email" email f (rows "User" s)
        × (crypto.compare password (user_row f).password_hash ≡ true)
        × InColumn "id" (user_row f).id g (rows "User" s)
        × Issued g r t

    -- If a login succeeds, over a client that behaves as documented, then before it the table of
    -- users had a row with the email whose hash the password matches, and a row with the id of that
    -- row for which the tokens were made: the access token was signed for it, and the refresh token
    -- was issued to it.
    pub login-Issued :
        (email password : String) (s : S) {r : LoginResult} {t : S}
        → login table crypto (users_service query) sign ttl email password s ≡ (ok r, t)
        → Admitted email password r s t
    unfolding login find_by_email
    login-Issued email password s {r} {t} e =
        let (o, u, found, rest) = >>=-eq-ok (find_user query "email" email) _ s e in
        for_found o u found rest
      where
        matched :
            (f : Fields) (u : S) (b : Bool)
            → crypto.compare password (user_row f).password_hash ≡ b
            → rows "User" u ≡ rows "User" s
            → InColumn "email" email f (rows "User" s)
            → admit table crypto (users_service query) sign ttl b (some (user_row f)) u ≡ (ok r, t)
            → Admitted email password r s t
        matched f u false compared same inside rest =
            unfold admit in cc (ap (λ (x : Result LoginResult × S). x.0) rest)
        matched f u true compared same inside rest =
            let (g, there, issued) =
              issue_tokens-Issued (user_row f).id u {r = r} {t = t} (unfold admit in rest) in
            (
              f,
              g,
              inside,
              compared,
              subst (λ (fs : List Fields). InColumn "id" (user_row f).id g fs) same there,
              issued,
            )

        for_found :
            (o : Option User) (u : S)
            → find_user query "email" email s ≡ (ok o, u)
            → admit table crypto
                (users_service query)
                sign
                ttl
                (crypto.compare password (hash_of o))
                o
                u
              ≡ (ok r, t)
            → Admitted email password r s t
        for_found none u found rest =
            unfold admit in cc (ap (λ (x : Result LoginResult × S). x.0) rest)
        for_found (some user) u found rest =
            let (same, (f, inside, who)) = find_user-found "email" email s found in
            matched f u _ refl (same "User") inside (
              subst
                (λ (x : User).
                  admit table crypto (users_service query) sign ttl
                    (crypto.compare password (hash_of (some x))) (some x) u
                  ≡ (ok r, t))
                who rest)
