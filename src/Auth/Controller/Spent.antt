-- ===== src/Auth/Controller/Spent.antt =====
-- What the refresh endpoint leaves in the browser.
use agentdesk_nestjs.Base.{
  ◌≡◌, refl, sym, ap, ◌∙◌, Bool, false, List, [], ◌∷◌, ◌++◌, Option, some, String, Action, Result,
  ok, raise, Exception, ◌⊎◌, >>=-eq-ok, state_eq, ◌>>◌, pure,
}
use mathlib.Core.Path.{subst}
use agentdesk_nestjs.Auth as Auth
use agentdesk_nestjs.Auth.{
  TokenTable, Crypto, Users, User, LoginResult, RefreshToken, accepts, consume, invalid_token,
}
use agentdesk_nestjs.Auth.SingleUse.{HoldsRows, OnlyRow}
use agentdesk_nestjs.Auth.Rotation.{IssuesRows, IsHashOf, refresh-rotates}
use agentdesk_nestjs.Auth.Context.{Cookie, text}
use agentdesk_nestjs.Auth.Controller.{
  CookieCommand, set_cookie, CookieSettings, Exchange, on_store, tell, access_cookie,
  refresh_cookie, access_cookie_options, get_refresh_token, text_or_empty, refresh,
}
use agentdesk_nestjs.Auth.Controller.Sessions.{Browses, obey_all, fresh, access_ne}

module _ {S J : Type 0} (table : TokenTable S) (crypto : Crypto S) (users : Users S)
    (sign : User → Action S String) (settings : CookieSettings)
    (cookies : J → String → Option Cookie) (obey : CookieCommand → J → J) (https : Bool)
    (browser : Browses https cookies obey) (rows : S → List RefreshToken)
    (holds : HoldsRows table crypto rows) (issues : IssuesRows table crypto users sign rows) where
  -- A refresh answers with the access token alone.
  refresh-reply :
      (sent : Option (String → Option Cookie)) (s : S) {access : String} {x : Exchange S}
      → refresh table crypto users sign settings sent (fresh s) ≡ (ok access, x)
      → (tokens : LoginResult) × (Auth.refresh table crypto users sign settings.refresh_ttl_ms
            (get_refresh_token sent)
            s
          ≡ (ok tokens, x.store))
        × (x.reply
            ≡ set_cookie access_cookie tokens.access_token (access_cookie_options settings) ∷ [])
  unfolding refresh on_store
  refresh-reply sent s {access} {x} e =
      let (tokens, u, told, rest) =
        >>=-eq-ok
          (on_store
            (Auth.refresh table crypto users sign settings.refresh_ttl_ms (get_refresh_token sent)))
          (λ tokens.
            tell (set_cookie access_cookie tokens.access_token (access_cookie_options settings))
            >> pure tokens.access_token)
          (fresh s) e in
      let session =
        Auth.refresh table crypto users sign settings.refresh_ttl_ms (get_refresh_token sent) in
      let command = set_cookie access_cookie tokens.access_token (access_cookie_options settings) in
      let now : (session s).0 ≡ ok tokens =
        ap (λ (y : Result LoginResult × Exchange S). y.0) told in
      let before : record { store = (session s).1; reply = [] } ≡ u =
        ap (λ (y : Result LoginResult × Exchange S). y.1) told in
      let after : record u { reply = u.reply ++ command ∷ [] } ≡ x = state_eq rest in
      let kept : (session s).1 ≡ x.store =
        ap (λ (y : Exchange S). y.store) before ∙ ap (λ (y : Exchange S). y.store) after in
      (
        tokens,
        (λ i. (now i, kept i)),
        sym (
            ap (λ (y : Exchange S). y.reply ++ command ∷ []) before
            ∙ ap (λ (y : Exchange S). y.reply) after),
      )

  -- A refresh that succeeds does not give the browser the new refresh token: the browser keeps the
  -- one that was used, and its next refresh throws and changes no row: that token is invalid, unless the
  -- scan of the table itself fails. No hash of the new token accepts the old one, no row but that of
  -- one id accepts the old one, the table holds rows and issuing adds one, and the browser behaves as
  -- documented.
  pub refresh-spent :
      (raw id : String) (s : S) (j : J) {access : String} {x : Exchange S}
      → cookies j refresh_cookie ≡ some (text raw)
      → OnlyRow (accepts table crypto raw) id (rows s)
      → ((tokens : LoginResult) (u : S) (h : String)
          → Auth.refresh table crypto users sign settings.refresh_ttl_ms raw s ≡ (ok tokens, u)
          → IsHashOf table crypto users sign rows holds issues tokens.refresh_token h
          → crypto.compare raw h ≡ false)
      → refresh table crypto users sign settings (some (cookies j)) (fresh s) ≡ (ok access, x)
      → (get_refresh_token (some (cookies (obey_all obey x.reply j))) ≡ raw)
        × ((e : Exception) × (t : S) × (refresh table crypto users sign settings
                (some (cookies (obey_all obey x.reply j)))
                (fresh x.store)
              ≡ (raise e, fresh t))
            × (rows t ≡ rows x.store)
            × ((e ≡ invalid_token) ⊎ ((table.find_many x.store).0 ≡ raise e)))
  unfolding refresh on_store Auth.refresh
  refresh-spent raw id s j {access} {x} held only new e =
      let (tokens, told, replied) = refresh-reply (some (cookies j)) s e in
      let told' : Auth.refresh table crypto users sign settings.refresh_ttl_ms raw s
          ≡ (ok tokens, x.store) =
        subst
          (λ token.
            Auth.refresh table crypto users sign settings.refresh_ttl_ms token s
            ≡ (ok tokens, x.store))
          (ap text_or_empty held) told in
      let (_, (thrown, t, refused, same, why)) =
        refresh-rotates table crypto users sign rows holds issues settings.refresh_ttl_ms raw id s
          only (λ h hash. new tokens x.store h told' hash) told' in
      let held' : cookies (obey_all obey x.reply j) refresh_cookie ≡ some (text raw) = rw replied (
        browser.set_others access_cookie tokens.access_token (access_cookie_options settings) j
          refresh_cookie (λ same. access_ne (sym same))
        ∙ held) in
      (ap text_or_empty held', (thrown, t, rw (held', refused) refl, same, why))
