-- ===== src/Auth/Controller/Sessions.antt =====
-- What a session is for the browser: the cookies after each endpoint.
use agentdesk_nestjs.Base.{
  ◌⊎◌, ◌≡◌, ◌≢◌, ◌<◌, Bool, true, false, List, [], ◌∷◌, Option, none, some, String, units, str_eq,
  eq_iff, starts_with, Action, Result, if◌then◌else◌,
}
use agentdesk_nestjs.Auth as Auth
use agentdesk_nestjs.Auth.{
  TokenTable, Crypto, Users, User, LoginResult, consume, revoke_all_for_user,
}
use agentdesk_nestjs.Auth.Context.{AuthenticatedRequest, Cookie, text, token_of}
use agentdesk_nestjs.Auth.Controller.{
  CookieOptions, CookieCommand, set_cookie, CookieSettings, Exchange, access_cookie, refresh_cookie,
  get_refresh_token, login,
}

-- A text that the parser reads back as it is; others it may read as JSON.
abbrev pub IsReadable : String → Type 0
IsReadable v = (str_eq v "" ≡ false) × (starts_with (units v) (units "j:") ≡ false)

-- The options of a cookie that browsers store and send back: without `Secure`, `SameSite=None` is
-- refused; with it, the cookie belongs to an origin that is served securely.
abbrev pub IsCarried : Bool → CookieOptions → Type 0
IsCarried https o =
    ((o.secure ≡ true) ⊎ (str_eq o.same_site "none" ≡ false))
    × ((o.secure ≡ false) ⊎ (https ≡ true))

-- A browser that obeys the responses of the site and sends its own requests to it, over HTTPS or not; and the parser of the cookies that it sends with a request.
pub record Browses {J : Type 0} (https : Bool) (cookies : J → String → Option Cookie)
    (obey : CookieCommand → J → J) : Type 0 where
  pub set_reads :
      (k v : String) (o : CookieOptions) (j : J)
      → IsReadable v
      → 0 < o.max_age
      → IsCarried https o
      → cookies (obey (set_cookie k v o) j) k ≡ some (text v)
  pub set_others :
      (k v : String) (o : CookieOptions) (j : J) (i : String)
      → i ≢ k
      → cookies (obey (set_cookie k v o) j) i ≡ cookies j i

abbrev pub obey_all : {J : Type 0} → (CookieCommand → J → J) → List CookieCommand → J → J
obey_all obey [] j = j
obey_all obey (c ∷ cs) j = obey_all obey cs (obey c j)

abbrev pub fresh : {S : Type 0} → S → Exchange S
fresh s = record { store = s; reply = [] }

pub access_ne : access_cookie ≢ refresh_cookie
access_ne e = let same = (eq_iff access_cookie refresh_cookie).1 e in cc same

module _ {S J : Type 0} (table : TokenTable S) (crypto : Crypto S) (users : Users S)
    (sign : User → Action S String) (settings : CookieSettings)
    (cookies : J → String → Option Cookie) (obey : CookieCommand → J → J) (https : Bool)
    (browser : Browses https cookies obey) where
  -- The cookies after the response of a handler.
  abbrev pub jar_after : {A : Type 0} → Result A × Exchange S → J → J
  jar_after x j = obey_all obey x.1.reply j

  -- A request without an `Authorization` header, with the cookies of the browser.
  abbrev pub sent_with : J → AuthenticatedRequest → AuthenticatedRequest
  sent_with j req = record req {
    header = λ k. if str_eq k "authorization" then none else req.header k;
    cookies = some (cookies j);
  }

  abbrev login_tokens : String → String → Action S LoginResult
  login_tokens = Auth.login table crypto users sign settings.refresh_ttl_ms

  -- The tokens that a browser has after a login.
  abbrev pub SignedIn : LoginResult → J → AuthenticatedRequest → Type 0
  SignedIn tokens j req =
      (token_of (sent_with j req) ≡ some (units tokens.access_token))
      × (get_refresh_token (some (cookies j)) ≡ tokens.refresh_token)
