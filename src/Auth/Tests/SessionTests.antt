-- ===== src/Auth/Tests/SessionTests.antt =====
-- Sessions in a browser, and the theorems about the endpoints at concrete inputs.
use agentdesk_nestjs.Base.{
  ◌≡◌, ◌≢◌, ◌∙◌, ◌⊎◌, ap, Exception, refl, sym, false, [], Option, none, some, String, units,
  str_eq, eq_iff, eq_refl, ok, raise, ok-injective, if◌then◌else◌, Bool-cases, inl, inr,
}
use mathlib.Core.Path.{subst}
use agentdesk_nestjs.Auth.Controller as Controller
use agentdesk_nestjs.Auth.{LoginResult, refresh, login, invalid_token}
use agentdesk_nestjs.Auth.Context.{AuthenticatedRequest, Cookie, text}
use agentdesk_nestjs.Auth.Controller.{
  CookieCommand, set_cookie, clear_cookie, CookieSettings, Exchange, get_refresh_token, on_store,
}
use agentdesk_nestjs.Auth.Controller.Sessions.{Browses, obey_all, fresh}
use agentdesk_nestjs.Auth.Controller.Spent.{refresh-spent}
use agentdesk_nestjs.Auth.Tests.{
  Rows, table, crypto, table-HoldsRows, two_tokens, users, sign, table-IssuesRows, y_only,
  session_program,
}

-- A browser whose cookies are a function.
abbrev Jar : Type 0
Jar = String → Option Cookie

abbrev obey : CookieCommand → Jar → Jar
obey (set_cookie k v o) j i = if str_eq k i then some (text v) else j i
obey (clear_cookie k path) j i = if str_eq k i then none else j i

apart_false : (k i : String) → i ≢ k → str_eq k i ≡ false
apart_false k i apart = elim (Bool-cases (str_eq k i)) [
  | inl same ↦ let e = (eq_iff k i).0 same in elim (apart (sym e)) [ ]
  | inr other ↦ other
]

jar-Browses : Browses false (λ (j : Jar). j) obey
jar-Browses = record {
  set_reads = λ k v o j plain lives carried. rw (eq_refl k) refl;
  set_others = λ k v o j i apart. rw (apart_false k i apart) refl;
}

abbrev settings : CookieSettings
settings = record { secure = false; same_site = "lax"; access_ttl_ms = 5; refresh_ttl_ms = 10 }

abbrev y_jar : Jar
y_jar k = if str_eq k "refresh_token" then some (text "y") else none

abbrev request : AuthenticatedRequest
request = record {
  original_url = units "/tickets";
  header = λ k. none;
  cookies = none;
  user = none;
}

abbrev logged_in : Exchange Rows
logged_in = (Controller.login table crypto users sign settings "ana@a" "pw" (fresh [])).1

abbrev refreshed : Exchange Rows
refreshed = (Controller.refresh table crypto users sign settings (some y_jar) (fresh two_tokens)).1

refresh_runs :
    Controller.refresh table crypto users sign settings (some y_jar) (fresh two_tokens)
    ≡ (ok "jwt", refreshed)
unfolding Controller.refresh session_program on_store
refresh_runs = refl

new_is_other :
    (tokens : LoginResult) (u : Rows) (h : String)
    → refresh table crypto users sign 10 "y" two_tokens ≡ (ok tokens, u)
    → (v w : Rows) × (crypto.hash tokens.refresh_token v ≡ (ok h, w))
    → crypto.compare "y" h ≡ false
unfolding session_program
new_is_other tokens u h e (v, w, hash) =
    let token : "raw" ≡ tokens.refresh_token =
      ap (λ (t : LoginResult). t.refresh_token) (ok-injective e) in
    subst (λ (k : String). str_eq "y" k ≡ false) (token ∙ ok-injective hash) refl

refresh-spent_example :
    (get_refresh_token (some (obey_all obey refreshed.reply y_jar)) ≡ "y")
    × ((e : Exception) × (t : Rows) × (Controller.refresh table crypto users sign settings
            (some (obey_all obey refreshed.reply y_jar))
            (fresh refreshed.store)
          ≡ (raise e, fresh t))
        × (t ≡ refreshed.store)
        × ((e ≡ invalid_token) ⊎ ((table.find_many refreshed.store).0 ≡ raise e)))
refresh-spent_example =
    refresh-spent table crypto users sign settings (λ (j : Jar). j) obey false jar-Browses
      (λ rows. rows) table-HoldsRows table-IssuesRows "y" "2" two_tokens y_jar refl y_only
      new_is_other refresh_runs
