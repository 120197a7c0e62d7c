-- ===== src/Auth/Context/Fixture.antt =====
-- A token service that knows one token, of a user of the tenant `a`.
use agentdesk_nestjs.Base.{
  same_text, ◌≡◌, refl, String, Text, units, Action, ok, raise, failure, if◌then◌else◌, Bool-cases,
  inl, inr,
}
use agentdesk_nestjs.Tenancy.Memory.{Tables, view}
use agentdesk_nestjs.Auth.Context.{JwtPayload}

abbrev pub payload : JwtPayload
payload = record { sub = "u"; tenant_id = "a"; role = "AGENT"; email = "u@a" }

-- One token is good.
abbrev pub verify : Text → Action Tables JwtPayload
verify token s =
    if same_text token (units "good")
    then (ok payload, s)
    else (raise (failure (units "expired")), s)

pub verify_leaves : (token : Text) (s : Tables) (m : String) → view m (verify token s).1 ≡ view m s
verify_leaves token s m = elim (Bool-cases (same_text token (units "good"))) [
  | inl good ↦ rw good refl
  | inr bad ↦ rw bad refl
]
