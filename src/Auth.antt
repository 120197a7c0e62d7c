-- ===== src/Auth.antt =====
-- src/auth/refresh-tokens.service.ts and auth.service.ts: sessions that are kept by refresh tokens.
pub mod SingleUse
pub mod Context
pub mod Rotation
pub mod Controller
mod Tests
use agentdesk_nestjs.Base.{
  ℕ, ◌+◌, Bool, not, ◌&&◌, List, Option, none, some, String, units, str_eq, find, ltb,
  if◌then◌else◌, Action, Exception, unauthorized, ◌>>=◌, ◌>>◌, pure, throw, try_catch,
}

-- A row of the table of refresh tokens; times are in milliseconds.
pub record RefreshToken : Type 0 where
  pub id : String
  pub user_id : String
  pub token_hash : String
  pub expires_at : ℕ

-- The base database client, on this table.
pub record TokenTable (S : Type 0) : Type 0 where
  pub create : String → String → ℕ → Action S (Unit {0})
  pub find_many : Action S (List RefreshToken)
  pub delete : String → Action S (Unit {0})
  pub delete_many : String → Action S (Unit {0})

-- Random bytes as a text, the salted hashes of bcryptjs, and `Date.now()`.
pub record Crypto (S : Type 0) : Type 0 where
  pub random_token : Action S String
  pub hash : String → Action S String
  pub compare : String → String → Bool
  pub now : Action S ℕ

abbrev pub missing_token : Exception
missing_token = unauthorized (units "Missing refresh token")

abbrev pub invalid_token : Exception
invalid_token = unauthorized (units "Invalid or expired refresh token")

abbrev pub invalid_credentials : Exception
invalid_credentials = unauthorized (units "Invalid credentials")

module _ {S : Type 0} (table : TokenTable S) (crypto : Crypto S) where
  unfoldable pub issue : String → ℕ → Action S String
  issue user_id expires_at = do
    raw ← crypto.random_token
    token_hash ← crypto.hash raw
    table.create user_id token_hash expires_at
    pure raw

  -- `t.userId && (await compare(raw, t.tokenHash))`
  abbrev pub accepts : String → RefreshToken → Bool
  accepts raw t = not (str_eq t.user_id "") && crypto.compare raw t.token_hash

  -- What follows the scan. The clock is read only if a row matched.
  unfoldable pub redeem : Option RefreshToken → Action S String
  redeem none = throw invalid_token
  redeem (some t) = crypto.now >>= λ now.
      table.delete t.id >> (if ltb t.expires_at now then throw invalid_token else pure t.user_id)

  unfoldable pub consume : String → Action S String
  consume raw =
      if str_eq raw ""
      then throw missing_token
      else table.find_many >>= λ tokens. redeem (find (accepts raw) tokens)

  unfoldable pub revoke_all_for_user : String → Action S (Unit {0})
  revoke_all_for_user user_id = table.delete_many user_id

-- users.service.ts as the session service sees it.
pub record User : Type 0 where
  pub id : String
  pub tenant_id : String
  pub role : String
  pub email : String
  pub password_hash : String

pub record Users (S : Type 0) : Type 0 where
  pub find_by_email : String → Action S (Option User)
  pub find_by_id : String → Action S (Option User)

pub record LoginResult : Type 0 where
  pub access_token : String
  pub refresh_token : String

abbrev pub dummy_hash : String
dummy_hash = "$2a$10$N9qo8uLOickgx2ZMRZoMyeIjZAgcfl7p92ldGxad68LJZdL17lhWy"

-- `user?.passwordHash ?? DUMMY_HASH`
abbrev pub hash_of : Option User → String
hash_of none = dummy_hash
hash_of (some user) = user.password_hash

-- `sign` is the token service on the claims of a user, and `ttl` the life of a refresh token.
module _ {S : Type 0} (table : TokenTable S) (crypto : Crypto S) (users : Users S)
    (sign : User → Action S String) (ttl : ℕ) where
  unfoldable pub issue_for : Option User → Action S LoginResult
  issue_for none = throw invalid_credentials
  issue_for (some user) = do
    access_token ← sign user
    now ← crypto.now
    refresh_token ← issue table crypto user.id (now + ttl)
    pure (record { access_token = access_token; refresh_token = refresh_token })

  unfoldable pub issue_tokens : String → Action S LoginResult
  issue_tokens user_id = users.find_by_id user_id >>= issue_for

  -- The password is compared with some hash even if there is no such user.
  unfoldable pub admit : Bool → Option User → Action S LoginResult
  admit matches none = throw invalid_credentials
  admit matches (some user) = if matches then issue_tokens user.id else throw invalid_credentials

  unfoldable pub login : String → String → Action S LoginResult
  login email password =
      users.find_by_email email >>= λ user. admit (crypto.compare password (hash_of user)) user

  unfoldable pub refresh : String → Action S LoginResult
  refresh raw = consume table crypto raw >>= issue_tokens

  unfoldable pub logout : String → Action S (Unit {0})
  logout raw =
      if str_eq raw ""
      then pure tt
      else try_catch
          (consume table crypto raw >>= λ user_id. revoke_all_for_user table crypto user_id)
          (λ _. pure tt)
