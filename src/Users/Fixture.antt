-- ===== src/Users/Fixture.antt =====
-- Sessions over the database in memory, for tests: a hash is the text itself, the clock stands
-- still, and refresh tokens are not kept.
use agentdesk_nestjs.Base.{◌≡◌, sym, true, [], ok, String, str_eq, eq_refl, Action, ok-injective}
use agentdesk_nestjs.Tenancy.Memory.{Tables}
use agentdesk_nestjs.Auth.{TokenTable, Crypto, User}

abbrev pub no_tokens : TokenTable Tables
no_tokens = record {
  create = λ user_id token_hash expires_at s. (ok tt, s);
  find_many = λ s. (ok [], s);
  delete = λ id s. (ok tt, s);
  delete_many = λ user_id s. (ok tt, s);
}

abbrev pub plain_crypto : Crypto Tables
plain_crypto = record {
  random_token = λ s. (ok "raw", s);
  hash = λ text s. (ok text, s);
  compare = str_eq;
  now = λ s. (ok 5, s);
}

abbrev pub sign_id : User → Action Tables String
sign_id user s = (ok user.id, s)

pub hash-matches :
    (password password_hash : String) (s t : Tables)
    → plain_crypto.hash password s ≡ (ok password_hash, t)
    → str_eq password password_hash ≡ true
hash-matches password password_hash s t hashed =
    let same : password ≡ password_hash = ok-injective hashed in rw (sym same) (eq_refl password)
