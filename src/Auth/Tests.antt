-- ===== src/Auth/Tests.antt =====
-- The refresh tokens on a small table, and the theorems about sessions at concrete inputs.
mod ContextTests
mod SessionTests
use mathlib.Core.Path.{subst}
use agentdesk_nestjs.Base.{
  ℕ, true, false, ◌≡◌, refl, sym, ap, not, List, [], ◌∷◌, ◌++◌, some, String, str_eq, find, select,
  Action, ok, raise, state_eq, ok-injective, eq_refl,
}
use agentdesk_nestjs.Auth.{
  RefreshToken, TokenTable, Crypto, Users, User, LoginResult, accepts, consume, redeem, refresh,
  issue_tokens, issue_for, issue, login, admit, invalid_token,
}
use agentdesk_nestjs.Auth.SingleUse.{HoldsRows, Refuses, OnlyRow, consume-single_use}
use agentdesk_nestjs.Auth.Rotation.{IssuesRows, refresh-rotates}

abbrev pub Rows : Type 0
Rows = List RefreshToken

-- A table in memory, whose rows get their hash as id, and a clock that stands still. Hashes are
-- the texts themselves.
abbrev pub table : TokenTable Rows
table = record {
  create = λ user_id token_hash expires_at rows. (
    ok tt,
    rows
        ++ record {
          id = token_hash;
          user_id = user_id;
          token_hash = token_hash;
          expires_at = expires_at;
        }
          ∷ [],
  );
  find_many = λ rows. (ok rows, rows);
  delete = λ id rows. (ok tt, select (λ r. not (str_eq r.id id)) rows);
  delete_many = λ user_id rows. (ok tt, select (λ r. not (str_eq r.user_id user_id)) rows);
}

abbrev pub crypto : Crypto Rows
crypto = record {
  random_token = λ rows. (ok "raw", rows);
  hash = λ raw rows. (ok raw, rows);
  compare = str_eq;
  now = λ rows. (ok 5, rows);
}

pub table-HoldsRows : HoldsRows table crypto (λ rows. rows)
table-HoldsRows = record {
  scan = λ s e. cc e;
  scanned = λ s. refl;
  deleted = λ id s e. sym (state_eq e);
  clock = λ s e. sym (state_eq e);
}

abbrev pub two_tokens : Rows
two_tokens =
    record { id = "1"; user_id = "ana"; token_hash = "x"; expires_at = 9 }
    ∷ record { id = "2"; user_id = "ben"; token_hash = "y"; expires_at = 9 }
    ∷ []

consume-single_use_example :
    ((m : RefreshToken) × (find (accepts table crypto "y") two_tokens ≡ some m)
      × ("ben" ≡ m.user_id))
    × ((consume table crypto "y" two_tokens).1 ≡ select (λ r. not (str_eq r.id "2")) two_tokens)
    × Refuses table crypto
        (λ (rows : Rows). rows)
        table-HoldsRows
        "y"
        (consume table crypto "y" two_tokens).1
unfolding consume redeem
consume-single_use_example =
    consume-single_use table crypto (λ rows. rows) table-HoldsRows "y" "2" two_tokens
      ((λ e. cc e), ((λ _. refl), tt)) refl

abbrev pub ana : User
ana = record { id = "ana"; tenant_id = "a"; role = "ADMIN"; email = "ana@a"; password_hash = "pw" }

abbrev pub users : Users Rows
users = record {
  find_by_email = λ email rows. (ok (some ana), rows);
  find_by_id = λ id rows. (ok (some (record ana { id = id })), rows);
}

abbrev pub sign : User → Action Rows String
sign user rows = (ok "jwt", rows)

pub table-IssuesRows : IssuesRows table crypto users sign (λ rows. rows)
table-IssuesRows = record {
  found = λ id s e. sym (state_eq e);
  signed = λ user s e. sym (state_eq e);
  drawn = λ s e. sym (state_eq e);
  hashed = λ raw s e. sym (state_eq e);
  matched = λ raw s e. rw (← ok-injective e) (eq_refl raw);
  created = λ user_id token_hash expires_at s e. (token_hash, sym (state_eq e));
}

pub y_only : OnlyRow (accepts table crypto "y") "2" two_tokens
y_only = ((λ e. cc e), ((λ _. refl), tt))

abbrev pub ttl : ℕ
ttl = 10

unfoldable pub session_program : Unit {0}
unfolding consume redeem refresh issue_tokens issue_for issue login admit
session_program = tt

abbrev pub new_tokens : LoginResult
new_tokens = record { access_token = "jwt"; refresh_token = "raw" }

abbrev pub rotated : Rows
rotated =
    record { id = "1"; user_id = "ana"; token_hash = "x"; expires_at = 9 }
    ∷ record { id = "raw"; user_id = "ben"; token_hash = "raw"; expires_at = 15 }
    ∷ []

rotates : refresh table crypto users sign ttl "y" two_tokens ≡ (ok new_tokens, rotated)
unfolding session_program
rotates = refl

other_hash :
    (h : String) → (u v : Rows) × (crypto.hash "raw" u ≡ (ok h, v)) → crypto.compare "y" h ≡ false
other_hash h (u, v, hash) = subst (λ (k : String). str_eq "y" k ≡ false) (ok-injective hash) refl

refresh-rotates_example :
    ((m : RefreshToken) × (user : User) × (r : RefreshToken) × (find
          (accepts table crypto "y")
          two_tokens
        ≡ some m)
      × ((u v : Rows) × (users.find_by_id m.user_id u ≡ (ok (some user), v)))
      × ((r.user_id ≡ user.id)
          × ((u v : Rows) × (crypto.hash "raw" u ≡ (ok r.token_hash, v)))
          × (crypto.compare "raw" r.token_hash ≡ true))
      × (rotated ≡ select (λ r. not (str_eq r.id "2")) two_tokens ++ r ∷ []))
    × Refuses table crypto (λ (rows : Rows). rows) table-HoldsRows "y" rotated
refresh-rotates_example =
    refresh-rotates table crypto users sign (λ rows. rows) table-HoldsRows table-IssuesRows ttl "y"
      "2" two_tokens y_only other_hash rotates
