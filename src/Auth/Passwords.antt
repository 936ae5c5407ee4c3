-- ===== src/Auth/Passwords.antt =====
-- `change_password`, `revoke_session` and `complete_password_reset` of backend/main.py.
use pi_development_agent.Base.{
  ℕ, ltb, Text, nat_Eq, list_Eq, string_Eq, ◌==◌, String, Bool, true, false, not, ◌&&◌, ◌||◌, List,
  Option, none, some, find, filter, any, map, if◌then◌else◌,
}
use pi_development_agent.Deployment.Model.{Response, http_error, ok}
use pi_development_agent.Auth.Model.{Account, UserSession, PasswordReset, Directory, Security}
use pi_development_agent.Auth.Login.{has_token}

abbrev pub is_of : ℕ → UserSession → Bool
is_of user_id s = s.user_id == user_id

abbrev renew_password : Text → Account → Account
renew_password hash a = record a { password_hash = hash; must_change_password = false }

-- a write to the accounts with the id
unfoldable pub on_account : ℕ → (Account → Account) → List Account → List Account
on_account id change accounts = map (λ (a : Account). if a.id == id then change a else a) accounts

-- the session of the request, if it has a cookie
abbrev is_kept : Security → ℕ → Option Text → UserSession → Bool
is_kept security user_id none s = not (is_of user_id s)
is_kept security user_id (some token) s =
    not (is_of user_id s) || has_token (security.hash_token token) s

-- `user` is the account of the request's session.
unfoldable pub change_password :
    Security → Option Text → Text → Text → Account → Directory → Response Directory
change_password security cookie current new user db =
    if not (security.verify_password user.password_hash current)
    then http_error 400
    else ok (record db {
      accounts = on_account user.id (renew_password (security.hash_password new)) db.accounts;
      sessions = filter (is_kept security user.id cookie) db.sessions;
    })

unfoldable pub revoke_session : String → ℕ → Directory → Response Directory
revoke_session id user_id db =
    let is_it : UserSession → Bool = λ s. s.id == id && is_of user_id s in
    if any is_it db.sessions
    then ok (record db { sessions = filter (λ s. not (is_it s)) db.sessions })
    else http_error 404

abbrev is_unused : Option ℕ → Bool
is_unused none = true
is_unused (some t) = false

unfoldable pub is_valid_reset : ℕ → Text → PasswordReset → Bool
is_valid_reset now hash r = r.token_hash == hash && is_unused r.used_at && ltb now r.expires_at

-- the column `token_hash` is unique
unfoldable pub use_reset : ℕ → Text → List PasswordReset → List PasswordReset
use_reset now hash resets =
    map (λ (r : PasswordReset). if r.token_hash == hash then record r { used_at = some now } else r)
      resets

unfoldable pub reset_password : Security → ℕ → Text → Text → PasswordReset → Directory → Directory
reset_password security now hash new reset db = record db {
  accounts = on_account reset.user_id (renew_password (security.hash_password new)) db.accounts;
  resets = use_reset now hash db.resets;
  sessions = filter (λ s. not (is_of reset.user_id s)) db.sessions;
}

unfoldable pub complete_password_reset : Security → ℕ → Text → Text → Directory → Response Directory
complete_password_reset security now token new db =
    let hash = security.hash_token token in
    elim (find (is_valid_reset now hash) db.resets) [
      | none ↦ http_error 400
      | some reset ↦ ok (reset_password security now hash new reset db)
    ]
