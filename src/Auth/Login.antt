-- ===== src/Auth/Login.antt =====
-- `login` and `logout` of backend/main.py, and `current_user` of backend/auth.py. The email is in lower
-- case already. A handler that raises has committed what it wrote before.
use pi_development_agent.Base.{
  ℕ, ◌+◌, leb, ltb, Text, nat_Eq, list_Eq, ◌==◌, String, Bool, false, not, ◌||◌, List, ◌∷◌, Option,
  none, some, find, filter, map, if◌then◌else◌,
}
use pi_development_agent.Deployment.Model.{Response, http_error, ok}
use pi_development_agent.Auth.Model.{Account, UserSession, Directory, Security}

-- fifteen minutes, in microseconds
abbrev pub lock_time : ℕ
lock_time = 900_000_000

abbrev is_later : Option ℕ → ℕ → Bool
is_later none now = false
is_later (some t) now = ltb now t

pub data LoginCheck : Type 0 where
  locked invalid accepted : LoginCheck

-- a failed attempt; the fifth one locks the account
unfoldable pub count_failure : ℕ → Account → Account
count_failure now a =
    let n = a.failed_login_count + 1 in
    if leb 5 n
    then record a { locked_until = some (now + lock_time); failed_login_count = 0 }
    else record a { failed_login_count = n }

-- an attempt on an account; `matches` says that the password is right
unfoldable pub try_login : ℕ → Bool → Account → LoginCheck × Account
try_login now matches a =
    if is_later a.locked_until now
    then (locked, a)
    else if not a.is_active || not matches
    then (invalid, count_failure now a)
    else (accepted, record a { failed_login_count = 0; locked_until = none })

-- the account with the id becomes this one
unfoldable pub write_account : Account → List Account → List Account
write_account new accounts = map (λ (a : Account). if a.id == new.id then new else a) accounts

abbrev new_session : Security → ℕ → ℕ → String → Text → Text → Account → UserSession
new_session security now lifetime id session_token csrf_token a = record {
  id = id;
  user_id = a.id;
  token_hash = security.hash_token session_token;
  csrf_hash = security.hash_token csrf_token;
  expires_at = now + lifetime;
  last_seen_at = now;
}

-- The tokens are fresh, and `lifetime` is `settings.session_hours`.
unfoldable pub login :
    Security → ℕ → ℕ → String → Text → Text → Text → Text → Directory → Directory × Response Account
login security now lifetime id session_token csrf_token email password db =
    elim (find (λ (a : Account). a.email == email) db.accounts) [
      | none ↦ (db, http_error 401)
      | some a ↦
          let tried = try_login now (security.verify_password a.password_hash password) a in
          let written : Directory = record db { accounts = write_account tried.1 db.accounts } in
          elim (tried.0) [
            | locked ↦ (db, http_error 429)
            | invalid ↦ (written, http_error 401)
            | accepted ↦ (
              record written {
                sessions =
                    new_session security now lifetime id session_token csrf_token a ∷ db.sessions;
              },
              ok tried.1,
            )
          ]
    ]

abbrev pub has_token : Text → UserSession → Bool
has_token hash s = s.token_hash == hash

unfoldable pub logout : Security → Option Text → Directory → Directory
logout security none db = db
logout security (some token) db = record db {
  sessions = filter (λ s. not (has_token (security.hash_token token) s)) db.sessions;
}

abbrev is_account : ℕ → Account → Bool
is_account id a = a.id == id

-- the account behind a session that is in force
unfoldable pub session_user : ℕ → List Account → UserSession → Option Account
session_user now accounts s =
    if leb s.expires_at now then none else elim (find (is_account s.user_id) accounts) [
      | none ↦ none
      | some a ↦ if a.is_active then some a else none
    ]

abbrev seen_at : ℕ → Text → UserSession → UserSession
seen_at now hash s = if has_token hash s then record s { last_seen_at = now } else s

-- `session.user` of a row is there, by the foreign key.
unfoldable pub current_user : Security → ℕ → Option Text → Directory → Directory × Response Account
current_user security now none db = (db, http_error 401)
current_user security now (some token) db =
    let hash = security.hash_token token in
    elim (find (has_token hash) db.sessions) [
      | none ↦ (db, http_error 401)
      | some s ↦ elim (session_user now db.accounts s) [
        | none ↦ (db, http_error 401)
        | some a ↦ (record db { sessions = map (seen_at now hash) db.sessions }, ok a)
      ]
    ]
