-- ===== src/Auth/Sessions.antt =====
-- What the handlers leave of the sessions.
use pi_development_agent.Base.{
  ℕ, Text, nat_Eq, list_Eq, ◌==◌, Bool, true, false, not, List, [], ◌∷◌, none, some, find, filter,
  ◌≡◌, inl, inr, refl, ap, ◌∙◌, arith, Bool-cases, Option-cases,
}
use pi_development_agent.Deployment.Model.{http_error, ok}
use pi_development_agent.Auth.Model.{UserSession, PasswordReset, Directory, Security}
use pi_development_agent.Auth.Login.{has_token, logout, current_user}
use pi_development_agent.Auth.Passwords.{
  is_of, is_valid_reset, use_reset, reset_password, complete_password_reset,
}

find-filter :
    (p q : UserSession → Bool) (sessions : List UserSession)
    → ((s : UserSession) → q s ≡ true → p s ≡ false)
    → find p (filter q sessions) ≡ none
find-filter p q [] h = refl
find-filter p q (s ∷ sessions) h = elim (Bool-cases (q s)) [
  | inl kept ↦ rw kept (ground (arith, h s kept, find-filter p q sessions h))
  | inr gone ↦ rw gone (find-filter p q sessions h)
]

used-find :
    (now later : ℕ) (hash : Text) (resets : List PasswordReset)
    → find (is_valid_reset later hash) (use_reset now hash resets) ≡ none
unfolding is_valid_reset use_reset
used-find now later hash [] = refl
used-find now later hash (r ∷ resets) = elim (Bool-cases (r.token_hash == hash)) [
  | inl same ↦ ground (arith, used-find now later hash resets)
  | inr other ↦ ground (arith, used-find now later hash resets)
]

-- A request with the cookie is refused behind the logout.
pub logout-refused :
    (security : Security) (now : ℕ) (token : Text) (db : Directory)
    → (current_user security now (some token) (logout security (some token) db)).1 ≡ http_error 401
unfolding current_user logout
logout-refused security now token db =
    let hash = security.hash_token token in
    let gone =
      find-filter (has_token hash) (λ s. not (has_token hash s)) db.sessions
        (λ s h. ground arith) in
    ground arith

reset-refused :
    (security : Security) (now : ℕ) (token new : Text) (db : Directory)
    → find (is_valid_reset now (security.hash_token token)) db.resets ≡ none
    → complete_password_reset security now token new db ≡ http_error 400
unfolding complete_password_reset
reset-refused security now token new db h = ground arith

reset-accepted :
    (security : Security) (now : ℕ) (token new : Text) (db : Directory) (reset : PasswordReset)
    → find (is_valid_reset now (security.hash_token token)) db.resets ≡ some reset
    → complete_password_reset security now token new db
      ≡ ok (reset_password security now (security.hash_token token) new reset db)
unfolding complete_password_reset
reset-accepted security now token new db reset h = ground arith

-- A password reset that succeeds leaves no session of a user it is for, and its token does not succeed
-- again at any time.
pub complete_password_reset-once :
    (security : Security) (now later : ℕ) (token new again : Text) (db after : Directory)
    → complete_password_reset security now token new db ≡ ok after
    → ((reset : PasswordReset) × (find (is_valid_reset now (security.hash_token token)) db.resets
          ≡ some reset)
        × (find (is_of reset.user_id) after.sessions ≡ none))
      × (complete_password_reset security later token again after ≡ http_error 400)
unfolding reset_password
complete_password_reset-once security now later token new again db after h =
    let hash = security.hash_token token in
    elim (Option-cases (find (is_valid_reset now hash) db.resets)) [
      | inl e ↦ absurd (ground (arith, reset-refused security now token new db e))
      | inr (reset, e) ↦
          let same : after ≡ reset_password security now hash new reset db =
            ground (arith, reset-accepted security now token new db reset e) in
          (
            (
              reset,
              e,
              ap (λ (d : Directory). find (is_of reset.user_id) d.sessions) same
                  ∙ find-filter (is_of reset.user_id) (λ s. not (is_of reset.user_id s)) db.sessions
                      (λ s q. ground arith),
            ),
            reset-refused security later token again after (
                ap (λ (d : Directory). find (is_valid_reset later hash) d.resets) same
                ∙ used-find now later hash db.resets),
          )
    ]
