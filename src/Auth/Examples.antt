-- ===== src/Auth/Examples.antt =====
-- Accounts at concrete rows; hashes are the texts themselves.
use pi_development_agent.Base.{
  ◌+◌, ◌≤◌, codes, nat_Eq, list_Eq, string_Eq, ◌==◌, true, false, [], ◌∷◌, none, ◌≡◌, refl, arith,
}
use pi_development_agent.Deployment.Model.{http_error}
use pi_development_agent.Auth.Model.{Account, Directory, Security}
use pi_development_agent.Auth.Lockout.{refusals, refusals-bound}
use pi_development_agent.Auth.Passwords.{is_valid_reset, reset_password, complete_password_reset}
use pi_development_agent.Auth.Sessions.{complete_password_reset-once}

abbrev plain : Security
plain = record {
  hash_token = λ t. t;
  hash_password = λ t. t;
  verify_password = λ hash t. hash == t;
}

abbrev ada : Account
ada = record {
  id = 1;
  email = codes "ada@example.org";
  password_hash = codes "secret";
  is_active = true;
  must_change_password = false;
  failed_login_count = 0;
  locked_until = none;
}

abbrev house : Directory
house = record {
  accounts = ada ∷ [];
  sessions =
      record {
        id = "s1";
        user_id = 1;
        token_hash = codes "tok";
        csrf_hash = codes "csrf";
        expires_at = 100;
        last_seen_at = 0;
      }
      ∷ [];
  resets = record { user_id = 1; token_hash = codes "reset"; expires_at = 60; used_at = none } ∷ [];
}

refusals-bound_example :
    refusals (10 ∷ 20 ∷ 30 ∷ 40 ∷ 50 ∷ 60 ∷ 70 ∷ []) ada + ada.failed_login_count ≤ 5
refusals-bound_example =
    refusals-bound 10 (10 ∷ 20 ∷ 30 ∷ 40 ∷ 50 ∷ 60 ∷ 70 ∷ []) ada (omega arith) (
      (omega arith, omega arith),
      (
        (omega arith, omega arith),
        (
          (omega arith, omega arith),
          (
            (omega arith, omega arith),
            (
              (omega arith, omega arith),
              ((omega arith, omega arith), ((omega arith, omega arith), tt)),
            ),
          ),
        ),
      ),
    )

complete_password_reset-once_example :
    complete_password_reset plain 40 (codes "reset") (codes "third") (
      reset_password plain 30
        (codes "reset")
        (codes "second")
        (record { user_id = 1; token_hash = codes "reset"; expires_at = 60; used_at = none })
        house)
    ≡ http_error 400
unfolding complete_password_reset is_valid_reset
complete_password_reset-once_example =
    (complete_password_reset-once plain 30 40 (codes "reset") (codes "second") (codes "third") house
      _ refl).1
