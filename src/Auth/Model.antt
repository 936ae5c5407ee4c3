-- ===== src/Auth/Model.antt =====
-- The tables `User`, `UserSession` and `PasswordResetToken`, with the columns that the handlers read or
-- write. What hashes a token, and what hashes and checks a password, are arguments.
use pi_development_agent.Base.{ℕ, Text, String, Bool, List, Option}

pub record Account : Type 0 where
  pub id : ℕ
  pub email : Text
  pub password_hash : Text
  pub is_active : Bool
  pub must_change_password : Bool
  pub failed_login_count : ℕ
  pub locked_until : Option ℕ

pub record UserSession : Type 0 where
  pub id : String
  pub user_id : ℕ
  pub token_hash : Text
  pub csrf_hash : Text
  pub expires_at : ℕ
  pub last_seen_at : ℕ

pub record PasswordReset : Type 0 where
  pub user_id : ℕ
  pub token_hash : Text
  pub expires_at : ℕ
  pub used_at : Option ℕ

pub record Directory : Type 0 where
  pub accounts : List Account
  pub sessions : List UserSession
  pub resets : List PasswordReset

-- the functions of backend/security.py that the handlers call
pub record Security : Type 0 where
  pub hash_token : Text → Text
  pub hash_password : Text → Text
  pub verify_password : Text → Text → Bool
