-- ===== src/Auth.antt =====
-- Accounts and sessions: the login, logout and password handlers of backend/main.py and `current_user`
-- of backend/auth.py.
pub mod Model
pub mod Login
pub mod Lockout
pub mod Passwords
pub mod Sessions
mod Examples
