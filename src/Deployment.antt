-- ===== src/Deployment.antt =====
-- Deployments: backend/deployment.py, the two handlers of backend/main.py that decide and refresh
-- one, and the access rule of backend/auth.py. What the remote systems answer (the bridge, git, the
-- deployed site) is a parameter of the operation that asks. A text that the code cuts or joins is a
-- list of code points.
pub mod Model
pub mod Request
pub mod Admission
pub mod Run
pub mod Recovery
pub mod Decision
mod Keeps
pub mod Lifecycle
mod Examples
