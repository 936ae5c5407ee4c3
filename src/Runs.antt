-- ===== src/Runs.antt =====
-- The life of an agent run: backend/worker.py from the claim of its event to the end of
-- `process_run`, the watchdog, and the handlers of backend/main.py that cancel, retry, answer and
-- decide.
pub mod Model
pub mod Subtasks
pub mod Start
pub mod Gated
pub mod Accounts
pub mod Prepare
pub mod Keeps
pub mod Starting
pub mod Asking
pub mod Endings
pub mod Steps
pub mod Progress
pub mod Rounds
pub mod Outcome
pub mod Finish
pub mod Failure
pub mod Watchdog
pub mod Requests
mod Examples
