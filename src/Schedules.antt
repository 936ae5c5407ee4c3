-- ===== src/Schedules.antt =====
-- `dispatch_due_schedules` of backend/worker.py: recurring prompts become runs.
pub mod Model
pub mod Dispatch
pub mod Exclusive
mod Examples
