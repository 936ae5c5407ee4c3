-- ===== src/Repair.antt =====
-- The repair of a failed task by backend/worker.py: the event stream of a run and
-- `requeue_failed_task`, and the acceptance checks that decide whether a task has failed.
pub mod Events
pub mod Requeue
pub mod Budget
pub mod Acceptance
mod Examples
