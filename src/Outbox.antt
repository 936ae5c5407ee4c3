-- ===== src/Outbox.antt =====
-- The transactional outbox of backend/worker.py: `enqueue`, `claim_outbox`, what `handle_event`
-- writes to the event that it has handled, and the release of stale claims by
-- `recover_stale_work`. Each operation is one transaction and is one step here. A claim is its
-- query, which locks a row and skips the rows that other claims have locked, and its commit: in
-- Shared these are two steps.
pub mod Model
pub mod Claims
mod Counts
pub mod Shared
pub mod Exclusion
pub mod Apart
mod Examples
