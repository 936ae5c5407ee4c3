-- ===== src/Runner.antt =====
-- The deployment runner beside an Odoo server, bridge_runner/runner.py.
pub mod Ledger
pub mod Job
pub mod Command
pub mod Deploy
pub mod Rollback
pub mod Kept
pub mod Success
pub mod Loss
mod Others
pub mod Atomic
pub mod Replay
mod Examples
