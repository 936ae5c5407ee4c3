-- ===== src/Validation.antt =====
-- The validation of a packaged module in a disposable Odoo: `run_validate_module` of bridge_runner/runner.py
-- and `validate_module_full` of backend/validation.py.
mod Log
mod Run
mod Sound
mod Examples
