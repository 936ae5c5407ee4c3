-- ===== src/Permissions.antt =====
-- backend/permissions.py: the resource of a tool call, the grants, the decision cache and the
-- engine that puts them together; and the gate of backend/worker.py that asks the engine.
pub mod Resource
pub mod Grants
pub mod Cache
pub mod Engine
pub mod Gate
pub mod Table
mod Examples
