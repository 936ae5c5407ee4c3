-- ===== src/Tools.antt =====
-- backend/tool_registry.py: the registry of tools and the functions that read it.
mod Entry
mod Inspection
mod Design
mod Files
mod Checks
mod Writes
mod Memory
mod Hosting
pub mod Registry
pub mod Laws
mod Examples
pub use Entry.{ToolRegistryEntry}
