-- ===== src/Receipts.antt =====
-- The result envelope of tools and the receipts of tool executions of backend/agent.py: `ToolResult`,
-- `ensure_tool_execution` and `complete_tool_execution`.
mod Envelope
mod Model
mod Replay
mod Examples
