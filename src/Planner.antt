-- ===== src/Planner.antt =====
-- `SupervisorPlanner` of backend/agent.py: task graphs, the choice of the next task, and the
-- progress of a graph.
pub mod Task
pub mod Graphs
pub mod Supervisor
pub mod Next
pub mod Progress
mod Examples
