-- ===== src/Planner/Task.antt =====
-- A node of a run's task graph (backend/schemas.py `TaskGraphItem`, kept as JSON in
-- `AgentRun.task_graph`), with the report and the context that the worker writes into it.
-- `risk_class` is read by nothing that is modelled.
use pi_development_agent.Base.{ℕ, String, Text, List, Bool, true, false, Option}

pub data TaskStatus : Type 0 where
  pending in_progress blocked done failed cancelled : TaskStatus

-- What the agent reports by `complete_task`. `succeeded` says that the outcome, in capitals, is
-- SUCCESS.
pub record Report : Type 0 where
  pub succeeded : Bool
  pub done_items : List Text
  pub verification : Text
  pub errors : Text

pub data ContextBundle : Type 0 where
  no_context : ContextBundle
  handoff : Text → Text → Text → ContextBundle
  repair : Text → Text → ContextBundle

pub record Task : Type 0 where
  pub task_id : String
  pub title : String
  pub depends_on : List String
  pub status : TaskStatus
  pub retry_count : ℕ
  pub max_retries : Option ℕ
  pub acceptance_criteria : Option String
  pub context_bundle : ContextBundle
  pub result : Option Report
  pub heartbeat_at : Option ℕ

abbrev pub is_pending : TaskStatus → Bool
is_pending pending = true
is_pending _ = false

abbrev pub is_done : TaskStatus → Bool
is_done done = true
is_done _ = false

abbrev pub is_failed : TaskStatus → Bool
is_failed failed = true
is_failed _ = false

abbrev pub is_in_progress : TaskStatus → Bool
is_in_progress in_progress = true
is_in_progress _ = false
