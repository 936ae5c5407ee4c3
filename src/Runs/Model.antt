-- ===== src/Runs/Model.antt =====
-- The rows that belong to one run: the run, its subtasks, its pending actions, its question (the
-- column `agent_questions.run_id` is unique), its events, and the outbox.
use pi_development_agent.Base.{ℕ, String, Text, Bool, List, Option, Dict}
use pi_development_agent.States.{RunStatus, ActionStatus, SubtaskStatus, QuestionStatus}
use pi_development_agent.Outbox.Model.{Outbox}
use pi_development_agent.Planner.Task.{Task, Report}
use pi_development_agent.Permissions.Resource.{Arguments}
use pi_development_agent.Repair.Events.{ToolEvent}

-- A graph that is null and an empty one are the same to the code.
pub record AgentRun : Type 0 where
  pub id : String
  pub project_id : ℕ
  pub intent : String
  pub status : RunStatus
  pub attempt : ℕ
  pub started_at : Option ℕ
  pub heartbeat_at : Option ℕ
  pub finished_at : Option ℕ
  pub task_graph : List Task
  pub active_task_id : Option String
  pub subtask_heartbeat_at : Option ℕ
  pub task_retries : Dict String ℕ
  pub retryable : Bool
  pub error_category : Option Text
  pub error_message : Option Text

pub record AgentSubtask : Type 0 where
  pub task_id : String
  pub status : SubtaskStatus
  pub retry_count : ℕ
  pub result : Option Report
  pub error_message : Option Text
  pub started_at : Option ℕ
  pub heartbeat_at : Option ℕ
  pub finished_at : Option ℕ

pub record PendingAction : Type 0 where
  pub id : String
  pub project_id : ℕ
  pub requested_by_id : ℕ
  pub tool_name : String
  pub arguments : Arguments
  pub risk_class : String
  pub status : ActionStatus
  pub expires_at : ℕ
  pub decided_by_id : Option ℕ
  pub decided_at : Option ℕ
  pub claimed_at : Option ℕ
  pub execution_started_at : Option ℕ

pub record AgentQuestion : Type 0 where
  pub status : QuestionStatus
  pub answer : Option Text
  pub answered_at : Option ℕ
  pub expires_at : ℕ

pub record World : Type 0 where
  pub run : AgentRun
  pub subtasks : List AgentSubtask
  pub actions : List PendingAction
  pub question : Option AgentQuestion
  pub events : List ToolEvent
  pub outbox : Outbox
