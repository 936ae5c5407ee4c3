-- ===== src/Schedules/Model.antt =====
-- The table `AgentSchedule` of backend/models.py, and what the dispatch reads of a project: its active
-- instance, whether the key of the model's provider is configured, the budget and what is spent.
use pi_development_agent.Base.{ℕ, String, Text, Bool, List, Option}
use pi_development_agent.Outbox.Model.{Outbox}
use pi_development_agent.Repair.Events.{ToolEvent}
use pi_development_agent.Runs.Model.{AgentRun}

pub record AgentSchedule : Type 0 where
  pub id : String
  pub project_id : ℕ
  pub prompt : Text
  pub interval_seconds : ℕ
  pub enabled : Bool
  pub next_run_at : ℕ
  pub last_run_at : Option ℕ
  pub last_run_id : Option String
  pub last_error : Option Text
  pub retry_count : ℕ

-- `version` and `edition` are those that the dispatch reads off `version_info`.
pub record Site : Type 0 where
  pub status : String
  pub erp_type : String
  pub version : String
  pub edition : String

pub record Readiness : Type 0 where
  pub site : Option Site
  pub key_configured : Bool
  pub budget : Option ℕ
  pub spent : ℕ

pub record Calendar : Type 0 where
  pub schedules : List AgentSchedule
  pub runs : List AgentRun
  pub events : List ToolEvent
  pub outbox : Outbox
