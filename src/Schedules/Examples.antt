-- ===== src/Schedules/Examples.antt =====
-- Two due schedules of one project.
use pi_development_agent.Base.{
  ℕ, ◌≤◌, codes, nat_Eq, string_Eq, list_Eq, String, true, false, [], ◌∷◌, none, some, arith,
}
use pi_development_agent.Schedules.Model.{AgentSchedule, Readiness, Calendar}
use pi_development_agent.Schedules.Dispatch.{dispatch_due_schedules}
use pi_development_agent.Schedules.Exclusive.{writers, dispatch_due_schedules-writers}

abbrev schedule : String → AgentSchedule
schedule id = record {
  id = id;
  project_id = 1;
  prompt = codes "check";
  interval_seconds = 3600;
  enabled = true;
  next_run_at = 0;
  last_run_at = none;
  last_run_id = none;
  last_error = none;
  retry_count = 0;
}

abbrev ready : ℕ → Readiness
ready project_id = record {
  site = some (record { status = "ready"; erp_type = "pri_erp"; version = ""; edition = "" });
  key_configured = true;
  budget = some 10;
  spent = 0;
}

abbrev calendar : Calendar
calendar = record {
  schedules = schedule "a" ∷ schedule "b" ∷ [];
  runs = [];
  events = [];
  outbox = record { next_id = 1; events = [] };
}

dispatch_due_schedules-writers_example :
    writers 1 (dispatch_due_schedules 5 (λ s. s.id) ready (λ prompt. false) calendar) ≤ 1
dispatch_due_schedules-writers_example =
    dispatch_due_schedules-writers 5 (λ s. s.id) ready (λ prompt. false) calendar 1 (omega arith)
