-- ===== src/Runs/Examples.antt =====
-- Runs at concrete rows.
use pi_development_agent.Base.{
  String, string_Eq, elem, true, false, List, [], ◌∷◌, none, some, ◌≡◌, refl, inl, arith,
}
use pi_development_agent.States.{RunStatus, ActionStatus, approve}
use pi_development_agent.Planner.Task.{Task, TaskStatus, Report, no_context}
use pi_development_agent.Planner.Supervisor.{
  get_next_task, is_ready, done_ids, is_complete, replace_task,
}
use pi_development_agent.Repair.Acceptance.{required_acceptance_failures, failures_of}
use pi_development_agent.Deployment.Model.{Project, User, require_project}
use pi_development_agent.Runs.Model.{AgentRun, PendingAction, World}
use pi_development_agent.Runs.Subtasks.{on_subtask, on_task}
use pi_development_agent.Runs.Start.{start, started, start_run}
use pi_development_agent.Runs.Finish.{
  finish_reported, checked_report, task_done, close_task, advance,
}
use pi_development_agent.Runs.Watchdog.{recover_stale_work}
use pi_development_agent.Runs.Accounts.{is_accounted}
use pi_development_agent.Runs.Steps.{starts, watches, done, more, Reach, Reach-accounted}
use pi_development_agent.Runs.Outcome.{finish_reported-succeeded}
use pi_development_agent.Runs.Rounds.{work_on, work_on-succeeds}
use pi_development_agent.Runs.Requests.{can_approve, decided_world, decide_run_action}
use pi_development_agent.Runs.Requests.Approval.{decide_run_action-accepted}

abbrev task : String → List String → TaskStatus → Task
task id depends_on status = record {
  task_id = id;
  title = id;
  depends_on = depends_on;
  status = status;
  retry_count = 0;
  max_retries = some 2;
  acceptance_criteria = none;
  context_bundle = no_context;
  result = none;
  heartbeat_at = none;
}

abbrev run_in : RunStatus → List Task → AgentRun
run_in status graph = record {
  id = "r1";
  project_id = 1;
  intent = "write";
  status = status;
  attempt = 0;
  started_at = none;
  heartbeat_at = none;
  finished_at = none;
  task_graph = graph;
  active_task_id = none;
  subtask_heartbeat_at = none;
  task_retries = [];
  retryable = false;
  error_category = none;
  error_message = none;
}

abbrev world_in : RunStatus → List Task → World
world_in status graph = record {
  run = run_in status graph;
  subtasks = [];
  actions = [];
  question = none;
  events = [];
  outbox = record { next_id = 1; events = [] };
}

abbrev good : Report
good = record { succeeded = true; done_items = []; verification = []; errors = [] }

abbrev single : List Task
single = task "a" [] TaskStatus.pending ∷ []

abbrev pair : List Task
pair = task "a" [] TaskStatus.done ∷ task "b" ("a" ∷ []) TaskStatus.failed ∷ []

abbrev fresh : World
fresh = world_in RunStatus.queued single

abbrev begun : World
begun = started 10 start false [] fresh

begun-IsReachable : Reach fresh begun
unfolding start_run
begun-IsReachable = more done (starts 10 start [] false [] refl)

Reach-accounted_example : is_accounted (recover_stale_work 900 begun).run ≡ true
unfolding is_accounted
Reach-accounted_example = Reach-accounted (more begun-IsReachable (watches 900)) refl

single-IsCleared : required_acceptance_failures [] "r1" (some "a") ≡ []
unfolding required_acceptance_failures failures_of elem
single-IsCleared = refl

work_on-succeeds_example : (work_on 1 true 10 [] good fresh).run.status ≡ RunStatus.succeeded
unfolding is_complete
work_on-succeeds_example =
    work_on-succeeds true 10 [] good refl 1 fresh (refl, (tt, tt), (inl refl, tt), refl)
      (single-IsCleared, tt) (omega arith)

finish_reported-succeeded_example : required_acceptance_failures [] "r1" (some "a") ≡ []
unfolding finish_reported checked_report required_acceptance_failures failures_of elem task_done
    close_task advance get_next_task is_ready done_ids is_complete replace_task on_task on_subtask
finish_reported-succeeded_example =
    (finish_reported-succeeded true 20 [] (some "a") none good
      (record fresh { run = record fresh.run { active_task_id = some "a" } }) refl).1

abbrev project : Project
project = record { id = 1; organization_id = 4; phase = "build" }

abbrev user : User
user = record { id = 7; role = "admin"; memberships = [] }

abbrev broken : World
broken = world_in RunStatus.failed pair

abbrev action : PendingAction
action = record {
  id = "p1";
  project_id = 1;
  requested_by_id = 7;
  tool_name = "write_file";
  arguments = [];
  risk_class = "2";
  status = ActionStatus.pending;
  expires_at = 90;
  decided_by_id = none;
  decided_at = none;
  claimed_at = none;
  execution_started_at = none;
}

abbrev asking : World
asking = record (world_in RunStatus.awaiting_approval single) { actions = action ∷ [] }

decide_run_action-accepted_example :
    (decided_world 60 user approve false action asking).run.status ≡ RunStatus.queued
unfolding decide_run_action require_project can_approve elem decided_world
decide_run_action-accepted_example =
    (decide_run_action-accepted 60 user project none approve false none action [] asking _ _ refl).3
