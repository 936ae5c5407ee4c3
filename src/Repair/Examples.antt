-- ===== src/Repair/Examples.antt =====
-- The repair at a concrete run.
use pi_development_agent.Base.{
  ◌+◌, ◌<◌, String, string_Eq, ◌==◌, codes, elem, true, false, ◌&&◌, [], ◌∷◌, none, some, filter,
  all, arith, ◌≡◌, ◌↔◌, refl,
}
use pi_development_agent.States.{RunStatus}
use pi_development_agent.Planner.Task.{Task, Report, failed, no_context}
use pi_development_agent.Repair.Events.{IsSequenced}
use pi_development_agent.Runs.Model.{World}
use pi_development_agent.Repair.Requeue.{allowed_retries}
use pi_development_agent.Repair.Budget.{all_accepted, requeue_failed_task-budget}
use pi_development_agent.Repair.Acceptance.{
  check_gated_tasks, is_required_of, has_passed, no_rows, required_acceptance_failures,
  required_acceptance_failures-none,
}

abbrev verify : Task
verify = record {
  task_id = "verify";
  title = "Verify";
  depends_on = [];
  status = failed;
  retry_count = 1;
  max_retries = none;
  acceptance_criteria = none;
  context_bundle = no_context;
  result = none;
  heartbeat_at = none;
}

abbrev report : Report
report = record {
  succeeded = false;
  done_items = [];
  verification = codes "tests";
  errors = codes "x";
}

abbrev world : World
world = record {
  run = record {
    id = "r";
    project_id = 1;
    intent = "write";
    status = RunStatus.running;
    attempt = 1;
    started_at = some 1;
    heartbeat_at = some 1;
    finished_at = none;
    task_graph = verify ∷ [];
    active_task_id = some "verify";
    subtask_heartbeat_at = none;
    task_retries = [];
    retryable = false;
    error_category = none;
    error_message = none;
  };
  subtasks = [];
  actions = [];
  question = none;
  events = [];
  outbox = record { next_id = 1; events = [] };
}

none-IsSequenced : IsSequenced []
unfolding IsSequenced
none-IsSequenced r n = omega arith

requeue_failed_task-budget_example :
    (all_accepted 5 "verify" report 2 world ≡ true)
    ↔ (1 + verify.retry_count < allowed_retries verify)
requeue_failed_task-budget_example =
    requeue_failed_task-budget 5 "verify" report 1 world verify refl

required_acceptance_failures-none_example :
    (required_acceptance_failures [] "r" (some "implement_models") ≡ []) ↔ (
      (◌==◌ {K = String} "implement_models" "" ≡ false)
      × (all has_passed (filter (is_required_of "r" "implement_models") []) ≡ true)
      × ((elem "implement_models" check_gated_tasks
            && no_rows (filter (is_required_of "r" "implement_models") []))
          ≡ false))
required_acceptance_failures-none_example =
    required_acceptance_failures-none [] "r" "implement_models"
