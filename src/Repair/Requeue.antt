-- ===== src/Repair/Requeue.antt =====
-- `requeue_failed_task` of backend/worker.py: a task whose verification failed is run again, with
-- what failed as its context.
use pi_development_agent.Base.{
  ℕ, ◌+◌, String, string_Eq, ◌==◌, Bool, true, false, not, none, some, find, leb, if◌then◌else◌,
}
use pi_development_agent.States.{queued}
use pi_development_agent.Outbox.Model.{enqueue}
use pi_development_agent.Planner.Task.{Task, Report, repair, pending}
use pi_development_agent.Planner.Supervisor.{replace_task}
use pi_development_agent.Repair.Events.{emit_task_transition}
use pi_development_agent.Runs.Model.{World}

abbrev pub max_task_retries : ℕ
max_task_retries = 2

-- `task.get("max_retries", MAX_TASK_RETRIES)`
abbrev pub allowed_retries : Task → ℕ
allowed_retries t = elim t.max_retries [ none ↦ max_task_retries | some n ↦ n ]

abbrev pub has_task_id : String → Task → Bool
has_task_id task_id t = t.task_id == task_id

-- the changes that `_apply_task_status` is given
abbrev pub retried : ℕ → Report → Task → Task
retried retry_count report t = record t {
  status = pending;
  retry_count = retry_count;
  result = some report;
  context_bundle = repair report.verification report.errors;
}

unfoldable pub requeued : ℕ → String → Task → Report → World → World
requeued now task_id task report world = record world {
  run = record world.run {
    task_graph = replace_task task_id (retried (task.retry_count + 1) report) world.run.task_graph;
    active_task_id = none;
    subtask_heartbeat_at = none;
    status = queued;
    retryable = true;
    finished_at = none;
  };
  events = emit_task_transition world.run.id "task.retrying" (some task_id) world.events;
  outbox = enqueue now "run.resume" world.run.id none world.outbox;
}

-- `enabled` is the setting `autonomous_repair_enabled`.
unfoldable pub requeue_failed_task : Bool → ℕ → String → Report → World → Bool × World
requeue_failed_task enabled now task_id report world =
    if not enabled then (false, world) else elim (find (has_task_id task_id) world.run.task_graph) [
      | none ↦ (false, world)
      | some task ↦
          if leb (allowed_retries task) task.retry_count
          then (false, world)
          else (true, requeued now task_id task report world)
    ]
