-- ===== src/Runs/Subtasks.antt =====
-- What the operations on a run share: events and outbox rows of the run, its subtasks, and the
-- status of a task in its graph.
use pi_development_agent.Base.{
  ℕ, Text, String, string_Eq, option_Eq, ◌==◌, Bool, true, false, List, [], ◌∷◌, Option, none, some,
  any, if◌then◌else◌,
}
use pi_development_agent.States.{RunStatus, SubtaskStatus, ActionStatus}
use pi_development_agent.Outbox.Model.{ResumePayload, enqueue}
use pi_development_agent.Planner.Task.{Task, TaskStatus, Report}
use pi_development_agent.Planner.Supervisor.{replace_task}
use pi_development_agent.Repair.Events.{emit, emit_task_transition}
use pi_development_agent.Runs.Model.{AgentRun, AgentSubtask, PendingAction, World}

abbrev pub emits : String → Option String → World → World
emits event_type task_id w = record w { events = emit w.run.id event_type task_id w.events }

abbrev pub emits_transition : String → Option String → World → World
emits_transition event_type task_id w = record w {
  events = emit_task_transition w.run.id event_type task_id w.events;
}

abbrev pub enqueues : ℕ → String → Option ResumePayload → World → World
enqueues now event_type payload w = record w {
  outbox = enqueue now event_type w.run.id payload w.outbox;
}

-- a write to the columns of the run
abbrev pub on_run : (AgentRun → AgentRun) → World → World
on_run change w = record w { run = change w.run }

abbrev pub is_finished : SubtaskStatus → Bool
is_finished SubtaskStatus.succeeded = true
is_finished SubtaskStatus.failed = true
is_finished SubtaskStatus.cancelled = true
is_finished _ = false

abbrev pub is_running : SubtaskStatus → Bool
is_running SubtaskStatus.running = true
is_running _ = false

abbrev pub given {ℓ} : {A : Type ℓ} → Option A → Option A → Option A
given none old = old
given (some new) old = some new

-- `_set_subtask_status`
unfoldable pub set_subtask_status :
    ℕ → SubtaskStatus → Option Report → Option Text → AgentSubtask → AgentSubtask
set_subtask_status now status result error s = record s {
  status = status;
  heartbeat_at = some now;
  started_at = if is_running status then given s.started_at (some now) else s.started_at;
  result = given result s.result;
  error_message = given error s.error_message;
  finished_at = if is_finished status then some now else s.finished_at;
}

-- a write to the subtask of a task, if there is one; a run has at most one for each task
unfoldable pub on_subtask :
    Option String → (AgentSubtask → AgentSubtask) → List AgentSubtask → List AgentSubtask
on_subtask task_id change [] = []
on_subtask task_id change (s ∷ subtasks) =
    let rest = on_subtask task_id change subtasks in
    if some s.task_id == task_id then change s ∷ subtasks else s ∷ rest

abbrev pub set_child :
    ℕ → Option String → SubtaskStatus → Option Report → Option Text → World → World
set_child now task_id status result error w = record w {
  subtasks = on_subtask task_id (set_subtask_status now status result error) w.subtasks;
}

-- `_ensure_subtask`, which makes the row that is missing
unfoldable pub ensure_subtask : String → List AgentSubtask → List AgentSubtask
ensure_subtask task_id subtasks =
    if any (λ s. s.task_id == task_id) subtasks
    then subtasks
    else record {
      task_id = task_id;
      status = SubtaskStatus.queued;
      retry_count = 0;
      result = none;
      error_message = none;
      started_at = none;
      heartbeat_at = none;
      finished_at = none;
    }
      ∷ subtasks

-- `_apply_task_status` and `_replace_task`; no task has a null id
unfoldable pub on_task : Option String → (Task → Task) → List Task → List Task
on_task none change graph = graph
on_task (some task_id) change graph = replace_task task_id change graph

abbrev pub on_graph : Option String → (Task → Task) → World → World
on_graph task_id change w = record w {
  run = record w.run { task_graph = on_task task_id change w.run.task_graph };
}

abbrev pub with_status : TaskStatus → Task → Task
with_status status t = record t { status = status }

-- `_cancel_active_task`
unfoldable pub cancel_active_task : ℕ → World → World
cancel_active_task now w =
    let clear = on_run (λ r. record r { active_task_id = none; subtask_heartbeat_at = none }) in
    elim w.run.active_task_id [
      | none ↦ clear w
      | some id ↦ clear (
          emits_transition "task.cancelled" (some id) (
            on_graph (some id) (with_status TaskStatus.cancelled)
              (set_child now (some id) SubtaskStatus.cancelled none none w)))
    ]

-- a write to one pending action
unfoldable pub on_action :
    String → (PendingAction → PendingAction) → List PendingAction → List PendingAction
on_action id change [] = []
on_action id change (a ∷ actions) =
    (if a.id == id then change a else a) ∷ on_action id change actions

abbrev pub set_action : String → ActionStatus → World → World
set_action id status w = record w {
  actions = on_action id (λ a. record a { status = status }) w.actions;
}

-- The run ends as cancelled, by the worker.
unfoldable pub cancel_by_worker : ℕ → World → World
cancel_by_worker now w = emits "run.cancelled" none (
    on_run (λ r. record r { status = RunStatus.cancelled; finished_at = some now })
      (cancel_active_task now w))
