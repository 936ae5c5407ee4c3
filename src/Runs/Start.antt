-- ===== src/Runs/Start.antt =====
-- `process_run` of backend/worker.py up to the call of the agent. The unique index on a project's
-- active write runs stands for the same condition as the query for one.
use pi_development_agent.Base.{
  ℕ, ◌+◌, string_Eq, nat_Eq, option_Eq, ◌==◌, Bool, true, false, not, ◌&&◌, List, [], ◌∷◌, Option,
  none, some, find, any, if◌then◌else◌,
}
use pi_development_agent.States.{RunStatus, SubtaskStatus, is_over}
use pi_development_agent.Planner.Task.{Task, TaskStatus, is_in_progress}
use pi_development_agent.Planner.Graphs.{build_from_specification}
use pi_development_agent.Planner.Supervisor.{get_next_task}
use pi_development_agent.Runs.Model.{AgentRun, World}
use pi_development_agent.Runs.Subtasks.{
  emits, emits_transition, on_run, set_child, ensure_subtask, on_graph, with_status, given,
  cancel_by_worker,
}

-- why the run is processed: its start, a resumption, or the decision on an action
pub data Cause : Type 0 where
  start resume action : Cause

pub data Started : Type 0 where
  ignored : Started
  busy : Started
  cancelled : World → Started
  running : World → Started

abbrev is_occupying : RunStatus → Bool
is_occupying RunStatus.running = true
is_occupying RunStatus.awaiting_question = true
is_occupying RunStatus.awaiting_approval = true
is_occupying RunStatus.cancelling = true
is_occupying _ = false

-- the query for another active write run of the project
unfoldable pub occupies : AgentRun → AgentRun → Bool
occupies run other =
    other.project_id == run.project_id
    && not (other.id == run.id)
    && other.intent == "write"
    && is_occupying other.status

abbrev pub is_nonempty : List Task → Bool
is_nonempty [] = false
is_nonempty (t ∷ ts) = true

-- `_initialise_task_graph`. `specified` says that the run has a specification with requirements;
-- `decomposed` is the graph that `decompose` returns for its prompt.
unfoldable pub initial_graph : Bool → List Task → AgentRun → List Task
initial_graph specified decomposed run =
    if run.intent == "read_only"
    then decomposed
    else if is_nonempty run.task_graph
    then run.task_graph
    else if specified
    then build_from_specification
    else decomposed

-- The run works on this task from now on.
unfoldable pub activate : ℕ → Task → World → World
activate now task w = on_graph (some task.task_id) (with_status TaskStatus.in_progress) (
    on_run (λ r. record r { active_task_id = some task.task_id; subtask_heartbeat_at = some now })
      w)

abbrev keeps_graph : AgentRun → Bool
keeps_graph run = not (run.intent == "read_only") && is_nonempty run.task_graph

-- the graph of the run; a new graph forgets the recoveries
unfoldable pub initialise : Bool → List Task → AgentRun → AgentRun
initialise specified decomposed run = record run {
  task_graph = initial_graph specified decomposed run;
  task_retries = if keeps_graph run then run.task_retries else [];
}

-- A first start: the graph, and its first task
unfoldable pub plan : ℕ → Bool → List Task → World → World
plan now specified decomposed w =
    let planned = on_run (initialise specified decomposed) w in
    elim (get_next_task (initial_graph specified decomposed w.run)) [
      | none ↦ planned
      | some task ↦
          emits_transition "task.started" (some task.task_id)
            (emits "supervisor.plan" none (activate now task planned))
    ]

-- the task that a resumption goes on with
unfoldable pub resumed_task : List Task → Option Task
resumed_task graph = given (find (λ t. is_in_progress t.status) graph) (get_next_task graph)

unfoldable pub continue : ℕ → World → World
continue now w = elim (resumed_task w.run.task_graph) [
  | none ↦ w
  | some task ↦ emits_transition "task.started" (some task.task_id) (activate now task w)
]

unfoldable pub take_up : ℕ → Cause → Bool → List Task → World → World
take_up now start specified decomposed w = plan now specified decomposed w
take_up now resume specified decomposed w = continue now w
take_up now action specified decomposed w = w

-- the subtask of the active task, if the graph has that task
unfoldable pub open_subtask : ℕ → World → World
open_subtask now w = elim (find (λ t. some t.task_id == w.run.active_task_id) w.run.task_graph) [
  | none ↦ w
  | some task ↦
      set_child now (some task.task_id) SubtaskStatus.running none none
        (record w { subtasks = ensure_subtask task.task_id w.subtasks })
]

abbrev pub begin : ℕ → World → World
begin now = on_run (λ r. record r {
  status = RunStatus.running;
  started_at = given r.started_at (some now);
  heartbeat_at = some now;
  attempt = r.attempt + 1;
})

-- what is committed before the agent is called
unfoldable pub started : ℕ → Cause → Bool → List Task → World → World
started now cause specified decomposed w =
    emits "run.started" none
      (open_subtask now (take_up now cause specified decomposed (begin now w)))

unfoldable pub start_run : ℕ → Cause → List AgentRun → Bool → List Task → World → Started
start_run now cause others specified decomposed w =
    if is_over w.run.status then ignored else elim w.run.status [
      | RunStatus.cancelling ↦ cancelled (cancel_by_worker now w)
      | _ ↦
          if any (occupies w.run) others
          then busy
          else running (started now cause specified decomposed w)
    ]
