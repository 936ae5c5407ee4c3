-- ===== src/Runs/Failure.antt =====
-- How a run ends outside the agent's report: a rejected action in `process_run`, and what is raised
-- while an event is handled, in `handle_event` (backend/worker.py).
use pi_development_agent.Base.{
  ℕ, Text, codes, take, starts_with, String, string_Eq, ◌==◌, Bool, false, not, ◌&&◌, [], Option,
  none, some, if◌then◌else◌,
}
use pi_development_agent.States.{RunStatus, SubtaskStatus, ActionStatus}
use pi_development_agent.Planner.Task.{TaskStatus, Report}
use pi_development_agent.Runs.Model.{PendingAction, World}
use pi_development_agent.Runs.Subtasks.{
  emits, emits_transition, on_run, set_child, on_graph, with_status, set_action, on_action,
}

abbrev is_dependency : PendingAction → Bool
is_dependency action = action.tool_name == "install_module_dependency"

abbrev rejection_message : PendingAction → Text
rejection_message action =
    if is_dependency action
    then codes "DependencyRejected: the required Odoo module installation was rejected."
    else codes "ActionRejected: the requested action was rejected by the approver."

abbrev rejection_report : PendingAction → Report
rejection_report action = record {
  succeeded = false;
  done_items = [];
  verification = codes "Rejected action was not executed.";
  errors = rejection_message action;
}

-- the task of the run when its action is rejected
unfoldable pub reject_task : Bool → Report → World → World
reject_task cancel_after report w = elim w.run.active_task_id [
  | none ↦ w
  | some id ↦
      let status = if cancel_after then TaskStatus.cancelled else TaskStatus.failed in
      let event_type : String = if cancel_after then "task.cancelled" else "task.failed" in
      emits_transition event_type (some id)
        (on_graph (some id) (λ t. record t { status = status; result = some report }) w)
]

-- The decision on the action that the run waits for was not to approve it. `child` is the task of
-- the open subtask.
unfoldable pub reject_action : ℕ → Bool → Option String → PendingAction → World → World
reject_action now cancel_after child action w =
    let report = rejection_report action in
    let tasked = reject_task cancel_after report (emits "task.report" w.run.active_task_id w) in
    let closed =
      set_child now child (if cancel_after then SubtaskStatus.cancelled else SubtaskStatus.failed)
        (some report) (some report.errors) tasked in
    emits (if cancel_after then "run.cancelled" else "run.failed") w.run.active_task_id (
      emits "final_report" w.run.active_task_id (
        set_action action.id ActionStatus.rejected (
          on_run
            (λ r. record r {
              active_task_id = none;
              status = if cancel_after then RunStatus.cancelled else RunStatus.failed;
              error_category =
                  if cancel_after
                  then none
                  else some (
                      if is_dependency action
                      then codes "DependencyRejected"
                      else codes "ActionRejected");
              error_message = some report.errors;
              finished_at = some now;
            })
            closed)))

-- The decision was to approve it: the action is executed by the agent's next steps.
unfoldable pub approve_action : ℕ → PendingAction → World → World
approve_action now action w = record w {
  actions =
      on_action action.id
        (λ a. record a {
          status = ActionStatus.executing;
          claimed_at = some now;
          execution_started_at = some now;
        })
        w.actions;
}

-- what `handle_event` knows of an exception: its type's name, its text, whether it says that the
-- provider's budget is exhausted, and whether its type is one of those that may be retried
pub record Raised : Type 0 where
  pub type_name : Text
  pub text : Text
  pub budget_exhausted : Bool
  pub transient : Bool

abbrev task_limit : Text
task_limit = codes "TaskExecutionLimitExceeded"

-- `starts_with` on the text of the exception
unfoldable pub category_of : Raised → Text
category_of e =
    if e.budget_exhausted
    then codes "AgentBudgetExceeded"
    else if starts_with task_limit e.text
    then task_limit
    else e.type_name

abbrev budget_message : Text
budget_message =
    codes
      "The AI provider rejected this request because the in-flight request budget is exhausted. Wait for active requests to settle or increase the provider credit limit."

unfoldable pub fail_task : ℕ → Raised → World → World
fail_task now e w = elim w.run.active_task_id [
  | none ↦ w
  | some id ↦
      on_run (λ r. record r { active_task_id = none })
        (emits_transition "task.failed" (some id) (
          on_graph (some id) (with_status TaskStatus.failed)
            (set_child now (some id) SubtaskStatus.failed none (some e.text) w)))
]

unfoldable pub fail_run : ℕ → Raised → World → World
fail_run now e w = emits "run.failed" w.run.active_task_id (
    on_run
      (λ r. record r {
        status = RunStatus.failed;
        error_category = some (category_of e);
        error_message = some (if e.budget_exhausted then budget_message else take 500 e.text);
        retryable = not e.budget_exhausted && e.transient;
        finished_at = some now;
      })
      (fail_task now e w))
