-- ===== src/Runs/Finish.antt =====
-- `process_run` of backend/worker.py behind the agent's stream. The texts that only a person reads
-- (the final report, the summary in the chat) and the counts of tokens are left out, and the gate
-- for a pending tool call is in Permissions.Gate.
use pi_development_agent.Base.{
  ℕ, ◌+◌, Text, codes, join, contains, decimal, length, take, String, string_Eq, option_Eq, Bool,
  false, List, [], ◌∷◌, ◌++◌, Option, none, some, if◌then◌else◌,
}
use pi_development_agent.States.{
  RunStatus, SubtaskStatus, ActionStatus, QuestionStatus, ResumeDecision, approve, reject,
}
use pi_development_agent.Planner.Task.{Task, TaskStatus, Report, handoff}
use pi_development_agent.Planner.Supervisor.{get_next_task, is_complete}
use pi_development_agent.Repair.Acceptance.{AcceptanceCheck, required_acceptance_failures}
use pi_development_agent.Repair.Requeue.{requeue_failed_task}
use pi_development_agent.Runs.Model.{AgentRun, AgentSubtask, PendingAction, World}
use pi_development_agent.Runs.Subtasks.{
  emits, emits_transition, enqueues, on_run, on_subtask, set_subtask_status, set_child, on_graph,
  given, on_action, cancel_by_worker,
}

abbrev fail_with : ℕ → Text → Text → AgentRun → AgentRun
fail_with now category message r = record r {
  status = RunStatus.failed;
  error_category = some category;
  error_message = some message;
  finished_at = some now;
}

abbrev no_report_message : Text
no_report_message = codes "Agent finished without calling complete_task."

-- The agent ended and reported nothing; `child` is the task of the open subtask.
unfoldable pub finish_unreported : ℕ → Option String → World → World
finish_unreported now child w = emits "run.failed" w.run.active_task_id (
    on_run (fail_with now (codes "MissingTaskReport") no_report_message)
      (set_child now child SubtaskStatus.failed none (some no_report_message) w))

-- the report as the acceptance checks leave it
unfoldable pub checked_report : List Text → Report → Report
checked_report [] report = report
checked_report (f ∷ failures) report = record report {
  succeeded = false;
  errors =
      codes "AcceptanceCheckFailed: "
      ++ decimal (length (f ∷ failures))
      ++ codes " required checks missing, pending, or failed: "
      ++ join (codes ", ") (f ∷ failures);
}

abbrev pub reported : TaskStatus → Report → Task → Task
reported status report t = record t {
  status = status;
  result = some report;
  context_bundle = handoff (join (b'\n' ∷ []) report.done_items) report.verification report.errors;
}

abbrev pub no_active : AgentRun → AgentRun
no_active r = record r { active_task_id = none; subtask_heartbeat_at = none }

-- What comes next once a task is done: the next task, the end, or a deadlock.
unfoldable pub advance : ℕ → World → World
advance now w = elim (get_next_task w.run.task_graph) [
  | some next ↦ enqueues now "run.resume" none (
      emits "run.queued" (some next.task_id) (
        on_run (λ r. record r { active_task_id = some next.task_id; status = RunStatus.queued }) w))
  | none ↦
      if is_complete w.run.task_graph
      then emits "message.delta" none (
          emits "run.completed" none (
            emits "final_report" none (
              emits "supervisor.complete" none (
                on_run (λ r. record r { status = RunStatus.succeeded; finished_at = some now })
                  w))))
      else emits "run.failed" none (
          on_run
            (fail_with now (codes "TaskDependencyDeadlock")
              (codes "No dependency-satisfied supervisor task is available."))
            w)
]

-- the task and its subtask as done
unfoldable pub close_task : ℕ → Option String → Option String → Report → World → World
close_task now child task_id report w = emits_transition "task.completed" task_id (
    on_run no_active (
      on_graph task_id (reported TaskStatus.done report)
        (set_child now child SubtaskStatus.succeeded (some report) none w)))

unfoldable pub task_done : ℕ → Option String → Option String → Report → World → World
task_done now child task_id report w = advance now (close_task now child task_id report w)

abbrev error_text : Report → Text
error_text report = elim report.errors [ [] ↦ codes "Task reported failure" | c ∷ cs ↦ c ∷ cs ]

abbrev error_category : Text → Text
error_category text =
    if contains (codes "DependencyInstallFailed") text
    then codes "DependencyInstallFailed"
    else codes "TaskFailed"

unfoldable pub give_up_task : ℕ → Option String → Option String → Report → World → World
give_up_task now child task_id report w = emits "run.failed" task_id (
    emits "final_report" task_id (
      on_run (fail_with now (error_category (error_text report)) (take 500 (error_text report))) (
        emits_transition "task.failed" task_id
          (set_child now child SubtaskStatus.failed (some report) (some (error_text report)) w))))

abbrev retry_child : ℕ → AgentSubtask → AgentSubtask
retry_child now s =
    set_subtask_status now SubtaskStatus.queued none none
      (record s { retry_count = s.retry_count + 1 })

-- `requeue_failed_task` with a task id that may be null
abbrev requeue : Bool → ℕ → Option String → Report → World → Bool × World
requeue enabled now none report w = (false, w)
requeue enabled now (some task_id) report w = requeue_failed_task enabled now task_id report w

unfoldable pub task_failed : Bool → ℕ → Option String → Option String → Report → World → World
task_failed enabled now child task_id report w =
    let failed = on_run no_active (on_graph task_id (reported TaskStatus.failed report) w) in
    let answer = requeue enabled now task_id report failed in
    if answer.0
    then record answer.1 { subtasks = on_subtask child (retry_child now) answer.1.subtasks }
    else give_up_task now child task_id report failed

-- The agent reported; `noted` is the active task at that time, which counts where there is none now.
unfoldable pub finish_reported :
    Bool → ℕ → List AcceptanceCheck → Option String → Option String → Report → World → World
finish_reported enabled now checks child noted report w =
    let task_id = given w.run.active_task_id noted in
    let final = checked_report (required_acceptance_failures checks w.run.id task_id) report in
    if final.succeeded
    then task_done now child task_id final w
    else task_failed enabled now child task_id final w

-- an action that was decided, as the run ends with it
abbrev pub settle_action : ResumeDecision → PendingAction → PendingAction
settle_action decision a = elim a.status [
  | ActionStatus.expired ↦ a
  | _ ↦ elim decision [
    | approve ↦ record a { status = ActionStatus.succeeded }
    | reject ↦ record a { status = ActionStatus.rejected }
  ]
]

abbrev settle : Option (String × ResumeDecision) → World → World
settle none w = w
settle (some (id, decision)) w = record w {
  actions = on_action id (settle_action decision) w.actions;
}

-- how the agent's stream ended, where no tool call waits
pub data Ending : Type 0 where
  cancels : Ending
  asks : ℕ → Ending
  reports : Option String → Report → Ending
  stops : Ending

-- A question of the agent. Where the run has had one before, the new row breaks the unique
-- constraint of `run_id` and the insertion raises.
unfoldable pub ask : ℕ → ℕ → Option String → World → Option World
ask now expires_at child w = elim w.question [
  | some old ↦ none
  | none ↦ some (
      emits "question.required" none (
        set_child now child SubtaskStatus.awaiting_question none none (
          on_run (λ r. record r { status = RunStatus.awaiting_question })
            (record w {
              question = some (record {
                status = QuestionStatus.pending;
                answer = none;
                answered_at = none;
                expires_at = expires_at;
              });
            }))))
]

-- None where the transaction raises.
unfoldable pub finish_run :
    Bool
    → ℕ
    → List AcceptanceCheck
    → Option (String × ResumeDecision)
    → Option String
    → Ending
    → World
    → Option World
finish_run enabled now checks decided child cancels w =
    some (cancel_by_worker now (emits "usage" none w))
finish_run enabled now checks decided child (asks expires_at) w =
    ask now expires_at child (emits "usage" none w)
finish_run enabled now checks decided child (reports noted report) w =
    some (
      settle decided (finish_reported enabled now checks child noted report (emits "usage" none w)))
finish_run enabled now checks decided child stops w =
    some (settle decided (finish_unreported now child (emits "usage" none w)))
