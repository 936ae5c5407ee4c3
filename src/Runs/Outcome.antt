-- ===== src/Runs/Outcome.antt =====
-- What a report makes of the run.
use pi_development_agent.Base.{
  ℕ, Text, String, string_Eq, option_Eq, Bool, true, false, List, [], ◌∷◌, Option, none, some, find,
  leb, arith, ◌≡◌, refl, Bool-cases, Option-cases, ◌⊎◌, inl, inr,
}
use pi_development_agent.States.{RunStatus}
use pi_development_agent.Planner.Task.{TaskStatus, Report}
use pi_development_agent.Repair.Acceptance.{AcceptanceCheck, required_acceptance_failures}
use pi_development_agent.Repair.Requeue.{
  requeue_failed_task, requeued, has_task_id, allowed_retries,
}
use pi_development_agent.Runs.Model.{World}
use pi_development_agent.Runs.Subtasks.{on_run, on_graph, given}
use pi_development_agent.Runs.Finish.{
  no_active, reported, checked_report, give_up_task, task_failed, finish_reported,
}

requeue-unfinished :
    (enabled : Bool) (now : ℕ) (id : String) (report : Report) (w : World)
    → (requeue_failed_task enabled now id report w ≡ (false, w))
      ⊎ ((requeue_failed_task enabled now id report w).0 ≡ true)
        × ((requeue_failed_task enabled now id report w).1.run.status ≡ RunStatus.queued)
unfolding requeue_failed_task requeued
requeue-unfinished false now id report w = inl refl
requeue-unfinished true now id report w =
    elim (Option-cases (find (has_task_id id) w.run.task_graph)) [
      | inl e ↦ inl (ground arith)
      | inr (task, e) ↦ elim (Bool-cases (leb (allowed_retries task) task.retry_count)) [
        | inl spent ↦ inl (ground arith)
        | inr more ↦ inr (ground arith, ground arith)
      ]
    ]

give_up-failed :
    (now : ℕ) (child id : Option String) (report : Report) (w : World)
    → (give_up_task now child id report w).run.status ≡ RunStatus.failed
unfolding give_up_task
give_up-failed now child id report w = refl

-- A task that failed leaves the run queued or failed.
pub task_failed-status :
    (enabled : Bool) (now : ℕ) (child id : Option String) (report : Report) (w : World)
    → ((task_failed enabled now child id report w).run.status ≡ RunStatus.queued)
      ⊎ ((task_failed enabled now child id report w).run.status ≡ RunStatus.failed)
unfolding task_failed
task_failed-status enabled now child none report w = inr (give_up-failed now child none report _)
task_failed-status enabled now child (some id) report w =
    let failed = on_run no_active (on_graph (some id) (reported TaskStatus.failed report) w) in
    elim (requeue-unfinished enabled now id report failed) [
      | inl same ↦ rw same (inr (give_up-failed now child (some id) report failed))
      | inr (again, queued) ↦ rw again (inl queued)
    ]

checked_report-succeeded :
    (failures : List Text) (report : Report)
    → (checked_report failures report).succeeded ≡ true
    → (failures ≡ []) × (report.succeeded ≡ true)
unfolding checked_report
checked_report-succeeded [] report h = (refl, h)
checked_report-succeeded (f ∷ failures) report h = absurd (ground arith)

-- The report on a task brings its run to success only where the agent reports success and no required
-- acceptance check of the task is missing, pending or failed.
pub finish_reported-succeeded :
    (enabled : Bool) (now : ℕ) (checks : List AcceptanceCheck) (child noted : Option String)
    (report : Report) (w : World)
    → (finish_reported enabled now checks child noted report w).run.status ≡ RunStatus.succeeded
    → (report.succeeded ≡ true)
      × (required_acceptance_failures checks w.run.id (given w.run.active_task_id noted) ≡ [])
unfolding finish_reported
finish_reported-succeeded enabled now checks child noted report w h =
    let id = given w.run.active_task_id noted in
    let failures = required_acceptance_failures checks w.run.id id in
    elim (Bool-cases (checked_report failures report).succeeded) [
      | inl good ↦
          let (none_left, ok) = checked_report-succeeded failures report good in (ok, none_left)
      | inr bad ↦ absurd (
          ground
            (arith, task_failed-status enabled now child id (checked_report failures report) w))
    ]
