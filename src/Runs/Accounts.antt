-- ===== src/Runs/Accounts.antt =====
-- What holds of a run through its life, and that each operation keeps it.
use pi_development_agent.Base.{
  ℕ, leb, String, string_Eq, nat_Eq, option_Eq, ◌⊎◌, Bool, true, false, not, ◌&&◌, ◌||◌, List,
  Option, none, some, all, find, arith, ◌≡◌, refl, Bool-cases, Option-cases, inl, inr,
}
use pi_development_agent.States.{RunStatus, is_over}
use pi_development_agent.Planner.Task.{TaskStatus, Report}
use pi_development_agent.Planner.Supervisor.{is_complete}
use pi_development_agent.Repair.Acceptance.{AcceptanceCheck, required_acceptance_failures}
use pi_development_agent.Repair.Requeue.{
  requeue_failed_task, requeued, max_task_retries, has_task_id, allowed_retries,
}
use pi_development_agent.Runs.Model.{AgentRun, World}
use pi_development_agent.Runs.Subtasks.{
  cancel_active_task, cancel_by_worker, on_run, on_graph, given,
}
use pi_development_agent.Runs.Finish.{
  no_active, reported, advance, close_task, task_done, task_failed, give_up_task, finish_reported,
  finish_unreported, checked_report,
}

abbrev is_given : Option ℕ → Bool
is_given none = false
is_given (some n) = true

abbrev is_success : RunStatus → Bool
is_success RunStatus.succeeded = true
is_success _ = false

-- a status with which the run has an end
abbrev has_ended : RunStatus → Bool
has_ended RunStatus.expired = true
has_ended status = is_over status

-- A run that has ended has its end's time, one that succeeded has all its tasks done, and no task has
-- been recovered more often than allowed.
unfoldable pub is_accounted : AgentRun → Bool
is_accounted r =
    (not (has_ended r.status) || is_given r.finished_at)
    && (not (is_success r.status) || is_complete r.task_graph)
    && all (λ p. leb p.1 max_task_retries) r.task_retries

-- the part about recoveries, which only the watchdog writes
abbrev pub is_bounded : AgentRun → Bool
is_bounded r = all (λ p. leb p.1 max_task_retries) r.task_retries

pub bounded : (r : AgentRun) → is_accounted r ≡ true → is_bounded r ≡ true
unfolding is_accounted
bounded r h = ground arith

cancel_active_task-retries :
    (now : ℕ) (w : World) → (cancel_active_task now w).run.task_retries ≡ w.run.task_retries
unfolding cancel_active_task
cancel_active_task-retries now w = ground arith

pub cancel_by_worker-accounted :
    (now : ℕ) (w : World)
    → is_accounted w.run ≡ true
    → is_accounted (cancel_by_worker now w).run ≡ true
unfolding cancel_by_worker is_accounted
cancel_by_worker-accounted now w h = ground (arith, cancel_active_task-retries now w)

advance-accounted :
    (now : ℕ) (w : World) → is_bounded w.run ≡ true → is_accounted (advance now w).run ≡ true
unfolding advance is_accounted
advance-accounted now w h = ground arith

task_done-accounted :
    (now : ℕ) (child task_id : Option String) (report : Report) (w : World)
    → is_bounded w.run ≡ true
    → is_accounted (task_done now child task_id report w).run ≡ true
unfolding task_done close_task
task_done-accounted now child task_id report w h = advance-accounted now _ h

give_up_task-accounted :
    (now : ℕ) (child task_id : Option String) (report : Report) (w : World)
    → is_bounded w.run ≡ true
    → is_accounted (give_up_task now child task_id report w).run ≡ true
unfolding give_up_task is_accounted
give_up_task-accounted now child task_id report w h = ground arith

-- A task that is requeued leaves a run that is queued.
requeue_failed_task-accounted :
    (enabled : Bool) (now : ℕ) (task_id : String) (report : Report) (w : World)
    → is_bounded w.run ≡ true
    → (requeue_failed_task enabled now task_id report w ≡ (false, w))
      ⊎ ((requeue_failed_task enabled now task_id report w).0 ≡ true)
        × (is_accounted (requeue_failed_task enabled now task_id report w).1.run ≡ true)
unfolding requeue_failed_task requeued is_accounted
requeue_failed_task-accounted false now task_id report w h = inl refl
requeue_failed_task-accounted true now task_id report w h =
    elim (Option-cases (find (has_task_id task_id) w.run.task_graph)) [
      | inl e ↦ rw e (inl refl)
      | inr (task, e) ↦ elim (Bool-cases (leb (allowed_retries task) task.retry_count)) [
        | inl spent ↦ inl (ground arith)
        | inr more ↦ inr (ground arith, ground arith)
      ]
    ]

pub task_failed-accounted :
    (enabled : Bool) (now : ℕ) (child task_id : Option String) (report : Report) (w : World)
    → is_bounded w.run ≡ true
    → is_accounted (task_failed enabled now child task_id report w).run ≡ true
unfolding task_failed
task_failed-accounted enabled now child none report w h =
    give_up_task-accounted now child none report _ h
task_failed-accounted enabled now child (some id) report w h =
    let failed = on_run no_active (on_graph (some id) (reported TaskStatus.failed report) w) in
    elim (requeue_failed_task-accounted enabled now id report failed h) [
      | inl same ↦ rw same (give_up_task-accounted now child (some id) report failed h)
      | inr (again, kept) ↦ rw again kept
    ]

pub finish_unreported-accounted :
    (now : ℕ) (child : Option String) (w : World)
    → is_bounded w.run ≡ true
    → is_accounted (finish_unreported now child w).run ≡ true
unfolding finish_unreported is_accounted
finish_unreported-accounted now child w h = ground arith

pub finish_reported-accounted :
    (enabled : Bool) (now : ℕ) (checks : List AcceptanceCheck) (child noted : Option String)
    (report : Report) (w : World)
    → is_bounded w.run ≡ true
    → is_accounted (finish_reported enabled now checks child noted report w).run ≡ true
unfolding finish_reported
finish_reported-accounted enabled now checks child noted report w h =
    let id = given w.run.active_task_id noted in
    let final = checked_report (required_acceptance_failures checks w.run.id id) report in
    ground (
      arith,
      task_done-accounted now child id final w h,
      task_failed-accounted enabled now child id final w h,
    )
