-- ===== src/Runs/Progress.antt =====
-- A run that is resumed and whose agent reports success each time comes to its end: the planner's
-- progress, through the worker's own operations.
use pi_development_agent.Base.{
  ℕ, String, string_Eq, option_Eq, nat_Eq, ◌==◌, Bool, true, false, List, [], ◌∷◌, Option, none,
  some, find, all, arith, ◌≡◌, refl, ap, ◌∙◌, ◌⊎◌, inl, inr, Bool-cases, Option-cases, all-In,
}
use pi_development_agent.States.{RunStatus}
use pi_development_agent.Planner.Task.{Task, TaskStatus, Report, is_done, is_in_progress}
use pi_development_agent.Planner.Supervisor.{get_next_task, is_complete, replace_task}
use pi_development_agent.Planner.Next.{get_next_task_sound}
use pi_development_agent.Planner.Progress.{IsLive}
use pi_development_agent.Repair.Acceptance.{AcceptanceCheck, required_acceptance_failures}
use pi_development_agent.Runs.Model.{World}
use pi_development_agent.Runs.Subtasks.{with_status, on_task, emits}
use pi_development_agent.Runs.Start.{
  ignored, running, resume, resumed_task, continue, take_up, activate, started, begin, start_run,
}
use pi_development_agent.Runs.Keeps.{open_subtask-run}
use pi_development_agent.Runs.Finish.{
  reported, advance, task_done, checked_report, finish_reported, finish_run, reports,
}

-- what one round writes into the task that it is about
abbrev pub worked : Report → Task → Task
worked report t = reported TaskStatus.done report (with_status TaskStatus.in_progress t)

pub replace-replace :
    (id : String) (f g : Task → Task) (graph : List Task)
    → ((t : Task) → (f t).task_id ≡ t.task_id)
    → replace_task id g (replace_task id f graph) ≡ replace_task id (λ t. g (f t)) graph
unfolding replace_task
replace-replace id f g [] same = refl
replace-replace id f g (t ∷ graph) same = elim (Bool-cases (t.task_id == id)) [
  | inl found ↦ rw (found, same t, found, replace-replace id f g graph same) refl
  | inr other ↦ rw (other, other, replace-replace id f g graph same) refl
]

idle : (graph : List Task) → IsLive graph → find (λ t. is_in_progress t.status) graph ≡ none
idle [] l = refl
idle (t ∷ graph) l = elim (l.0) [
  | inl waiting ↦ ground (arith, idle graph l.1)
  | inr finished ↦ ground (arith, idle graph l.1)
]

pub pending_incomplete :
    (graph : List Task) (t : Task) → get_next_task graph ≡ some t → is_complete graph ≡ false
unfolding is_complete
pending_incomplete graph t h =
    let (m, waiting, _) = get_next_task_sound graph t h in
    elim (Bool-cases (all (λ u. is_done u.status) graph)) [
      | inl complete ↦ absurd (ground (arith, all-In (λ u. is_done u.status) t graph complete m))
      | inr open' ↦ open'
    ]

resumed_task-live : (graph : List Task) → IsLive graph → resumed_task graph ≡ get_next_task graph
unfolding resumed_task
resumed_task-live graph l = rw (idle graph l) refl

continue-next :
    (now : ℕ) (w : World) (t : Task)
    → resumed_task w.run.task_graph ≡ some t
    → ((continue now w).run.task_graph
        ≡ replace_task t.task_id (with_status TaskStatus.in_progress) w.run.task_graph)
      × ((continue now w).run.active_task_id ≡ some t.task_id)
unfolding continue activate on_task
continue-next now w t chosen = (ground arith, ground arith)

-- A resumption takes up the next task.
pub started-next :
    (now : ℕ) (w : World) (t : Task)
    → IsLive w.run.task_graph
    → get_next_task w.run.task_graph ≡ some t
    → ((started now resume false [] w).run.task_graph
        ≡ replace_task t.task_id (with_status TaskStatus.in_progress) w.run.task_graph)
      × ((started now resume false [] w).run.active_task_id ≡ some t.task_id)
unfolding started take_up
started-next now w t l next =
    let kept = open_subtask-run now (continue now (begin now w)) in
    let taken = continue-next now (begin now w) t (resumed_task-live w.run.task_graph l ∙ next) in
    (ap (λ r. r.task_graph) kept ∙ taken.0, ap (λ r. r.active_task_id) kept ∙ taken.1)

pub start_run-queued :
    (now : ℕ) (w : World)
    → w.run.status ≡ RunStatus.queued
    → start_run now resume [] false [] w ≡ running (started now resume false [] w)
unfolding start_run
start_run-queued now w q = ground arith

pub start_run-succeeded :
    (now : ℕ) (w : World)
    → w.run.status ≡ RunStatus.succeeded
    → start_run now resume [] false [] w ≡ ignored
unfolding start_run
start_run-succeeded now w q = ground arith

pub finish_run-success :
    (enabled : Bool) (now : ℕ) (checks : List AcceptanceCheck) (child noted : Option String)
    (report : Report) (w : World) (t : String)
    → w.run.active_task_id ≡ some t
    → report.succeeded ≡ true
    → required_acceptance_failures checks w.run.id (some t) ≡ []
    → finish_run enabled now checks none child (reports noted report) w
      ≡ some (task_done now child (some t) report (emits "usage" none w))
unfolding finish_run finish_reported checked_report
finish_run-success enabled now checks child noted report w t active ok passed =
    simp (active, passed, ok) refl

pub advance-graph : (now : ℕ) (w : World) → (advance now w).run.task_graph ≡ w.run.task_graph
unfolding advance
advance-graph now w = ground (arith, Option-cases (get_next_task w.run.task_graph))

pub advance-status :
    (now : ℕ) (w : World)
    → ((t : Task) × (get_next_task w.run.task_graph ≡ some t)
        × ((advance now w).run.status ≡ RunStatus.queued))
      ⊎ (get_next_task w.run.task_graph ≡ none)
        × (is_complete w.run.task_graph ≡ true → (advance now w).run.status ≡ RunStatus.succeeded)
unfolding advance
advance-status now w = elim (Option-cases (get_next_task w.run.task_graph)) [
  | inl e ↦ inr (e, λ complete. ground arith)
  | inr (t, e) ↦ inl (t, e, ground arith)
]

continue-id : (now : ℕ) (w : World) → (continue now w).run.id ≡ w.run.id
unfolding continue activate
continue-id now w = ground (arith, Option-cases (resumed_task w.run.task_graph))

pub started-id : (now : ℕ) (w : World) → (started now resume false [] w).run.id ≡ w.run.id
unfolding started take_up
started-id now w =
    ap (λ r. r.id) (open_subtask-run now (continue now (begin now w)))
    ∙ continue-id now (begin now w)
