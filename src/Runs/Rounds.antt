-- ===== src/Runs/Rounds.antt =====
-- The rounds of a run that goes well: it is resumed, the agent reports success, and the next task is
-- taken up, until all are done.
use pi_development_agent.Base.{
  ℕ, zero, suc, ◌≤◌, ◌<◌, String, string_Eq, option_Eq, nat_Eq, ◌==◌, Bool, true, false, List, [],
  ◌∷◌, Option, none, some, All, All-In, arith, ◌≡◌, refl, ap, sym, ◌∙◌, subst, ◌⊎◌, inl, inr,
  Bool-cases, Option-cases,
}
use pi_development_agent.States.{RunStatus}
use pi_development_agent.Planner.Task.{Task, TaskStatus, Report}
use pi_development_agent.Planner.Supervisor.{get_next_task, is_complete, replace_task}
use pi_development_agent.Planner.Next.{get_next_task_sound}
use pi_development_agent.Planner.Progress.{
  IsOrdered, IsLive, left, complete_of_none_left, get_next_task-live, replace-IsOrdered,
  replace-IsLive, replace-left-lt,
}
use pi_development_agent.Repair.Acceptance.{AcceptanceCheck, required_acceptance_failures}
use pi_development_agent.Runs.Model.{AgentRun, World}
use pi_development_agent.Runs.Subtasks.{with_status, on_task, emits}
use pi_development_agent.Runs.Start.{Started, running, resume, started, start_run}
use pi_development_agent.Runs.Finish.{reported, advance, close_task, task_done, finish_run, reports}
use pi_development_agent.Runs.Progress.{
  worked, replace-replace, pending_incomplete, started-next, start_run-queued, start_run-succeeded,
  finish_run-success, advance-graph, advance-status, started-id,
}

abbrev or_same : World → Option World → World
or_same w none = w
or_same w (some v) = v

-- the agent's report on what was started
abbrev report_on : Bool → ℕ → List AcceptanceCheck → Report → World → Started → World
report_on enabled now checks report w (running u) = or_same w (
    finish_run enabled now checks none u.run.active_task_id (reports u.run.active_task_id report) u)
report_on enabled now checks report w _ = w

-- One resumption of the run, up to the agent's report on the task that it takes up.
unfoldable pub work : Bool → ℕ → List AcceptanceCheck → Report → World → World
work enabled now checks report w =
    report_on enabled now checks report w (start_run now resume [] false [] w)

unfoldable pub work_on : ℕ → Bool → ℕ → List AcceptanceCheck → Report → World → World
work_on zero enabled now checks report w = w
work_on (suc rounds) enabled now checks report w =
    work_on rounds enabled now checks report (work enabled now checks report w)

-- a queued run with something left to do
abbrev pub IsWorkable : AgentRun → Type 0
IsWorkable r =
    (r.status ≡ RunStatus.queued)
    × IsOrdered [] r.task_graph
    × IsLive r.task_graph
    × (is_complete r.task_graph ≡ false)

module _ (enabled : Bool) (now : ℕ) (checks : List AcceptanceCheck) (report : Report)
    (ok : report.succeeded ≡ true) where
  work-next :
      (w : World) (t : Task)
      → w.run.status ≡ RunStatus.queued
      → IsLive w.run.task_graph
      → get_next_task w.run.task_graph ≡ some t
      → required_acceptance_failures checks w.run.id (some t.task_id) ≡ []
      → (u : World) × (u.run.task_graph ≡ replace_task t.task_id (worked report) w.run.task_graph)
        × (u.run.id ≡ w.run.id)
        × (work enabled now checks report w ≡ advance now u)
  unfolding work task_done close_task on_task
  work-next w t q l next passed =
      let s = started now resume false [] w in
      let (graph, active) = started-next now w t l next in
      let same = started-id now w in
      let child = s.run.active_task_id in
      let passed' : required_acceptance_failures checks s.run.id (some t.task_id) ≡ [] =
        ap (λ id. required_acceptance_failures checks id (some t.task_id)) same ∙ passed in
      (
        close_task now child (some t.task_id) report (emits "usage" none s),
        ap (λ g. replace_task t.task_id (reported TaskStatus.done report) g) graph
            ∙ replace-replace t.task_id (with_status TaskStatus.in_progress)
                (reported TaskStatus.done report) w.run.task_graph (λ u. refl),
        same,
        ap (report_on enabled now checks report w) (start_run-queued now w q)
            ∙ ap (or_same w) (
                finish_run-success enabled now checks child child report s t.task_id active ok
                  passed'),
      )

  -- The required checks of every task have passed.
  abbrev pub IsCleared : AgentRun → Type 0
  IsCleared r =
      All (λ t. required_acceptance_failures checks r.id (some t.task_id) ≡ []) r.task_graph

  replace-cleared :
      (run_id id : String) (graph : List Task)
      → All (λ t. required_acceptance_failures checks run_id (some t.task_id) ≡ []) graph
      → All
          (λ t. required_acceptance_failures checks run_id (some t.task_id) ≡ [])
          (replace_task id (worked report) graph)
  unfolding replace_task
  replace-cleared run_id id [] c = tt
  replace-cleared run_id id (t ∷ graph) c = elim (Bool-cases (t.task_id == id)) [
    | inl same ↦ rw same (c.0, replace-cleared run_id id graph c.1)
    | inr other ↦ rw other (c.0, replace-cleared run_id id graph c.1)
  ]

  advance-id : (w : World) → (advance now w).run.id ≡ w.run.id
  unfolding advance
  advance-id w = ground (arith, Option-cases (get_next_task w.run.task_graph))

  advance-outcome :
      (u : World)
      → IsOrdered [] u.run.task_graph
      → IsLive u.run.task_graph
      → ((advance now u).run.status ≡ RunStatus.succeeded) ⊎ IsWorkable (advance now u).run
  advance-outcome u o l =
      let kept = sym (advance-graph now u) in
      elim (advance-status now u) [
        | inl (t, next, queued) ↦ inr (
          queued,
          subst (IsOrdered []) kept o,
          subst IsLive kept l,
          subst (λ g. is_complete g ≡ false) kept (pending_incomplete u.run.task_graph t next),
        )
        | inr (stuck, ends) ↦ elim (Bool-cases (is_complete u.run.task_graph)) [
          | inl complete ↦ inl (ends complete)
          | inr open' ↦ absurd (get_next_task-live u.run.task_graph o l open' stuck)
        ]
      ]

  -- what is left behind a round
  IsLess : World → World → Type 0
  IsLess w v =
      (v.run.status ≡ RunStatus.succeeded)
      ⊎ IsWorkable v.run × IsCleared v.run × (left v.run.task_graph < left w.run.task_graph)

  -- The run is done, or can go on with a task less.
  work-IsLess :
      (w : World) → IsWorkable w.run → IsCleared w.run → IsLess w (work enabled now checks report w)
  unfolding IsLess
  work-IsLess w (q, o, l, open') c = elim (Option-cases (get_next_task w.run.task_graph)) [
    | inl stuck ↦ absurd (get_next_task-live w.run.task_graph o l open' stuck)
    | inr (t, next) ↦
        let g = w.run.task_graph in
        let (m, waiting, _) = get_next_task_sound g t next in
        let passes : Task → Type 0 =
          λ t. required_acceptance_failures checks w.run.id (some t.task_id) ≡ [] in
        let (u, graph, same, out) = work-next w t q l next (All-In passes t g c m) in
        let o' =
          replace-IsOrdered t.task_id (worked report) (λ u. refl) (λ u. refl) (λ u. refl) [] g o in
        let l' = replace-IsLive t.task_id (worked report) (λ u. refl) (λ u. refl) (λ u. refl) g l in
        let fewer =
          replace-left-lt t.task_id (worked report) (λ u. refl) (λ u. refl) (λ u. refl) t g m refl
            (ground arith) in
        let grown : replace_task t.task_id (worked report) g ≡ (advance now u).run.task_graph =
          sym (advance-graph now u ∙ graph) in
        subst (IsLess w) (sym out)
          (elim (advance-outcome u (subst (IsOrdered []) (sym graph) o')
            (subst IsLive (sym graph) l')) [
              | inl ended ↦ inl ended
              | inr workable ↦ inr (
                workable,
                subst
                    (λ id.
                      All (λ t. required_acceptance_failures checks id (some t.task_id) ≡ [])
                        (advance now u).run.task_graph)
                    (sym (advance-id u ∙ same))
                    (subst (All passes) grown (replace-cleared w.run.id t.task_id g c)),
                subst (λ g'. left g' < left g) grown fewer,
              )
            ])
  ]

  work-ended :
      (w : World) → w.run.status ≡ RunStatus.succeeded → work enabled now checks report w ≡ w
  unfolding work
  work-ended w e = ap (report_on enabled now checks report w) (start_run-succeeded now w e)

  work_on-ended :
      (rounds : ℕ) (w : World)
      → w.run.status ≡ RunStatus.succeeded
      → (work_on rounds enabled now checks report w).run.status ≡ RunStatus.succeeded
  unfolding work_on
  work_on-ended zero w e = e
  work_on-ended (suc rounds) w e =
      work_on-ended rounds _ (ap (λ (v : World). v.run.status) (work-ended w e) ∙ e)

  -- A queued run whose graph is ordered, has only tasks that are pending or done, and is not
  -- complete, succeeds after at most as many resumptions as it has tasks left, where the agent
  -- reports success each time and the required acceptance checks of every task have passed. No other
  -- run holds the project.
  pub work_on-succeeds :
      (rounds : ℕ) (w : World)
      → IsWorkable w.run
      → IsCleared w.run
      → left w.run.task_graph ≤ rounds
      → (work_on rounds enabled now checks report w).run.status ≡ RunStatus.succeeded
  unfolding work_on IsLess
  work_on-succeeds zero w (q, o, l, open') c h =
      absurd (ground (arith, complete_of_none_left w.run.task_graph))
  work_on-succeeds (suc rounds) w p c h = elim (work-IsLess w p c) [
    | inl ended ↦ work_on-ended rounds _ ended
    | inr (p', c', less) ↦ work_on-succeeds rounds _ p' c' (omega arith)
  ]
