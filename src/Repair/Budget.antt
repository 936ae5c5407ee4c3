-- ===== src/Repair/Budget.antt =====
-- How often a task is run again.
use pi_development_agent.Base.{
  ℕ, zero, suc, ◌+◌, ◌<◌, String, string_Eq, ◌==◌, Bool, true, ◌&&◌, List, [], ◌∷◌, none, some,
  find, leb, arith, ◌≡◌, ◌↔◌, refl, ap, ◌∙◌, Bool-cases, Option-cases, inl, inr,
}
use pi_development_agent.States.{queued}
use pi_development_agent.Outbox.Model.{enqueue}
use pi_development_agent.Planner.Task.{Task, Report, repair, pending}
use pi_development_agent.Planner.Supervisor.{replace_task}
use pi_development_agent.Runs.Model.{World}
use pi_development_agent.Repair.Requeue.{
  allowed_retries, has_task_id, retried, requeued, requeue_failed_task,
}

pub find-replace_task :
    (task_id : String) (change : Task → Task) (graph : List Task) (t : Task)
    → ((u : Task) → (change u).task_id ≡ u.task_id)
    → find (has_task_id task_id) graph ≡ some t
    → find (has_task_id task_id) (replace_task task_id change graph) ≡ some (change t)
unfolding replace_task
find-replace_task task_id change [] t same h = absurd (cc)
find-replace_task task_id change (u ∷ graph) t same h = elim (Bool-cases (u.task_id == task_id)) [
  | inl found ↦ ground (arith, same u)
  | inr other ↦ ground (arith, find-replace_task task_id change graph t same (ground arith))
]

module _ (now : ℕ) (task_id : String) (report : Report) where
  -- A repair that is accepted was enabled and the task was in the graph with a retry left. Behind
  -- it the task is pending, has one retry more and the failed report as its context, the run is
  -- queued with no active task, and a resumption of the run is enqueued.
  pub requeue_failed_task-accepted :
      (enabled : Bool) (world world' : World)
      → requeue_failed_task enabled now task_id report world ≡ (true, world')
      → (enabled ≡ true)
        × ((t : Task) × (find (has_task_id task_id) world.run.task_graph ≡ some t)
            × (t.retry_count < allowed_retries t)
            × (find (has_task_id task_id) world'.run.task_graph
                ≡ some (record t {
                  status = pending;
                  retry_count = t.retry_count + 1;
                  result = some report;
                  context_bundle = repair report.verification report.errors;
                })))
        × (world'.run.status ≡ queued)
        × (world'.run.active_task_id ≡ none)
        × (world'.outbox ≡ enqueue now "run.resume" world.run.id none world.outbox)
  unfolding requeue_failed_task requeued
  requeue_failed_task-accepted enabled world world' h = elim (Bool-cases enabled) [
    | inr off ↦ absurd (ground arith)
    | inl on ↦ elim (Option-cases (find (has_task_id task_id) world.run.task_graph)) [
      | inl missing ↦ absurd (ground arith)
      | inr (t, found) ↦ elim (Bool-cases (leb (allowed_retries t) t.retry_count)) [
        | inl spent ↦ absurd (ground arith)
        | inr left ↦
            let after : world' ≡ requeued now task_id t report world = ground arith in
            (
              on,
              (
                t,
                found,
                ground arith,
                ap (λ (w : World). find (has_task_id task_id) w.run.task_graph) after
                    ∙ find-replace_task task_id (retried (t.retry_count + 1) report)
                        world.run.task_graph t (λ u. refl) found,
              ),
              ap (λ (w : World). w.run.status) after,
              ap (λ (w : World). w.run.active_task_id) after,
              ap (λ (w : World). w.outbox) after,
            )
      ]
    ]
  ]

  -- so many repairs in a row are all accepted
  unfoldable pub all_accepted : ℕ → World → Bool
  all_accepted zero world = true
  all_accepted (suc n) world =
      let answer = requeue_failed_task true now task_id report world in
      answer.0 && all_accepted n answer.1

  -- Where repair is enabled, a task of the graph is run again exactly as often as its retry count is
  -- below the allowed number: one more repair than that is refused.
  pub requeue_failed_task-budget :
      (n : ℕ) (world : World) (t : Task)
      → find (has_task_id task_id) world.run.task_graph ≡ some t
      → (all_accepted (suc n) world ≡ true) ↔ (n + t.retry_count < allowed_retries t)
  unfolding all_accepted requeue_failed_task requeued
  requeue_failed_task-budget zero world t found =
      elim (Bool-cases (leb (allowed_retries t) t.retry_count)) [
        | inl spent ↦ ground arith
        | inr left ↦ ground arith
      ]
  requeue_failed_task-budget (suc n) world t found =
      elim (Bool-cases (leb (allowed_retries t) t.retry_count)) [
        | inl spent ↦ ground arith
        | inr left ↦ ground (
          arith,
          requeue_failed_task-budget n (requeued now task_id t report world)
              (retried (t.retry_count + 1) report t)
              (find-replace_task task_id (retried (t.retry_count + 1) report) world.run.task_graph t
                (λ u. refl) found),
        )
      ]
