-- ===== src/Runs/Keeps.antt =====
-- The operations around the agent's work keep what Runs.Accounts says of a run.
use pi_development_agent.Base.{
  ℕ, suc, leb, String, string_Eq, nat_Eq, option_Eq, ◌==◌, Bool, true, false, List, [], ◌∷◌, Option,
  some, all, Dict, insert, find, arith, ◌≡◌, refl, ap, ◌∙◌, Option-cases, inl, inr,
}
use pi_development_agent.Runs.Model.{PendingAction, World}
use pi_development_agent.Runs.Start.{open_subtask}
use pi_development_agent.Runs.Failure.{Raised, fail_task, fail_run, reject_task, reject_action}
use pi_development_agent.Runs.Watchdog.{
  expire_question, expire_action, expire_actions, release_action, release_actions, watch_actions,
  recoveries, recover_task, exhaust_task, watch_task, watch_run, recover_stale_work,
}
use pi_development_agent.Runs.Accounts.{is_accounted, is_bounded}

pub open_subtask-run : (now : ℕ) (w : World) → (open_subtask now w).run ≡ w.run
unfolding open_subtask
open_subtask-run now w =
    elim (Option-cases (find (λ t. some t.task_id == w.run.active_task_id) w.run.task_graph)) [
      | inl e ↦ ground arith
      | inr (task, e) ↦ ground arith
    ]

pub reject_action-accounted :
    (now : ℕ) (cancel_after : Bool) (child : Option String) (action : PendingAction) (w : World)
    → is_bounded w.run ≡ true
    → is_accounted (reject_action now cancel_after child action w).run ≡ true
unfolding reject_action reject_task is_accounted
reject_action-accounted now true child action w h =
    ground (arith, Option-cases w.run.active_task_id)
reject_action-accounted now false child action w h =
    ground (arith, Option-cases w.run.active_task_id)

pub fail_run-accounted :
    (now : ℕ) (e : Raised) (w : World)
    → is_bounded w.run ≡ true
    → is_accounted (fail_run now e w).run ≡ true
unfolding fail_run fail_task is_accounted
fail_run-accounted now e w h = ground (arith, Option-cases w.run.active_task_id)

expire_question-accounted :
    (now : ℕ) (w : World)
    → is_accounted w.run ≡ true
    → is_accounted (expire_question now w).run ≡ true
unfolding expire_question is_accounted
expire_question-accounted now w h = ground (arith, Option-cases w.question)

expire_action-accounted :
    (now : ℕ) (a : PendingAction) (w : World)
    → is_accounted w.run ≡ true
    → is_accounted (expire_action now a w).run ≡ true
unfolding expire_action is_accounted
expire_action-accounted now a w h = ground arith

expire_actions-accounted :
    (now : ℕ) (actions : List PendingAction) (w : World)
    → is_accounted w.run ≡ true
    → is_accounted (expire_actions now actions w).run ≡ true
unfolding expire_actions
expire_actions-accounted now [] w h = h
expire_actions-accounted now (a ∷ actions) w h =
    expire_actions-accounted now actions _ (expire_action-accounted now a w h)

release_action-run :
    (now : ℕ) (a : PendingAction) (w : World) → (release_action now a w).run ≡ w.run
unfolding release_action
release_action-run now a w = ground arith

release_actions-run :
    (now : ℕ) (actions : List PendingAction) (w : World)
    → (release_actions now actions w).run ≡ w.run
unfolding release_actions
release_actions-run now [] w = refl
release_actions-run now (a ∷ actions) w =
    release_actions-run now actions _ ∙ release_action-run now a w

watch_actions-accounted :
    (now : ℕ) (w : World)
    → is_accounted w.run ≡ true
    → is_accounted (watch_actions now w).run ≡ true
unfolding watch_actions
watch_actions-accounted now w h =
    let expired = expire_actions now w.actions (record w { actions = [] }) in
    ap is_accounted (release_actions-run now expired.actions (record expired { actions = [] }))
    ∙ expire_actions-accounted now w.actions (record w { actions = [] }) h

all-insert :
    (p : ℕ → Bool) (key : String) (new : ℕ) (dict : Dict String ℕ)
    → all (λ e. p e.1) dict ≡ true
    → p new ≡ true
    → all (λ e. p e.1) (insert key new dict) ≡ true
unfolding insert
all-insert p key new [] h q = ground arith
all-insert p key new (e ∷ dict) h q = ground (arith, all-insert p key new dict)

watch_run-accounted :
    (now : ℕ) (w : World) → is_accounted w.run ≡ true → is_accounted (watch_run now w).run ≡ true
unfolding watch_run is_accounted
watch_run-accounted now w h = ground arith

watch_task-accounted :
    (now : ℕ) (w : World) → is_accounted w.run ≡ true → is_accounted (watch_task now w).run ≡ true
unfolding watch_task recover_task exhaust_task is_accounted
watch_task-accounted now w h = elim (Option-cases w.run.active_task_id) [
  | inl e ↦ ground arith
  | inr (id, e) ↦
      ground (arith, all-insert (λ n. leb n 2) id (suc (recoveries id w.run)) w.run.task_retries)
]

pub recover_stale_work-accounted :
    (now : ℕ) (w : World)
    → is_accounted w.run ≡ true
    → is_accounted (recover_stale_work now w).run ≡ true
unfolding recover_stale_work
recover_stale_work-accounted now w h =
    watch_run-accounted now _ (
      watch_task-accounted now _
        (watch_actions-accounted now _ (expire_question-accounted now w h)))
