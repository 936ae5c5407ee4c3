-- ===== src/Runs/Requests/Approval.antt =====
-- An action of a run is decided once.
use pi_development_agent.Base.{
  ℕ, ◌<◌, String, string_Eq, ◌==◌, Bool, true, false, List, [], ◌∷◌, Option, some, All, arith, ◌≡◌,
  ◌≢◌, ap, inl, inr, Bool-cases, sym, subst,
}
use pi_development_agent.States.{RunStatus, ActionStatus, ResumeDecision}
use pi_development_agent.Deployment.Model.{Project, User, ok}
use pi_development_agent.Permissions.Grants.{Grant}
use pi_development_agent.Runs.Model.{PendingAction, World}
use pi_development_agent.Runs.Subtasks.{on_action}
use pi_development_agent.Outbox.Model.{enqueue}
use pi_development_agent.Runs.Requests.{
  can_approve, decide_run_action, decided_status, decided_world,
}

-- No action with the id waits any more.
abbrev pub IsSettled : String → List PendingAction → Type 0
IsSettled id actions = All (λ a. (a.id == id) ≡ true → a.status ≢ ActionStatus.pending) actions

on_action-IsSettled :
    (id : String) (change : PendingAction → PendingAction) (actions : List PendingAction)
    → ((a : PendingAction) → (change a).status ≢ ActionStatus.pending)
    → IsSettled id (on_action id change actions)
unfolding on_action
on_action-IsSettled id change [] h = tt
on_action-IsSettled id change (a ∷ actions) h = elim (Bool-cases (a.id == id)) [
  | inl same ↦ rw same (λ e. h a, on_action-IsSettled id change actions h)
  | inr other ↦ rw other (λ e. absurd (ground arith), on_action-IsSettled id change actions h)
]

decided_status-settled :
    (decision : ResumeDecision) → decided_status decision ≢ ActionStatus.pending
decided_status-settled decision = ground arith

module _ (now : ℕ) (user : User) (project : Project) (budget : Option ℕ) (decision : ResumeDecision)
    (auto : Bool) (remember : Option String) (action : PendingAction) (grants : List Grant)
    (w : World) where
  -- A decision is accepted only from somebody who may approve the action, while the action waits and
  -- has not expired. Behind it the run is queued, its resumption with this decision is in the outbox,
  -- and no action with this id waits any more.
  pub decide_run_action-accepted :
      (v : World) (new : List Grant)
      → decide_run_action now user project budget decision auto remember action grants w
        ≡ ok (v, new)
      → (can_approve user project action ≡ true)
        × (action.status ≡ ActionStatus.pending)
        × (now < action.expires_at)
        × (v.run.status ≡ RunStatus.queued)
        × IsSettled action.id v.actions
        × (v.outbox
            ≡ enqueue now "action.resume" w.run.id
                (some (record {
                  action_id = action.id;
                  decision = decision;
                  cancel_after = false;
                  auto_approve_task = auto;
                }))
                w.outbox)
  unfolding decide_run_action decided_world
  decide_run_action-accepted v new h =
      let after : v ≡ decided_world now user decision auto action w = ground arith in
      (
        ground arith,
        ground arith,
        ground arith,
        ap (λ (u : World). u.run.status) after,
        subst (λ (u : World). IsSettled action.id u.actions) (sym after)
            (on_action-IsSettled action.id _ w.actions (λ a. decided_status-settled decision)),
        ap (λ (u : World). u.outbox) after,
      )

  -- An action that does not wait is decided by nobody.
  pub decide_run_action-once :
      (answer : World × List Grant)
      → action.status ≢ ActionStatus.pending
      → decide_run_action now user project budget decision auto remember action grants w ≢ ok answer
  unfolding decide_run_action
  decide_run_action-once answer h = ground arith
