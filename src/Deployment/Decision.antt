-- ===== src/Deployment/Decision.antt =====
-- What an accepted decision says.
use pi_development_agent.Base.{
  ℕ, string_Eq, nat_Eq, ◌==◌, true, none, some, arith, ◌≡◌, ◌≢◌, ◌⊎◌, inl, inr, refl,
}
use pi_development_agent.States.{ResumeDecision, approve, reject}
use pi_development_agent.Outbox.Model.{Outbox, enqueue}
use pi_development_agent.Deployment.Model.{
  DeploymentStatus, pending_approval, approved, rejected, Project, Deployment, User, ok,
  require_project, is_deployment_approver, is_pending, decide_deployment,
}

pub pending-is_pending : (s : DeploymentStatus) → is_pending s ≡ true → s ≡ pending_approval
pending-is_pending pending_approval h = refl
pending-is_pending approved h = cc
pending-is_pending rejected h = cc
pending-is_pending DeploymentStatus.queued h = cc
pending-is_pending DeploymentStatus.executing h = cc
pending-is_pending DeploymentStatus.deploying h = cc
pending-is_pending DeploymentStatus.succeeded h = cc
pending-is_pending DeploymentStatus.failed h = cc
pending-is_pending DeploymentStatus.rolled_back h = cc

other_user :
    (user : User) (project : Project) (d : Deployment)
    → is_deployment_approver user project d ≡ true
    → user.id ≢ d.requested_by_id
unfolding is_deployment_approver
other_user user project d h same =
    let eq : (user.id == d.requested_by_id) ≡ true =
      (nat_Eq.same_iff user.id d.requested_by_id).1 same in
    ground arith

decide_deployment-guards :
    (now : ℕ) (user : User) (project : Project) (decision : ResumeDecision) (d : Deployment)
    (result : Deployment × Outbox) (box : Outbox)
    → decide_deployment now user project decision d box ≡ ok result
    → (require_project user project ≡ true)
      × (is_deployment_approver user project d ≡ true)
      × (is_pending d.status ≡ true)
unfolding decide_deployment
decide_deployment-guards now user project decision d result box h = ground arith

-- An accepted decision was made on a waiting deployment by a user who may see the project, is an
-- approver and did not ask for the deployment; the row names that user and has the status that the
-- decision calls for, and a start is enqueued exactly for an approval.
pub decide_deployment-ok :
    (now : ℕ) (user : User) (project : Project) (decision : ResumeDecision) (d d' : Deployment)
    (box box' : Outbox)
    → decide_deployment now user project decision d box ≡ ok (d', box')
    → (require_project user project ≡ true)
      × (is_deployment_approver user project d ≡ true)
      × (user.id ≢ d.requested_by_id)
      × (d.status ≡ pending_approval)
      × (d'.requested_by_id ≡ d.requested_by_id)
      × (d'.approved_by_id ≡ some user.id)
      × (((decision ≡ approve)
            × (d'.status ≡ approved)
            × (box' ≡ enqueue now "deployment.start" d.id none box))
          ⊎ ((decision ≡ reject) × (d'.status ≡ rejected) × (box' ≡ box)))
unfolding decide_deployment
decide_deployment-ok now user project approve d d' box box' h =
    let (seen, may, waits) = decide_deployment-guards now user project approve d (d', box') box h in
    (
      seen,
      may,
      other_user user project d may,
      pending-is_pending d.status waits,
      ground arith,
      ground arith,
      inl (refl, ground arith, ground arith),
    )
decide_deployment-ok now user project reject d d' box box' h =
    let (seen, may, waits) = decide_deployment-guards now user project reject d (d', box') box h in
    (
      seen,
      may,
      other_user user project d may,
      pending-is_pending d.status waits,
      ground arith,
      ground arith,
      inr (refl, ground arith, ground arith),
    )
