-- ===== src/Deployment/Recovery.antt =====
-- How an execution, a refresh and a rollback end.
use pi_development_agent.Base.{
  ℕ, String, string_Eq, nat_Eq, elem, true, false, List, some, arith, ◌≡◌, ◌⊎◌, inl, inr,
  Bool-cases, Option-cases, refl, ap,
}
use pi_development_agent.Deployment.Model.{
  DeploymentStatus, pending_approval, approved, deploying, succeeded, failed, rolled_back,
  recovered, unrecoverable, Deployment,
}
use pi_development_agent.Deployment.Run.{
  Launch, launched, raised, unreadable, Reply, refresh_bridge_deployment, finish_succeeded,
  execute_rollback, write_back, write_status, run_smoke_tests, status_of, answered, alerted,
  is_success,
}

-- A rollback that returns true leaves the row rolled back and recovered, with a prior artifact that
-- the table has and a job that runs it; one that returns false leaves the status as it was and the
-- row unrecoverable.
pub execute_rollback-ends :
    (artifacts : List String) (outcome : Launch) (d : Deployment)
    → (((execute_rollback artifacts outcome d).1 ≡ true)
        × ((execute_rollback artifacts outcome d).0.status ≡ rolled_back)
        × ((execute_rollback artifacts outcome d).0.recovery_state ≡ some recovered)
        × ((prior : String) × (d.prior_artifact_id ≡ some prior) × (elem prior artifacts ≡ true))
        × ((job : String) × (outcome ≡ launched job)
            × ((execute_rollback artifacts outcome d).0.external_job_id ≡ some job)))
      ⊎ (((execute_rollback artifacts outcome d).1 ≡ false)
          × ((execute_rollback artifacts outcome d).0.status ≡ d.status)
          × ((execute_rollback artifacts outcome d).0.recovery_state ≡ some unrecoverable))
unfolding execute_rollback
execute_rollback-ends artifacts (launched job) d = elim (Option-cases d.prior_artifact_id) [
  | inl missing ↦ inr (ground arith, ground arith, ground arith)
  | inr (prior, q) ↦ elim (Bool-cases (elem prior artifacts)) [
    | inl kept ↦
        inl (ground arith, ground arith, ground arith, (prior, q, kept), (job, refl, ground arith))
    | inr gone ↦ inr (ground arith, ground arith, ground arith)
  ]
]
execute_rollback-ends artifacts (raised kind message) d =
    inr (ground arith, ground arith, ground arith)
execute_rollback-ends artifacts (unreadable message) d =
    inr (ground arith, ground arith, ground arith)

write_status_new :
    (loaded row : DeploymentStatus)
    → is_success loaded ≡ false
    → write_status loaded succeeded row ≡ succeeded
write_status_new pending_approval row h = refl
write_status_new approved row h = refl
write_status_new DeploymentStatus.rejected row h = refl
write_status_new DeploymentStatus.queued row h = refl
write_status_new DeploymentStatus.executing row h = refl
write_status_new deploying row h = refl
write_status_new succeeded row h = absurd (cc)
write_status_new failed row h = refl
write_status_new rolled_back row h = refl

finish_succeeded-failed :
    (now : ℕ) (artifacts : List String) (reply : Reply) (d : Deployment)
    → run_smoke_tests reply.health reply.version ≡ false
    → is_success d.status ≡ false
    → ((finish_succeeded now artifacts reply d (answered succeeded reply.logs d)).status
        ≡ succeeded)
      × ((finish_succeeded now artifacts reply d
            (answered succeeded reply.logs d)).smoke_test_result
          ≡ some false)
      × ((finish_succeeded now artifacts reply d (answered succeeded reply.logs d)).recovery_state
          ≡ (execute_rollback artifacts reply.rollback
              (alerted false (answered succeeded reply.logs d))).0.recovery_state)
unfolding finish_succeeded write_back
finish_succeeded-failed now artifacts reply d missed before =
    simp missed (write_status_new d.status _ before, refl, refl)

-- When the bridge reports that the job has succeeded and the smoke tests fail, a row that had not
-- succeeded before ends with the status `succeeded`, whether or not the rollback has worked; its
-- recovery state is the one that the rollback wrote.
pub refresh_bridge_deployment-smoke :
    (now : ℕ) (artifacts : List String) (reply : Reply) (d d' : Deployment)
    → reply.state ≡ "succeeded"
    → run_smoke_tests reply.health reply.version ≡ false
    → is_success d.status ≡ false
    → refresh_bridge_deployment now artifacts reply d ≡ some d'
    → (d'.status ≡ succeeded)
      × (d'.smoke_test_result ≡ some false)
      × (d'.recovery_state
          ≡ (execute_rollback artifacts reply.rollback
              (alerted false (answered succeeded reply.logs d))).0.recovery_state)
unfolding refresh_bridge_deployment status_of
refresh_bridge_deployment-smoke now artifacts reply d d' state missed before h =
    let found : status_of reply.state ≡ some succeeded = ap status_of state in
    ground (arith, found, finish_succeeded-failed now artifacts reply d missed before)
