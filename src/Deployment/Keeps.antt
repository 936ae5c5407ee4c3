-- ===== src/Deployment/Keeps.antt =====
-- Who asked for a deployment and who decided it stays when it runs.
use pi_development_agent.Base.{
  ℕ, String, string_Eq, nat_Eq, ◌==◌, false, List, Option, none, some, arith, ◌≡◌, ◌≢◌, ◌⊎◌, inl,
  inr, Bool-cases, Option-cases, refl, ap,
}
use pi_development_agent.Deployment.Model.{pending_approval, Project, Deployment, User, ok}
use pi_development_agent.Deployment.Run.{
  Launch, launched, raised, unreadable, is_startable, execute_deployment, Reply,
  refresh_bridge_deployment, refresh_deployment, execute_rollback, finish_succeeded, alerted,
  answered, is_success, write_back, run_smoke_tests, status_of,
}

pub execute_deployment-keeps :
    (now : ℕ) (outcome : Launch) (d : Deployment)
    → ((execute_deployment now outcome d).0.approved_by_id ≡ d.approved_by_id)
      × ((execute_deployment now outcome d).0.requested_by_id ≡ d.requested_by_id)
unfolding execute_deployment
execute_deployment-keeps now (launched job) d = ground arith
execute_deployment-keeps now (raised kind message) d = ground arith
execute_deployment-keeps now (unreadable message) d = ground arith

pub execute_deployment-waiting :
    (now : ℕ) (outcome : Launch) (d : Deployment)
    → d.status ≡ pending_approval
    → (execute_deployment now outcome d).0 ≡ d
unfolding execute_deployment
execute_deployment-waiting now outcome d waits =
    let idle : is_startable d.status ≡ false = ap is_startable waits in ground (arith, idle)

execute_rollback-keeps :
    (artifacts : List String) (outcome : Launch) (d : Deployment)
    → ((execute_rollback artifacts outcome d).0.approved_by_id ≡ d.approved_by_id)
      × ((execute_rollback artifacts outcome d).0.requested_by_id ≡ d.requested_by_id)
unfolding execute_rollback
execute_rollback-keeps artifacts (launched job) d = ground arith
execute_rollback-keeps artifacts (raised kind message) d = ground arith
execute_rollback-keeps artifacts (unreadable message) d = ground arith

finish_succeeded-keeps :
    (now : ℕ) (artifacts : List String) (reply : Reply) (loaded held : Deployment)
    → held.approved_by_id ≡ loaded.approved_by_id
    → held.requested_by_id ≡ loaded.requested_by_id
    → ((finish_succeeded now artifacts reply loaded held).approved_by_id ≡ loaded.approved_by_id)
      × ((finish_succeeded now artifacts reply loaded held).requested_by_id
          ≡ loaded.requested_by_id)
unfolding finish_succeeded write_back
finish_succeeded-keeps now artifacts reply loaded held user owner =
    elim (Bool-cases (run_smoke_tests reply.health reply.version)) [
      | inl passed ↦ ground (arith, passed)
      | inr missed ↦ ground (
        arith,
        missed,
        execute_rollback-keeps artifacts reply.rollback
            (alerted (run_smoke_tests reply.health reply.version) held),
      )
    ]

refresh_bridge_deployment-keeps :
    (now : ℕ) (artifacts : List String) (reply : Reply) (d d' : Deployment)
    → refresh_bridge_deployment now artifacts reply d ≡ some d'
    → (d'.approved_by_id ≡ d.approved_by_id) × (d'.requested_by_id ≡ d.requested_by_id)
unfolding refresh_bridge_deployment write_back
refresh_bridge_deployment-keeps now artifacts reply d d' h =
    elim (Option-cases (status_of reply.state)) [
      | inl unknown ↦ absurd (ground arith)
      | inr (status, q) ↦ elim (Bool-cases (is_success status)) [
        | inl success ↦ ground (
          arith,
          finish_succeeded-keeps now artifacts reply d (answered status reply.logs d) refl refl,
        )
        | inr other ↦ ground arith
      ]
    ]

-- A refresh leaves a deployment that has no job as it is, and changes who asked and who decided for
-- none.
pub refresh_deployment-keeps :
    (now : ℕ) (artifacts : List String) (hosting_type : String) (answer : Option Reply)
    (user : User) (project : Project) (d d' : Deployment)
    → refresh_deployment now artifacts hosting_type answer user project d ≡ ok d'
    → (d' ≡ d)
      ⊎ ((d.external_job_id ≢ none)
          × (d'.approved_by_id ≡ d.approved_by_id)
          × (d'.requested_by_id ≡ d.requested_by_id))
unfolding refresh_deployment
refresh_deployment-keeps now artifacts hosting_type answer user project d d' h =
    elim (Bool-cases (hosting_type == "on_premise")) [
      | inl bridge ↦ elim (Option-cases d.external_job_id) [
        | inl idle ↦ inl (ground arith)
        | inr (job, q) ↦ elim (Option-cases answer) [
          | inl silent ↦ absurd (ground arith)
          | inr (reply, a) ↦ elim (Option-cases (refresh_bridge_deployment now artifacts reply d)) [
            | inl unknown ↦ absurd (ground arith)
            | inr (d2, e) ↦
                ground (arith, refresh_bridge_deployment-keeps now artifacts reply d d2 e)
          ]
        ]
      ]
      | inr other ↦ inl (ground arith)
    ]
