-- ===== src/Deployment/Lifecycle.antt =====
-- A deployment from the request on: every change of its row that the API and the workers make.
use pi_development_agent.Base.{
  ℕ, Text, String, string_Eq, nat_Eq, List, Option, none, some, ◌≡◌, ◌≢◌, ◌⊎◌, inl, inr, refl, sym,
  subst, ◌∙◌,
}
use pi_development_agent.States.{ResumeDecision}
use pi_development_agent.Outbox.Model.{Outbox}
use pi_development_agent.Deployment.Model.{
  pending_approval, Project, Instance, Artifact, ValidationRun, Deployment, Tables, User, ok,
  decide_deployment,
}
use pi_development_agent.Deployment.Request.{new_deployment}
use pi_development_agent.Deployment.Run.{Launch, execute_deployment, Reply, refresh_deployment}
use pi_development_agent.Deployment.Decision.{decide_deployment-ok}
use pi_development_agent.Deployment.Keeps.{
  execute_deployment-keeps, execute_deployment-waiting, refresh_deployment-keeps,
}

-- Another user than the one who asked for it has decided it.
unfoldable pub IsDecided : Deployment → Type 0
IsDecided d = (u : ℕ) × (d.approved_by_id ≡ some u) × (u ≢ d.requested_by_id)

-- It waits and nothing of it runs, or it has been decided.
unfoldable pub IsLawful : Deployment → Type 0
IsLawful d = ((d.status ≡ pending_approval) × (d.external_job_id ≡ none)) ⊎ IsDecided d

pub data Step : Deployment → Deployment → Type 0 where
  decides :
      {d d' : Deployment} (now : ℕ) (user : User) (project : Project) (decision : ResumeDecision)
      (box box' : Outbox)
      → decide_deployment now user project decision d box ≡ ok (d', box')
      → Step d d'
  executes :
      (d : Deployment) (now : ℕ) (outcome : Launch) → Step d (execute_deployment now outcome d).0
  refreshes :
      {d d' : Deployment} (now : ℕ) (artifacts : List String) (hosting_type : String)
      (answer : Option Reply) (user : User) (project : Project)
      → refresh_deployment now artifacts hosting_type answer user project d ≡ ok d'
      → Step d d'

-- The rows that grow out of a request.
pub data Reach : Deployment → Type 0 where
  start :
      (id : String) (now : ℕ) (db : Tables) (project : Project) (instance' : Instance)
      (artifact : Artifact) (validation : ValidationRun) (requested_by_id : ℕ)
      (rollback_plan : Text)
      → Reach (
          new_deployment id now db project instance' artifact validation requested_by_id
            rollback_plan)
  step : {d d' : Deployment} → Reach d → Step d d' → Reach d'

IsDecided-keeps :
    (d d' : Deployment)
    → d'.approved_by_id ≡ d.approved_by_id
    → d'.requested_by_id ≡ d.requested_by_id
    → IsDecided d
    → IsDecided d'
unfolding IsDecided
IsDecided-keeps d d' same_user same_owner (u, named, other) =
    (u, same_user ∙ named, λ same. other (same ∙ same_owner))

decide_deployment-IsDecided :
    (now : ℕ) (user : User) (project : Project) (decision : ResumeDecision) (d d' : Deployment)
    (box box' : Outbox)
    → decide_deployment now user project decision d box ≡ ok (d', box')
    → IsDecided d'
unfolding IsDecided
decide_deployment-IsDecided now user project decision d d' box box' h =
    let (seen, may, other, waits, owner, named, _) =
      decide_deployment-ok now user project decision d d' box box' h in
    (user.id, named, λ same. other (same ∙ owner))

execute_deployment-IsLawful :
    (now : ℕ) (outcome : Launch) (d : Deployment)
    → IsLawful d
    → IsLawful (execute_deployment now outcome d).0
unfolding IsLawful
execute_deployment-IsLawful now outcome d (inl (waits, idle)) =
    subst IsLawful (sym (execute_deployment-waiting now outcome d waits)) (inl (waits, idle))
execute_deployment-IsLawful now outcome d (inr decided) =
    let (user, owner) = execute_deployment-keeps now outcome d in
    inr (IsDecided-keeps d _ user owner decided)

Step-IsLawful : {d d' : Deployment} → Step d d' → IsLawful d → IsLawful d'
unfolding IsLawful
Step-IsLawful (decides now user project decision box box' h) lawful =
    inr (decide_deployment-IsDecided now user project decision _ _ box box' h)
Step-IsLawful (executes d now outcome) lawful = execute_deployment-IsLawful now outcome d lawful
Step-IsLawful (refreshes now artifacts hosting_type answer user project h) lawful =
    elim (refresh_deployment-keeps now artifacts hosting_type answer user project _ _ h) [
      | inl same ↦ subst IsLawful (sym same) lawful
      | inr (job, named, owner) ↦ elim lawful [
        | inl (waits, idle) ↦ absurd (job idle)
        | inr decided ↦ inr (IsDecided-keeps _ _ named owner decided)
      ]
    ]

-- In every state that a requested deployment reaches it waits for approval and has no job, or a user
-- other than the one who asked for it has decided it.
pub Reach-IsLawful : (d : Deployment) → Reach d → IsLawful d
unfolding IsLawful new_deployment
Reach-IsLawful d
      (start id now db project instance' artifact validation requested_by_id rollback_plan) =
    inl (refl, refl)
Reach-IsLawful d (step r s) = Step-IsLawful s (Reach-IsLawful _ r)
