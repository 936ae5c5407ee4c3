-- ===== src/Deployment/Request.antt =====
-- `request_deployment`: what may be deployed where.
use pi_development_agent.Base.{
  ℕ, Text, strip, String, string_Eq, nat_Eq, ◌==◌, elem, Bool, true, false, not, ◌&&◌, ◌||◌, List,
  [], ◌∷◌, filter, any, Option, none, some, if◌then◌else◌, leb,
}
use pi_development_agent.Deployment.Model.{
  DeploymentStatus, pending_approval, succeeded, Project, Instance, Artifact, ValidationRun,
  Deployment, Tables,
}

-- the texts of the `ValueError`s
pub data Refusal : Type 0 where
  not_of_project bad_target no_bridge not_validated not_staged no_rollback_plan : Refusal

pub data Requested : Type 0 where
  refused : Refusal → Requested
  requested : Deployment → Requested

abbrev pub has_succeeded : DeploymentStatus → Bool
has_succeeded succeeded = true
has_succeeded _ = false

abbrev pub is_blank : Text → Bool
is_blank [] = true
is_blank (c ∷ cs) = false

-- `order_by(created_at.desc()).first()`
module _ {A : Type 0} (created_at : A → ℕ) where
  unfoldable pub latest : List A → Option A
  latest [] = none
  latest (x ∷ xs) = elim (latest xs) [
    | none ↦ some x
    | some y ↦ if leb (created_at y) (created_at x) then some x else some y
  ]

unfoldable pub passed_validation : List ValidationRun → Artifact → Option ValidationRun
passed_validation validations artifact =
    latest (λ (v : ValidationRun). v.created_at)
      (filter (λ v. v.artifact_id == artifact.id && v.status == "passed") validations)

unfoldable pub is_staged : Artifact → Deployment → Bool
is_staged artifact d =
    d.artifact_id == artifact.id && d.environment == "staging" && has_succeeded d.status

-- what production asks for, beside the plan
unfoldable pub may_go_live : Tables → Project → Artifact → Bool
may_go_live db project artifact =
    any (is_staged artifact) db.deployments
    && elem artifact.id db.uat_evidence
    && (project.phase == "uat" || project.phase == "ready_for_production")

unfoldable pub prior_deployment : List Deployment → Instance → Option Deployment
prior_deployment deployments instance' =
    latest (λ (d : Deployment). d.created_at)
      (filter
        (λ d.
          d.instance_id == instance'.id
          && d.environment == instance'.environment
          && has_succeeded d.status)
        deployments)

-- the row, with the id and the time that the table gives it
unfoldable pub new_deployment :
    String → ℕ → Tables → Project → Instance → Artifact → ValidationRun → ℕ → Text → Deployment
new_deployment id now db project instance' artifact validation requested_by_id rollback_plan =
    record {
      id = id;
      project_id = project.id;
      instance_id = instance'.id;
      artifact_id = artifact.id;
      validation_id = validation.id;
      environment = instance'.environment;
      status = pending_approval;
      requested_by_id = requested_by_id;
      approved_by_id = none;
      rollback_plan = rollback_plan;
      logs = [];
      external_job_id = none;
      smoke_test_result = none;
      prior_artifact_id = elim (prior_deployment db.deployments instance') [
        | none ↦ none
        | some d ↦ some d.artifact_id
      ];
      recovery_state = none;
      created_at = now;
      finished_at = none;
    }

unfoldable pub request_deployment :
    String → ℕ → Tables → Project → Instance → Artifact → ℕ → Text → Requested
request_deployment id now db project instance' artifact requested_by_id rollback_plan =
    if not (instance'.project_id == project.id && artifact.project_id == project.id)
    then refused not_of_project
    else if not (instance'.environment == "staging" || instance'.environment == "production")
    then refused bad_target
    else if not (instance'.is_active && instance'.configured)
    then refused no_bridge
    else elim (passed_validation db.validations artifact) [
      | none ↦ refused not_validated
      | some validation ↦
          if not (artifact.status == "validated")
          then refused not_validated
          else if instance'.environment == "production" && not (may_go_live db project artifact)
          then refused not_staged
          else if instance'.environment == "production" && is_blank (strip rollback_plan)
          then refused no_rollback_plan
          else requested (
              new_deployment id now db project instance' artifact validation requested_by_id
                rollback_plan)
    ]
