-- ===== src/Deployment/Model.antt =====
-- The tables that deployments read and write, and who may see and decide one.
use pi_development_agent.Base.{
  ℕ, Text, String, string_Eq, nat_Eq, ◌==◌, elem, Bool, true, false, not, ◌&&◌, ◌||◌, List, map,
  any, Option, none, some, if◌then◌else◌,
}
use pi_development_agent.States.{ResumeDecision, approve, reject}
use pi_development_agent.Outbox.Model.{Outbox, enqueue}

pub data DeploymentStatus : Type 0 where
  pending_approval approved rejected queued executing : DeploymentStatus
  deploying succeeded failed rolled_back : DeploymentStatus

pub data RecoveryState : Type 0 where
  recovering recovered unrecoverable : RecoveryState

pub record Project : Type 0 where
  pub id : ℕ
  pub organization_id : ℕ
  pub phase : String

-- `configured` says that `deployment_config_encrypted` is neither null nor empty.
pub record Instance : Type 0 where
  pub id : ℕ
  pub project_id : ℕ
  pub environment : String
  pub hosting_type : String
  pub is_active : Bool
  pub configured : Bool

pub record Artifact : Type 0 where
  pub id : String
  pub project_id : ℕ
  pub status : String

pub record ValidationRun : Type 0 where
  pub id : String
  pub artifact_id : String
  pub status : String
  pub created_at : ℕ

pub record Deployment : Type 0 where
  pub id : String
  pub project_id : ℕ
  pub instance_id : ℕ
  pub artifact_id : String
  pub validation_id : String
  pub environment : String
  pub status : DeploymentStatus
  pub requested_by_id : ℕ
  pub approved_by_id : Option ℕ
  pub rollback_plan : Text
  pub logs : Text
  pub external_job_id : Option String
  pub smoke_test_result : Option Bool
  pub prior_artifact_id : Option String
  pub recovery_state : Option RecoveryState
  pub created_at : ℕ
  pub finished_at : Option ℕ

pub record Tables : Type 0 where
  pub validations : List ValidationRun
  pub deployments : List Deployment
  pub uat_evidence : List String
  pub artifacts : List String

pub record Membership : Type 0 where
  pub organization_id : ℕ
  pub is_approver : Bool

pub record User : Type 0 where
  pub id : ℕ
  pub role : String
  pub memberships : List Membership

-- What a handler answers: a value, or the status code of an `HTTPException`.
pub data Response {ℓ} (A : Type ℓ) : Type ℓ where
  http_error : ℕ → Response A
  ok : A → Response A

-- `require_project` for a project that there is
unfoldable pub require_project : User → Project → Bool
require_project user project =
    user.role == "admin"
    || elem project.organization_id (map (λ (m : Membership). m.organization_id) user.memberships)

-- who may decide a deployment
unfoldable pub is_deployment_approver : User → Project → Deployment → Bool
is_deployment_approver user project deployment =
    not (user.id == deployment.requested_by_id)
    && (user.role == "admin"
        || any (λ m. m.organization_id == project.organization_id && m.is_approver)
            user.memberships)

abbrev pub is_pending : DeploymentStatus → Bool
is_pending pending_approval = true
is_pending _ = false

-- `decide_deployment` on a row that there is
unfoldable pub decide_deployment :
    ℕ → User → Project → ResumeDecision → Deployment → Outbox → Response (Deployment × Outbox)
decide_deployment now user project decision deployment box =
    if not (require_project user project)
    then http_error 404
    else if not (is_deployment_approver user project deployment)
    then http_error 403
    else if not (is_pending deployment.status)
    then http_error 409
    else elim decision [
      | approve ↦ ok (
        record deployment { approved_by_id = some user.id; status = DeploymentStatus.approved },
        enqueue now "deployment.start" deployment.id none box,
      )
      | reject ↦ ok (
        record deployment {
          approved_by_id = some user.id;
          status = DeploymentStatus.rejected;
          finished_at = some now;
        },
        box,
      )
    ]

-- `pending_deployments`: what the user sees of the rows, which are in the order of `created_at`
unfoldable pub is_visible : User → (ℕ → Project) → Deployment → Bool
is_visible user project_of deployment =
    is_pending deployment.status
    && is_deployment_approver user (project_of deployment.project_id) deployment
