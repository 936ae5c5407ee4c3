-- ===== src/Deployment/Examples.antt =====
-- Deployments at concrete rows.
use pi_development_agent.Base.{
  Text, codes, strip, string_Eq, elem, true, false, [], ◌∷◌, none, some, ◌≡◌, ◌≢◌, refl,
}
use pi_development_agent.States.{approve}
use pi_development_agent.Outbox.Model.{Outbox, enqueue}
use pi_development_agent.Deployment.Model.{
  pending_approval, approved, deploying, succeeded, recovered, Project, Instance, Artifact,
  ValidationRun, Deployment, Tables, User, ok, require_project, is_deployment_approver,
  decide_deployment,
}
use pi_development_agent.Deployment.Request.{
  refused, no_rollback_plan, latest, passed_validation, is_staged, may_go_live, new_deployment,
  request_deployment,
}
use pi_development_agent.Deployment.Admission.{
  request_deployment-requested, request_deployment-production,
}
use pi_development_agent.Deployment.Run.{
  last_100_000, launched, execute_deployment, execute_rollback, Reply, run_smoke_tests, status_of,
  finish_succeeded, write_back, refresh_bridge_deployment,
}
use pi_development_agent.Deployment.Decision.{decide_deployment-ok}
use pi_development_agent.Deployment.Lifecycle.{
  IsLawful, decides, executes, start, step, Reach-IsLawful,
}
use pi_development_agent.Deployment.Recovery.{refresh_bridge_deployment-smoke}

abbrev project : Project
project = record { id = 1; organization_id = 4; phase = "uat" }

abbrev site : Instance
site = record {
  id = 2;
  project_id = 1;
  environment = "production";
  hosting_type = "on_premise";
  is_active = true;
  configured = true;
}

abbrev artifact : Artifact
artifact = record { id = "a1"; project_id = 1; status = "validated" }

abbrev run : ValidationRun
run = record { id = "v1"; artifact_id = "a1"; status = "passed"; created_at = 3 }

abbrev staged : Deployment
staged = record {
  id = "d0";
  project_id = 1;
  instance_id = 9;
  artifact_id = "a1";
  validation_id = "v1";
  environment = "staging";
  status = succeeded;
  requested_by_id = 7;
  approved_by_id = some 8;
  rollback_plan = [];
  logs = [];
  external_job_id = some "d0";
  smoke_test_result = some true;
  prior_artifact_id = none;
  recovery_state = none;
  created_at = 5;
  finished_at = some 6;
}

abbrev tables : Tables
tables = record {
  validations = run ∷ [];
  deployments = staged ∷ [];
  uat_evidence = "a1" ∷ [];
  artifacts = "a1" ∷ "a0" ∷ [];
}

abbrev restore_plan : Text
restore_plan = codes "restore"

abbrev live : Deployment
live = new_deployment "d1" 10 tables project site artifact run 7 restore_plan

abbrev approver : User
approver = record {
  id = 8;
  role = "user";
  memberships = record { organization_id = 4; is_approver = true } ∷ [];
}

abbrev outbox : Outbox
outbox = record { next_id = 1; events = [] }

abbrev approved_row : Deployment
approved_row = record live { approved_by_id = some 8; status = approved }

abbrev outbox_after : Outbox
outbox_after = enqueue 11 "deployment.start" live.id none outbox

no_plan :
    request_deployment "d1" 10 tables project site artifact 7 (codes "  ")
    ≡ refused no_rollback_plan
unfolding request_deployment passed_validation latest may_go_live is_staged elem strip
no_plan = refl

request_deployment-requested_example : live.status ≡ pending_approval
unfolding request_deployment passed_validation latest may_go_live is_staged elem strip
request_deployment-requested_example =
    (request_deployment-requested "d1" 10 tables project site artifact 7 restore_plan live refl).0

request_deployment-production_example : strip restore_plan ≢ []
unfolding request_deployment passed_validation latest may_go_live is_staged elem strip
request_deployment-production_example =
    (request_deployment-production "d1" 10 tables project site artifact 7 restore_plan live refl
      refl).3

decide_deployment-ok_example : approver.id ≢ live.requested_by_id
unfolding decide_deployment require_project is_deployment_approver elem new_deployment
decide_deployment-ok_example =
    (decide_deployment-ok 11 approver project approve live approved_row outbox outbox_after refl).2

decided :
    decide_deployment 11 approver project approve live outbox ≡ ok (approved_row, outbox_after)
unfolding decide_deployment require_project is_deployment_approver elem new_deployment
decided = refl

Reach-IsLawful_example : IsLawful (execute_deployment 12 (launched "d1") approved_row).0
Reach-IsLawful_example = Reach-IsLawful (execute_deployment 12 (launched "d1") approved_row).0 (
    step
      (step (start "d1" 10 tables project site artifact run 7 restore_plan)
        (decides 11 approver project approve outbox outbox_after decided))
      (executes approved_row 12 (launched "d1")))

abbrev running : Deployment
running = record staged { status = deploying; prior_artifact_id = some "a0"; finished_at = none }

abbrev broken_site : Reply
broken_site = record {
  state = "succeeded";
  logs = [];
  health = some 500;
  version = none;
  rollback = launched "d0";
}

abbrev after_refresh : Deployment
after_refresh = record running {
  external_job_id = some "d0";
  status = succeeded;
  logs = codes "\n[ALERT] Smoke tests failed post-deployment. Triggering rollback...";
  smoke_test_result = some false;
  recovery_state = some recovered;
  finished_at = some 20;
}

refresh_bridge_deployment-smoke_example : after_refresh.status ≡ succeeded
unfolding refresh_bridge_deployment finish_succeeded execute_rollback run_smoke_tests status_of
    write_back elem last_100_000
refresh_bridge_deployment-smoke_example =
    (refresh_bridge_deployment-smoke 20 ("a0" ∷ []) broken_site running after_refresh refl refl refl
      refl).0
