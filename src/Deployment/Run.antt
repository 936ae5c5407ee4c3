-- ===== src/Deployment/Run.antt =====
-- What a worker and the API do with a deployment: `execute_deployment`, `execute_rollback`,
-- `run_smoke_tests`, `refresh_bridge_deployment` and the handler `refresh_deployment`.
use pi_development_agent.Base.{
  ℕ, ◌-◌, Text, codes, take, drop, length, String, string_Eq, nat_Eq, list_Eq, ◌==◌, elem, Bool,
  true, false, not, ◌&&◌, ◌||◌, List, ◌∷◌, ◌++◌, Option, none, some, if◌then◌else◌,
}
use pi_development_agent.Deployment.Model.{
  DeploymentStatus, deploying, succeeded, failed, rolled_back, approved, queued, executing,
  pending_approval, rejected, recovered, unrecoverable, Project, Deployment, User, Response,
  http_error, ok, require_project,
}

-- How `execute_odoo_sh` or `execute_bridge` ended: the id of the job that runs, or the type and the
-- message of what was raised. `unreadable` is for what is raised before, while the configuration is
-- decrypted.
pub data Launch : Type 0 where
  launched : String → Launch
  raised : Text → Text → Launch
  unreadable : Text → Launch

abbrev launch : String → Deployment → Deployment
launch job d = record d { external_job_id = some job; status = deploying }

-- `text[:100_000]`
unfoldable pub first_100_000 : Text → Text
first_100_000 text = take 100_000 text

-- `text[-100_000:]`
unfoldable pub last_100_000 : Text → Text
last_100_000 text = drop (length text - 100_000) text

abbrev pub is_startable : DeploymentStatus → Bool
is_startable approved = true
is_startable queued = true
is_startable _ = false

-- `execute_deployment` on a row that there is; the flag says that it raised.
unfoldable pub execute_deployment : ℕ → Launch → Deployment → Deployment × Bool
execute_deployment now outcome d =
    if not (is_startable d.status) then (d, false) else elim outcome [
      | launched job ↦ (launch job (record d { status = executing }), false)
      | raised kind message ↦ (
        record d {
          status = failed;
          logs = first_100_000 (kind ++ codes ": " ++ message);
          finished_at = some now;
        },
        true,
      )
      | unreadable message ↦ (d, true)
    ]

abbrev give_up : Deployment → Deployment
give_up d = record d { recovery_state = some unrecoverable }

abbrev rollback_failed : Text → Deployment → Deployment
rollback_failed message d = record d {
  recovery_state = some unrecoverable;
  logs = d.logs ++ b'\n' ∷ codes "Rollback failed: " ++ message;
}

unfoldable pub execute_rollback : List String → Launch → Deployment → Deployment × Bool
execute_rollback artifacts outcome d = elim d.prior_artifact_id [
  | none ↦ (give_up d, false)
  | some prior ↦
      if elem prior artifacts
      then elim outcome [
        | launched job ↦
            (record (launch job d) { recovery_state = some recovered; status = rolled_back }, true)
        | raised kind message ↦ (rollback_failed message d, false)
        | unreadable message ↦ (rollback_failed message d, false)
      ]
      else (give_up d, false)
]

-- `run_smoke_tests`: the status codes of the two requests, none where one raised
unfoldable pub run_smoke_tests : Option ℕ → Option ℕ → Bool
run_smoke_tests health version =
    elim health [ none ↦ false | some code ↦ code == 200 || code == 404 ]
    && elim version [ none ↦ false | some code ↦ code == 200 ]

-- the table `mapping`; no entry is a `KeyError`
unfoldable pub status_of : String → Option DeploymentStatus
status_of state =
    if state == "queued" || state == "running"
    then some deploying
    else if state == "succeeded"
    then some succeeded
    else if state == "failed"
    then some failed
    else if state == "rolled_back"
    then some rolled_back
    else none

abbrev pub is_success : DeploymentStatus → Bool
is_success succeeded = true
is_success _ = false

abbrev pub is_over : DeploymentStatus → Bool
is_over succeeded = true
is_over failed = true
is_over rolled_back = true
is_over _ = false

-- what the remote side answers while a deployment is refreshed
pub record Reply : Type 0 where
  pub state : String
  pub logs : Text
  pub health : Option ℕ
  pub version : Option ℕ
  pub rollback : Launch

abbrev alert : Text
alert = b'\n' ∷ codes "[ALERT] Smoke tests failed post-deployment. Triggering rollback..."

abbrev rank : DeploymentStatus → ℕ
rank pending_approval = 0
rank approved = 1
rank rejected = 2
rank queued = 3
rank executing = 4
rank deploying = 5
rank succeeded = 6
rank failed = 7
rank rolled_back = 8

-- A commit writes the columns that the object has changed since it was loaded.
abbrev pub write_status : DeploymentStatus → DeploymentStatus → DeploymentStatus → DeploymentStatus
write_status loaded held row = if rank held == rank loaded then row else held

abbrev write_logs : Text → Text → Text → Text
write_logs loaded held row = if held == loaded then row else held

-- The commit of the object `held`, loaded as `loaded`, on the row as it is by then. The other
-- columns of `held` are those of the row: `execute_rollback` merges them into it.
unfoldable pub write_back : Deployment → Deployment → Deployment → Deployment
write_back loaded held row = record row {
  status = write_status loaded.status held.status row.status;
  logs = write_logs loaded.logs held.logs row.logs;
  smoke_test_result = held.smoke_test_result;
  finished_at = held.finished_at;
}

abbrev close : ℕ → Deployment → Deployment
close now d = if is_over d.status then record d { finished_at = some now } else d

abbrev pub alerted : Bool → Deployment → Deployment
alerted smoke d = record d { smoke_test_result = some smoke; logs = d.logs ++ alert }

abbrev pub answered : DeploymentStatus → Text → Deployment → Deployment
answered status logs d = record d { status = status; logs = last_100_000 logs }

-- The branch of `refresh_bridge_deployment` for a job that has succeeded. The rollback has a session
-- of its own: it commits a merged copy, and the caller's object does not see what it writes.
unfoldable pub finish_succeeded : ℕ → List String → Reply → Deployment → Deployment → Deployment
finish_succeeded now artifacts reply loaded held =
    let smoke = run_smoke_tests reply.health reply.version in
    if smoke
    then write_back loaded (close now (record held { smoke_test_result = some smoke })) loaded
    else write_back loaded (close now (alerted smoke held))
        (execute_rollback artifacts reply.rollback (alerted smoke held)).0

-- `refresh_bridge_deployment` and the commit of its caller
unfoldable pub refresh_bridge_deployment : ℕ → List String → Reply → Deployment → Option Deployment
refresh_bridge_deployment now artifacts reply loaded = elim (status_of reply.state) [
  | none ↦ none
  | some status ↦
      let held = answered status reply.logs loaded in
      if is_success status
      then some (finish_succeeded now artifacts reply loaded held)
      else some (write_back loaded (close now held) loaded)
]

-- The handler; without a reply the call of the bridge raised.
unfoldable pub refresh_deployment :
    ℕ → List String → String → Option Reply → User → Project → Deployment → Response Deployment
refresh_deployment now artifacts hosting_type answer user project d =
    if not (require_project user project)
    then http_error 404
    else if hosting_type == "on_premise"
    then elim d.external_job_id [
      | none ↦ ok d
      | some job ↦ elim answer [
        | none ↦ http_error 502
        | some reply ↦ elim (refresh_bridge_deployment now artifacts reply d) [
          | none ↦ http_error 502
          | some d' ↦ ok d'
        ]
      ]
    ]
    else ok d
