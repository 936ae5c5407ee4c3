-- ===== src/Runs/Requests.antt =====
-- The handlers of backend/main.py that act on a run: `cancel_run`, `retry_run`,
-- `answer_run_question`, and `decide_run_action` for an action of a run, with `can_approve`.
pub mod Approval
pub mod Retry
use pi_development_agent.Base.{
  ℕ, leb, Text, codes, String, string_Eq, nat_Eq, option_Eq, ◌==◌, elem, Bool, true, false, not,
  ◌&&◌, ◌||◌, List, [], ◌∷◌, Option, none, some, find, any, map, if◌then◌else◌,
}
use pi_development_agent.States.{
  RunStatus, ActionStatus, QuestionStatus, ResumeDecision, approve, reject,
}
use pi_development_agent.Outbox.Model.{ResumePayload}
use pi_development_agent.Planner.Task.{Task, TaskStatus, is_failed, is_in_progress}
use pi_development_agent.Deployment.Model.{Project, User, Response, http_error, ok, require_project}
use pi_development_agent.Permissions.Resource.{resource_for}
use pi_development_agent.Permissions.Grants.{Grant, Verdict}
use pi_development_agent.Permissions.Table.{set_grant}
use pi_development_agent.Runs.Model.{AgentRun, PendingAction, AgentQuestion, World}
use pi_development_agent.Runs.Subtasks.{emits, enqueues, on_run, on_graph, with_status, on_action}

abbrev is_awaited : PendingAction → Bool
is_awaited a = elim a.status [ ActionStatus.pending ↦ true | _ ↦ false ]

abbrev is_asked : AgentQuestion → Bool
is_asked q = elim q.status [ QuestionStatus.pending ↦ true | _ ↦ false ]

-- the common end of a run that is cancelled at once
unfoldable pub cancel_now : ℕ → World → World
cancel_now now w =
    let over = on_run (λ r. record r { status = RunStatus.cancelled; finished_at = some now }) w in
    let cleared : World = elim w.run.active_task_id [
      | none ↦ over
      | some id ↦
          on_run (λ r. record r { active_task_id = none })
            (emits "task.cancelled" (some id)
              (on_graph (some id) (with_status TaskStatus.cancelled) over))
    ] in
    emits "run.cancelled" none (emits "run.cancellation_requested" none cleared)

unfoldable pub cancel_question : World → World
cancel_question w = elim w.question [
  | none ↦ w
  | some q ↦
      if is_asked q
      then record w { question = some (record q { status = QuestionStatus.cancelled }) }
      else w
]

-- an action that the run waits for is rejected, and its resumption cancels the run
unfoldable pub cancel_action : ℕ → ℕ → PendingAction → World → World
cancel_action now user_id action w = emits "run.cancellation_requested" none (
    enqueues now "action.resume"
      (some (record {
        action_id = action.id;
        decision = reject;
        cancel_after = true;
        auto_approve_task = false;
      }))
      (on_run (λ r. record r { status = RunStatus.queued })
        (record w {
          actions =
              on_action action.id
                (λ a. record a {
                  status = ActionStatus.rejected;
                  decided_by_id = some user_id;
                  decided_at = some now;
                })
                w.actions;
        })))

unfoldable pub cancel_run : ℕ → User → Project → World → Response World
cancel_run now user project w =
    if not (require_project user project) then http_error 404 else elim w.run.status [
      | RunStatus.queued ↦ ok (cancel_now now w)
      | RunStatus.running ↦ ok (
          emits "run.cancellation_requested" none
            (on_run (λ r. record r { status = RunStatus.cancelling }) w))
      | RunStatus.awaiting_question ↦ ok (cancel_now now (cancel_question w))
      | RunStatus.awaiting_approval ↦ elim (find is_awaited w.actions) [
        | none ↦ ok (cancel_now now w)
        | some action ↦ ok (cancel_action now user.id action w)
      ]
      | _ ↦ http_error 409
    ]

-- `retry_run`: what the new run takes over of a graph
abbrev is_unfinished : TaskStatus → Bool
is_unfinished status = is_failed status || is_in_progress status

abbrev pub renew : Task → Task
renew t =
    if is_unfinished t.status then record t { status = TaskStatus.pending; result = none } else t

unfoldable pub preserved_graph : List Task → List Task
preserved_graph graph = map renew graph

abbrev is_retryable : RunStatus → Bool
is_retryable RunStatus.failed = true
is_retryable RunStatus.interrupted = true
is_retryable RunStatus.expired = true
is_retryable _ = false

abbrev is_active_run : RunStatus → Bool
is_active_run RunStatus.queued = true
is_active_run RunStatus.running = true
is_active_run RunStatus.awaiting_question = true
is_active_run RunStatus.awaiting_approval = true
is_active_run RunStatus.cancelling = true
is_active_run _ = false

abbrev blocks : AgentRun → AgentRun → Bool
blocks run other =
    other.project_id == run.project_id && other.intent == "write" && is_active_run other.status

-- the new run, with the id that it is given
unfoldable pub successor : String → AgentRun → AgentRun
successor id run = record {
  id = id;
  project_id = run.project_id;
  intent = run.intent;
  status = RunStatus.queued;
  attempt = 0;
  started_at = none;
  heartbeat_at = none;
  finished_at = none;
  task_graph = if run.intent == "read_only" then [] else preserved_graph run.task_graph;
  active_task_id = none;
  subtask_heartbeat_at = none;
  task_retries = [];
  retryable = false;
  error_category = none;
  error_message = none;
}

-- `budget` is the refusal of `enforce_budget`, if it
-- refuses; the tables that the handler writes are those of the new run.
unfoldable pub retry_run :
    ℕ → User → Project → Option ℕ → String → List AgentRun → World → Response World
retry_run now user project budget id runs w =
    if not (require_project user project)
    then http_error 404
    else if not (is_retryable w.run.status)
    then http_error 409
    else if any (blocks w.run) runs
    then http_error 409
    else elim budget [
      | some code ↦ http_error code
      | none ↦ ok (
          enqueues now "run.start" none (
            emits "run.queued" none (record w {
              run = successor id w.run;
              subtasks = [];
              actions = [];
              question = none;
            })))
    ]

-- `answer_run_question`; the answer is handed to the agent in between.
unfoldable pub answer_run_question : ℕ → User → Project → Text → World → Response World
answer_run_question now user project answer w =
    if not (require_project user project) then http_error 404 else elim w.run.status [
      | RunStatus.awaiting_question ↦ elim w.question [
        | none ↦ http_error 409
        | some q ↦
            if is_asked q && not (leb q.expires_at now)
            then ok (
                enqueues now "run.resume" none (
                  emits "question.answered" none (
                    on_run (λ r. record r { status = RunStatus.queued })
                      (record w {
                        question = some (record q {
                          status = QuestionStatus.answered;
                          answer = some answer;
                          answered_at = some now;
                        });
                      }))))
            else http_error 409
      ]
      | _ ↦ http_error 409
    ]

unfoldable pub can_approve : User → Project → PendingAction → Bool
can_approve user project action =
    if elem action.risk_class ("D" ∷ "E" ∷ [])
    then not (user.id == action.requested_by_id)
      && (user.role == "admin"
          || any (λ m. m.organization_id == project.organization_id && m.is_approver)
              user.memberships)
    else user.id == action.requested_by_id

-- the budget is asked for approvals only
abbrev over_budget : ResumeDecision → Option ℕ → Option ℕ
over_budget approve budget = budget
over_budget reject budget = none

abbrev pub decided_status : ResumeDecision → ActionStatus
decided_status approve = ActionStatus.approved
decided_status reject = ActionStatus.rejected

-- an approval that is to be remembered becomes a grant until the action would have expired
abbrev remembered : ResumeDecision → Option String → PendingAction → User → List Grant → List Grant
remembered approve (some id) action user grants =
    set_grant id action.project_id user.id (resource_for action.tool_name action.arguments)
      Verdict.allow (some action.expires_at) grants
remembered approve none action user grants = grants
remembered reject remember action user grants = grants

-- the run behind the decision
unfoldable pub decided_world : ℕ → User → ResumeDecision → Bool → PendingAction → World → World
decided_world now user decision auto action w = emits "run.queued" w.run.active_task_id (
    emits "approval.decided" none (
      enqueues now "action.resume"
        (some (record {
          action_id = action.id;
          decision = decision;
          cancel_after = false;
          auto_approve_task = auto;
        }))
        (on_run (λ r. record r { status = RunStatus.queued })
          (record w {
            actions =
                on_action action.id
                  (λ a. record a {
                    status = decided_status decision;
                    decided_by_id = some user.id;
                    decided_at = some now;
                  })
                  w.actions;
          }))))

-- `decide_run_action` for an action of this run; `auto` is the flag `auto_approve_task`, and
-- `budget` the refusal of `enforce_budget`. A grant that is to be remembered gets the id `id`.
unfoldable pub decide_run_action :
    ℕ
    → User
    → Project
    → Option ℕ
    → ResumeDecision
    → Bool
    → Option String
    → PendingAction
    → List Grant
    → World
    → Response (World × List Grant)
decide_run_action now user project budget decision auto remember action grants w =
    if not (require_project user project)
    then http_error 404
    else if not (can_approve user project action)
    then http_error 403
    else if not (is_awaited action && not (leb action.expires_at now))
    then http_error 409
    else elim (over_budget decision budget) [
      | some code ↦ http_error code
      | none ↦ ok (
        decided_world now user decision auto action w,
        remembered decision remember action user grants,
      )
    ]
