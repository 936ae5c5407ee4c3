-- ===== src/Runs/Watchdog.antt =====
-- `recover_stale_work` of backend/worker.py, as it treats the rows of one run; its last part, on the
-- outbox, is `release_stale` of Outbox. Each `emit` flushes, so that a later part sees what an earlier
-- one has written. A run with an active task has a graph.
use pi_development_agent.Base.{
  ℕ, ◌+◌, ◌-◌, ltb, leb, Text, codes, decimal, String, string_Eq, Bool, true, false, ◌&&◌, List, [],
  ◌∷◌, ◌++◌, Option, none, some, lookup, insert, if◌then◌else◌,
}
use pi_development_agent.States.{
  RunStatus, SubtaskStatus, ActionStatus, QuestionStatus, approve, reject,
}
use pi_development_agent.Outbox.Model.{ResumePayload}
use pi_development_agent.Planner.Task.{TaskStatus}
use pi_development_agent.Repair.Requeue.{max_task_retries}
use pi_development_agent.Runs.Model.{AgentRun, PendingAction, AgentQuestion, World}
use pi_development_agent.Runs.Subtasks.{
  emits, enqueues, on_run, on_subtask, set_subtask_status, set_child, on_graph, with_status,
}

-- five minutes, and the two limits for heartbeats, in microseconds
abbrev stale_after : ℕ
stale_after = 300_000_000

abbrev subtask_stale : ℕ
subtask_stale = 90_000_000

abbrev run_stale : ℕ
run_stale = 300_000_000

abbrev is_open_question : ℕ → AgentQuestion → Bool
is_open_question now q = elim q.status [ QuestionStatus.pending ↦ leb q.expires_at now | _ ↦ false ]

abbrev expire_run : ℕ → World → World
expire_run now = on_run (λ r. record r { status = RunStatus.expired; finished_at = some now })

-- the run that waits for the question, and only such a run, expires with it
unfoldable pub expire_question : ℕ → World → World
expire_question now w = elim w.question [
  | none ↦ w
  | some q ↦
      if is_open_question now q
      then (let closed = record w {
        question = some (record q { status = QuestionStatus.expired });
      } in
          elim w.run.status [
            | RunStatus.awaiting_question ↦ emits "run.expired" none (expire_run now closed)
            | _ ↦ closed
          ])
      else w
]

abbrev is_overdue : ℕ → PendingAction → Bool
is_overdue now a = elim a.status [ ActionStatus.pending ↦ leb a.expires_at now | _ ↦ false ]

abbrev resume_payload : String → Bool → ResumePayload
resume_payload action_id approved = record {
  action_id = action_id;
  decision = if approved then approve else reject;
  cancel_after = false;
  auto_approve_task = false;
}

-- 1. An overdue action of the run expires, and the run with it.
unfoldable pub expire_action : ℕ → PendingAction → World → World
expire_action now a w =
    if is_overdue now a
    then enqueues now "action.resume" (some (resume_payload a.id false)) (
        emits "run.expired" none (
          expire_run now
            (record w { actions = w.actions ++ record a { status = ActionStatus.expired } ∷ [] })))
    else record w { actions = w.actions ++ a ∷ [] }

unfoldable pub expire_actions : ℕ → List PendingAction → World → World
expire_actions now [] w = w
expire_actions now (a ∷ actions) w = expire_actions now actions (expire_action now a w)

abbrev before : Option ℕ → ℕ → Bool
before none cutoff = false
before (some t) cutoff = ltb t cutoff

abbrev is_stuck : ℕ → PendingAction → Bool
is_stuck now a = elim a.status [
  | ActionStatus.claimed ↦ before a.claimed_at (now - stale_after)
  | ActionStatus.executing ↦ before a.execution_started_at (now - stale_after)
  | _ ↦ false
]

-- 2. An action that was claimed or executed too long ago is handed out again.
unfoldable pub release_action : ℕ → PendingAction → World → World
release_action now a w =
    if is_stuck now a
    then enqueues now "action.resume" (some (resume_payload a.id true)) (record w {
      actions = w.actions ++ record a { status = ActionStatus.approved; claimed_at = none } ∷ [];
    })
    else record w { actions = w.actions ++ a ∷ [] }

unfoldable pub release_actions : ℕ → List PendingAction → World → World
release_actions now [] w = w
release_actions now (a ∷ actions) w = release_actions now actions (release_action now a w)

-- both walks start from a world whose actions are those walked over
unfoldable pub watch_actions : ℕ → World → World
watch_actions now w =
    let expired = expire_actions now w.actions (record w { actions = [] }) in
    release_actions now expired.actions (record expired { actions = [] })

abbrev pub is_working : RunStatus → Bool
is_working RunStatus.running = true
is_working RunStatus.cancelling = true
is_working _ = false

abbrev is_silent : Option ℕ → ℕ → Bool
is_silent none cutoff = true
is_silent (some t) cutoff = ltb t cutoff

abbrev is_alive : Option ℕ → ℕ → Bool
is_alive none cutoff = true
is_alive (some t) cutoff = ltb cutoff t

-- the count for a task in `task_retries`
abbrev pub recoveries : String → AgentRun → ℕ
recoveries task_id r = elim (lookup task_id r.task_retries) [ none ↦ 0 | some n ↦ n ]

-- 3. The task has a recovery left: it is pending again, and the run queued.
unfoldable pub recover_task : ℕ → String → World → World
recover_task now task_id w =
    let n = recoveries task_id w.run + 1 in
    enqueues now "run.resume" none (
      emits "run.queued" (some task_id) (
        emits "task.recovering" (some task_id) (
          on_run
            (λ r. record r {
              task_retries = insert task_id n r.task_retries;
              active_task_id = none;
              subtask_heartbeat_at = none;
              status = RunStatus.queued;
            })
            (on_graph (some task_id) (with_status TaskStatus.pending) (record w {
              subtasks =
                  on_subtask (some task_id)
                    (λ s.
                      set_subtask_status now SubtaskStatus.queued none none
                        (record s { retry_count = n }))
                    w.subtasks;
            })))))

abbrev exhausted_message : String → Text
exhausted_message task_id =
    codes "Sub-task '"
    ++ codes task_id
    ++ codes "' failed after "
    ++ decimal max_task_retries
    ++ codes " attempts."

-- It has none left: the run fails.
unfoldable pub exhaust_task : ℕ → String → World → World
exhaust_task now task_id w = emits "run.failed" (some task_id) (
    emits "task.failed" (some task_id) (
      on_run
        (λ r. record r {
          status = RunStatus.failed;
          error_category = some (codes "SubTaskMaxRetriesExceeded");
          error_message = some (exhausted_message task_id);
          finished_at = some now;
        })
        (on_graph (some task_id) (with_status TaskStatus.failed) (
          set_child now (some task_id) SubtaskStatus.failed none (some (exhausted_message task_id))
            w))))

unfoldable pub watch_task : ℕ → World → World
watch_task now w =
    if is_working w.run.status
      && is_silent w.run.subtask_heartbeat_at (now - subtask_stale)
      && is_alive w.run.heartbeat_at (now - run_stale)
    then elim w.run.active_task_id [
      | none ↦ w
      | some task_id ↦
          if ltb (recoveries task_id w.run) max_task_retries
          then recover_task now task_id w
          else exhaust_task now task_id w
    ]
    else w

-- 4. A run without any heartbeat is queued again.
unfoldable pub watch_run : ℕ → World → World
watch_run now w =
    if is_working w.run.status && is_silent w.run.heartbeat_at (now - run_stale)
    then enqueues now "run.resume" none
        (emits "run.queued" none (on_run (λ r. record r { status = RunStatus.queued }) w))
    else w

unfoldable pub recover_stale_work : ℕ → World → World
recover_stale_work now w =
    watch_run now (watch_task now (watch_actions now (expire_question now w)))
