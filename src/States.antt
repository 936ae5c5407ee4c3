-- ===== src/States.antt =====
-- The status columns of backend/models.py that the worker, the API and the watchdog share.

use pi_development_agent.Base.{Bool, true, false}

-- `AgentRun.status`
pub data RunStatus : Type 0 where
  queued running awaiting_question awaiting_approval cancelling cancelled : RunStatus
  succeeded failed expired interrupted : RunStatus

-- `PendingAction.status`
pub data ActionStatus : Type 0 where
  pending approved rejected claimed executing succeeded failed expired : ActionStatus

-- the answer to a pending action, the `decision` field of an `action.resume` event
pub data ResumeDecision : Type 0 where
  approve reject : ResumeDecision

-- `AgentSubtask.status`
pub data SubtaskStatus : Type 0 where
  queued running awaiting_question awaiting_approval succeeded failed cancelled : SubtaskStatus

-- `AgentQuestion.status`
pub data QuestionStatus : Type 0 where
  pending answered expired cancelled : QuestionStatus

-- The states in which nothing more happens to a run.
abbrev pub is_over : RunStatus → Bool
is_over RunStatus.succeeded = true
is_over RunStatus.failed = true
is_over RunStatus.cancelled = true
is_over _ = false
