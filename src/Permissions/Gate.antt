-- ===== src/Permissions/Gate.antt =====
-- The gate of `process_run` (backend/worker.py) for the tool call that the agent waits on: the
-- engine's decision settles what becomes of the pending action and of its run.
pub mod Laws
use pi_development_agent.Base.{
  Bool, true, false, not, ◌&&◌, Option, none, some, List, [], ◌∷◌, if◌then◌else◌, Text,
}
use pi_development_agent.Permissions.Grants.{Grant, PermissionDecision}
use pi_development_agent.Permissions.Cache.{Cache}
use pi_development_agent.Permissions.Engine.{Call, Clock, check}
use pi_development_agent.States.{RunStatus, ActionStatus, ResumeDecision, approve, reject}

-- the events that the gate emits on the run's stream
pub data GateEvent : Type 0 where
  permission_denied : Text → GateEvent
  approval_required : GateEvent

pub record Gate : Type 0 where
  pub action_status : ActionStatus
  pub run_status : RunStatus
  pub resume : List ResumeDecision
  pub emitted : List GateEvent

-- The action is fresh, so its status is `pending`; the run keeps its status where none is set.
unfoldable pub settle : PermissionDecision → RunStatus → Gate
settle decision status =
    if decision.allowed && not decision.requires_approval
    then record {
      action_status = ActionStatus.executing;
      run_status = status;
      resume = approve ∷ [];
      emitted = [];
    }
    else if not decision.allowed
    then record {
      action_status = ActionStatus.rejected;
      run_status = RunStatus.queued;
      resume = reject ∷ [];
      emitted = permission_denied decision.reason ∷ [];
    }
    else record {
      action_status = ActionStatus.pending;
      run_status = RunStatus.awaiting_approval;
      resume = [];
      emitted = approval_required ∷ [];
    }

unfoldable pub gate : Clock → List Grant → Call → RunStatus → Cache → Gate × Cache
gate clock db call status store =
    let (decision, store') = check clock db call store in (settle decision status, store')
