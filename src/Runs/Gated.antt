-- ===== src/Runs/Gated.antt =====
-- The end of `process_run` for a run whose agent waits on a tool call: the pending action is added,
-- and Permissions.Gate says what becomes of it and of the run.
use pi_development_agent.Base.{ℕ, String, Option, none, some, List, [], ◌∷◌, false}
use pi_development_agent.States.{SubtaskStatus, ResumeDecision}
use pi_development_agent.Permissions.Gate.{
  Gate, GateEvent, permission_denied, approval_required, gate,
}
use pi_development_agent.Permissions.Grants.{Grant}
use pi_development_agent.Permissions.Cache.{Cache}
use pi_development_agent.Permissions.Engine.{Call, Clock}
use pi_development_agent.Runs.Model.{PendingAction, World}
use pi_development_agent.Runs.Subtasks.{emits, enqueues, on_run, set_child}

unfoldable pub emit_gate : List GateEvent → World → World
emit_gate [] w = w
emit_gate (permission_denied reason ∷ events) w =
    emit_gate events (emits "permission.denied" none w)
emit_gate (approval_required ∷ events) w = emit_gate events (emits "approval.required" none w)

unfoldable pub enqueue_resume : ℕ → String → List ResumeDecision → World → World
enqueue_resume now action_id [] w = w
enqueue_resume now action_id (decision ∷ decisions) w = enqueue_resume now action_id decisions (
    enqueues now "action.resume"
      (some (record {
        action_id = action_id;
        decision = decision;
        cancel_after = false;
        auto_approve_task = false;
      }))
      w)

unfoldable pub apply_gate : ℕ → Option String → PendingAction → Gate → World → World
apply_gate now child action g w =
    let waits = set_child now child SubtaskStatus.awaiting_approval none none w in
    enqueue_resume now action.id g.resume (
      emit_gate g.emitted (
        on_run (λ r. record r { status = g.run_status })
          (record waits { actions = record action { status = g.action_status } ∷ waits.actions })))

unfoldable pub finish_called :
    ℕ → Option String → PendingAction → Clock → List Grant → Call → Cache → World → World
finish_called now child action clock db call store w =
    apply_gate now child action (gate clock db call w.run.status store).0 (emits "usage" none w)
