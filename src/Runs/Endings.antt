-- ===== src/Runs/Endings.antt =====
-- The ends of the agent's stream keep what Runs.Accounts says of the run.
use pi_development_agent.Base.{
  ℕ, String, string_Eq, option_Eq, Bool, true, List, Option, none, some, Bool-cases, Option-cases,
  arith, ◌≡◌, refl, ap, ◌∙◌, inl, inr, [], ◌∷◌,
}
use pi_development_agent.States.{ResumeDecision}
use pi_development_agent.Repair.Acceptance.{AcceptanceCheck}
use pi_development_agent.Permissions.Gate.{
  Gate, GateEvent, gate, settle, permission_denied, approval_required,
}
use pi_development_agent.Permissions.Grants.{Grant, PermissionDecision}
use pi_development_agent.Permissions.Cache.{Cache}
use pi_development_agent.Permissions.Engine.{Call, Clock, check}
use pi_development_agent.Runs.Model.{AgentRun, PendingAction, World}
use pi_development_agent.Runs.Subtasks.{emits}
use pi_development_agent.Runs.Gated.{finish_called, apply_gate, emit_gate, enqueue_resume}
use pi_development_agent.Runs.Finish.{finish_run, ask, Ending, cancels, asks, reports, stops}
use pi_development_agent.Runs.Accounts.{
  bounded, is_accounted, cancel_by_worker-accounted, finish_unreported-accounted,
  finish_reported-accounted,
}

ask-accounted :
    (now expires_at : ℕ) (child : Option String) (w v : World)
    → is_accounted w.run ≡ true
    → ask now expires_at child w ≡ some v
    → is_accounted v.run ≡ true
unfolding ask is_accounted
ask-accounted now expires_at child w v h e = ground (arith, Option-cases w.question)

pub finish_run-accounted :
    (enabled : Bool) (now : ℕ) (checks : List AcceptanceCheck)
    (decided : Option (String × ResumeDecision)) (child : Option String) (ending : Ending)
    (w v : World)
    → is_accounted w.run ≡ true
    → finish_run enabled now checks decided child ending w ≡ some v
    → is_accounted v.run ≡ true
unfolding finish_run
finish_run-accounted enabled now checks decided child cancels w v h e =
    let kept = cancel_by_worker-accounted now (emits "usage" none w) h in ground arith
finish_run-accounted enabled now checks decided child (asks expires_at) w v h e =
    ask-accounted now expires_at child (emits "usage" none w) v h e
finish_run-accounted enabled now checks decided child (reports noted report) w v h e =
    let kept =
      finish_reported-accounted enabled now checks child noted report (emits "usage" none w)
        (bounded w.run h) in
    ground (arith, Option-cases decided)
finish_run-accounted enabled now checks decided child stops w v h e =
    let kept = finish_unreported-accounted now child (emits "usage" none w) (bounded w.run h) in
    ground (arith, Option-cases decided)

emit_gate-run : (events : List GateEvent) (w : World) → (emit_gate events w).run ≡ w.run
unfolding emit_gate
emit_gate-run [] w = refl
emit_gate-run (permission_denied reason ∷ events) w = emit_gate-run events _
emit_gate-run (approval_required ∷ events) w = emit_gate-run events _

enqueue_resume-run :
    (now : ℕ) (id : String) (decisions : List ResumeDecision) (w : World)
    → (enqueue_resume now id decisions w).run ≡ w.run
unfolding enqueue_resume
enqueue_resume-run now id [] w = refl
enqueue_resume-run now id (d ∷ decisions) w = enqueue_resume-run now id decisions _

apply_gate-run :
    (now : ℕ) (child : Option String) (called : PendingAction) (g : Gate) (w : World)
    → (apply_gate now child called g w).run ≡ record w.run { status = g.run_status }
unfolding apply_gate
apply_gate-run now child called g w =
    enqueue_resume-run now called.id g.resume _ ∙ emit_gate-run g.emitted _

settle_lem :
    (decision : PermissionDecision) (r : AgentRun)
    → is_accounted r ≡ true
    → is_accounted (record r { status = (settle decision r.status).run_status }) ≡ true
unfolding settle is_accounted
settle_lem decision r h = elim (Bool-cases decision.allowed) [
  | inr denied ↦ ground arith
  | inl allowed ↦ elim (Bool-cases decision.requires_approval) [
    | inr free ↦ ground arith
    | inl asked ↦ ground arith
  ]
]

-- The gate writes the status of the run, and no status that ends it.
pub finish_called-accounted :
    (now : ℕ) (child : Option String) (called : PendingAction) (clock : Clock) (grants : List Grant)
    (call : Call) (store : Cache) (w : World)
    → is_accounted w.run ≡ true
    → is_accounted (finish_called now child called clock grants call store w).run ≡ true
unfolding finish_called gate
finish_called-accounted now child called clock grants call store w h =
    ap is_accounted (apply_gate-run now child called _ _)
    ∙ settle_lem (check clock grants call store).0 w.run h
