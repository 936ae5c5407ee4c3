-- ===== src/Runs/Starting.antt =====
-- The start of a run keeps what Runs.Accounts says of it.
use pi_development_agent.Base.{
  ℕ, string_Eq, option_Eq, Bool, true, List, Option-cases, arith, ◌≡◌, refl,
}
use pi_development_agent.Planner.Task.{Task}
use pi_development_agent.Planner.Supervisor.{get_next_task}
use pi_development_agent.Runs.Model.{AgentRun, World}
use pi_development_agent.Runs.Start.{
  Cause, running, cancelled, start, resume, action, activate, plan, continue, take_up, started,
  begin, start_run, resumed_task, initial_graph, initialise,
}
use pi_development_agent.Runs.Accounts.{
  bounded, is_accounted, is_bounded, cancel_by_worker-accounted,
}
use pi_development_agent.Runs.Keeps.{open_subtask-run}

initialise-bounded :
    (specified : Bool) (decomposed : List Task) (r : AgentRun)
    → is_bounded r ≡ true
    → is_bounded (initialise specified decomposed r) ≡ true
unfolding initialise
initialise-bounded specified decomposed r h = ground arith

take_up-bounded :
    (now : ℕ) (cause : Cause) (specified : Bool) (decomposed : List Task) (w : World)
    → is_bounded w.run ≡ true
    → ((take_up now cause specified decomposed w).run.status ≡ w.run.status)
      × (is_bounded (take_up now cause specified decomposed w).run ≡ true)
unfolding take_up plan continue activate initialise
take_up-bounded now start specified decomposed w h =
    let next = Option-cases (get_next_task (initial_graph specified decomposed w.run)) in
    let kept = initialise-bounded specified decomposed w.run h in
    (ground (arith, next), ground (arith, next))
take_up-bounded now resume specified decomposed w h =
    let next = Option-cases (resumed_task w.run.task_graph) in
    (ground (arith, next), ground (arith, next))
take_up-bounded now action specified decomposed w h = (refl, h)

started-accounted :
    (now : ℕ) (cause : Cause) (specified : Bool) (decomposed : List Task) (w : World)
    → is_bounded w.run ≡ true
    → is_accounted (started now cause specified decomposed w).run ≡ true
unfolding started is_accounted
started-accounted now cause specified decomposed w h =
    let taken = take_up now cause specified decomposed (begin now w) in
    let (status, retries) = take_up-bounded now cause specified decomposed (begin now w) h in
    ground (arith, open_subtask-run now taken)

pub start_run-accounted :
    (now : ℕ) (cause : Cause) (others : List AgentRun) (specified : Bool) (decomposed : List Task)
    (w v : World)
    → is_accounted w.run ≡ true
    → start_run now cause others specified decomposed w ≡ running v
    → is_accounted v.run ≡ true
unfolding start_run
start_run-accounted now cause others specified decomposed w v h e =
    let kept = started-accounted now cause specified decomposed w (bounded w.run h) in ground arith

pub stopped-accounted :
    (now : ℕ) (cause : Cause) (others : List AgentRun) (specified : Bool) (decomposed : List Task)
    (w v : World)
    → is_accounted w.run ≡ true
    → start_run now cause others specified decomposed w ≡ cancelled v
    → is_accounted v.run ≡ true
unfolding start_run
stopped-accounted now cause others specified decomposed w v h e =
    ground (arith, cancel_by_worker-accounted now w h)
