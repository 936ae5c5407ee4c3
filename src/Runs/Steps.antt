-- ===== src/Runs/Steps.antt =====
-- The life of a run as a sequence of steps: what the worker, the watchdog and the users do with it,
-- in any order.
use pi_development_agent.Base.{
  ℕ, Text, String, string_Eq, option_Eq, Bool, true, List, Option, some, ◌≡◌,
}
use pi_development_agent.States.{ResumeDecision}
use pi_development_agent.Planner.Task.{Task}
use pi_development_agent.Repair.Acceptance.{AcceptanceCheck}
use pi_development_agent.Deployment.Model.{Project, User, ok}
use pi_development_agent.Permissions.Grants.{Grant}
use pi_development_agent.Permissions.Cache.{Cache}
use pi_development_agent.Permissions.Engine.{Call, Clock}
use pi_development_agent.Runs.Model.{AgentRun, PendingAction, World}
use pi_development_agent.Runs.Start.{Cause, running, cancelled, start_run}
use pi_development_agent.Runs.Gated.{finish_called}
use pi_development_agent.Runs.Finish.{finish_run, Ending}
use pi_development_agent.Runs.Failure.{Raised, fail_run, reject_action, approve_action}
use pi_development_agent.Runs.Watchdog.{recover_stale_work}
use pi_development_agent.Runs.Requests.{cancel_run, answer_run_question, decide_run_action}
use pi_development_agent.Runs.Accounts.{bounded, is_accounted}
use pi_development_agent.Runs.Prepare.{
  Preparation, process_run_prepare, process_run_prepare-accounted,
}
use pi_development_agent.Runs.Keeps.{
  reject_action-accounted, fail_run-accounted, recover_stale_work-accounted,
}
use pi_development_agent.Runs.Starting.{start_run-accounted, stopped-accounted}
use pi_development_agent.Runs.Asking.{
  is_cancelled-accounted, is_answered-accounted, is_decided-accounted,
}
use pi_development_agent.Runs.Endings.{finish_run-accounted, finish_called-accounted}

-- One operation on the run, with whatever it is given.
pub data Step (w : World) : World → Type 0 where
  prepares : (now : ℕ) (p : Preparation) → Step w (process_run_prepare now p w)
  starts :
      (now : ℕ) (cause : Cause) (others : List AgentRun) (specified : Bool) (decomposed : List Task)
      {v : World}
      → start_run now cause others specified decomposed w ≡ running v
      → Step w v
  stops_early :
      (now : ℕ) (cause : Cause) (others : List AgentRun) (specified : Bool) (decomposed : List Task)
      {v : World}
      → start_run now cause others specified decomposed w ≡ cancelled v
      → Step w v
  finishes :
      (enabled : Bool) (now : ℕ) (checks : List AcceptanceCheck)
      (decided : Option (String × ResumeDecision)) (child : Option String) (ending : Ending)
      {v : World}
      → finish_run enabled now checks decided child ending w ≡ some v
      → Step w v
  calls :
      (now : ℕ) (child : Option String) (called : PendingAction) (clock : Clock)
      (grants : List Grant) (call : Call) (store : Cache)
      → Step w (finish_called now child called clock grants call store w)
  approves : (now : ℕ) (decided : PendingAction) → Step w (approve_action now decided w)
  rejects :
      (now : ℕ) (cancel_after : Bool) (child : Option String) (decided : PendingAction)
      → Step w (reject_action now cancel_after child decided w)
  raises : (now : ℕ) (e : Raised) → Step w (fail_run now e w)
  watches : (now : ℕ) → Step w (recover_stale_work now w)
  is_cancelled :
      (now : ℕ) (user : User) (project : Project) {v : World}
      → cancel_run now user project w ≡ ok v
      → Step w v
  is_answered :
      (now : ℕ) (user : User) (project : Project) (answer : Text) {v : World}
      → answer_run_question now user project answer w ≡ ok v
      → Step w v
  is_decided :
      (now : ℕ) (user : User) (project : Project) (budget : Option ℕ) (decision : ResumeDecision)
      (auto : Bool) (remember : Option String) (decided : PendingAction) (grants new : List Grant)
      {v : World}
      → decide_run_action now user project budget decision auto remember decided grants w
        ≡ ok (v, new)
      → Step w v

pub data Reach (w : World) : World → Type 0 where
  done : Reach w w
  more : {u v : World} → Reach w u → Step u v → Reach w v

Step-accounted : {w v : World} → Step w v → is_accounted w.run ≡ true → is_accounted v.run ≡ true
unfolding approve_action
Step-accounted (prepares now p) h = process_run_prepare-accounted now p _ h
Step-accounted (starts now cause others specified decomposed e) h =
    start_run-accounted now cause others specified decomposed _ _ h e
Step-accounted (stops_early now cause others specified decomposed e) h =
    stopped-accounted now cause others specified decomposed _ _ h e
Step-accounted (finishes enabled now checks decided child ending e) h =
    finish_run-accounted enabled now checks decided child ending _ _ h e
Step-accounted (calls now child called clock grants call store) h =
    finish_called-accounted now child called clock grants call store _ h
Step-accounted (approves now decided) h = h
Step-accounted {w} (rejects now cancel_after child decided) h =
    reject_action-accounted now cancel_after child decided _ (bounded w.run h)
Step-accounted {w} (raises now e) h = fail_run-accounted now e _ (bounded w.run h)
Step-accounted (watches now) h = recover_stale_work-accounted now _ h
Step-accounted (is_cancelled now user project e) h = is_cancelled-accounted now user project _ _ h e
Step-accounted (is_answered now user project answer e) h =
    is_answered-accounted now user project answer _ _ h e
Step-accounted (is_decided now user project budget decision auto remember decided grants new e) h =
    is_decided-accounted now user project budget decision auto remember decided grants new _ _ h e

-- Whatever the worker, the watchdog and the users do with a run, in whatever order: when it has
-- ended (succeeded, failed, cancelled or expired) the time of its end is there, when it has
-- succeeded every task of its graph is done, and no count in its table of the watchdog's retries,
-- `task_retries`, which a new graph sets back, is above two. The run had these properties when it
-- began, as a fresh one does.
pub Reach-accounted :
    {w v : World} → Reach w v → is_accounted w.run ≡ true → is_accounted v.run ≡ true
Reach-accounted done h = h
Reach-accounted (more steps step) h = Step-accounted step (Reach-accounted steps h)
