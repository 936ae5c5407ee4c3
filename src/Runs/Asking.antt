-- ===== src/Runs/Asking.antt =====
-- The handlers for a run keep what Runs.Accounts says of it.
use pi_development_agent.Base.{
  ℕ, Text, String, string_Eq, option_Eq, Bool, true, List, Option, Option-cases, arith, ◌≡◌,
}
use pi_development_agent.States.{ResumeDecision}
use pi_development_agent.Deployment.Model.{Project, User, ok}
use pi_development_agent.Permissions.Grants.{Grant}
use pi_development_agent.Runs.Model.{PendingAction, World}
use pi_development_agent.Runs.Requests.{
  cancel_run, cancel_now, cancel_question, cancel_action, answer_run_question, decided_world,
  decide_run_action,
}
use pi_development_agent.Runs.Accounts.{is_accounted}

pub is_cancelled-accounted :
    (now : ℕ) (user : User) (project : Project) (w v : World)
    → is_accounted w.run ≡ true
    → cancel_run now user project w ≡ ok v
    → is_accounted v.run ≡ true
unfolding cancel_run cancel_now cancel_question cancel_action is_accounted
is_cancelled-accounted now user project w v h e = ground arith

pub is_answered-accounted :
    (now : ℕ) (user : User) (project : Project) (answer : Text) (w v : World)
    → is_accounted w.run ≡ true
    → answer_run_question now user project answer w ≡ ok v
    → is_accounted v.run ≡ true
unfolding answer_run_question is_accounted
is_answered-accounted now user project answer w v h e = ground (arith, Option-cases w.question)

pub is_decided-accounted :
    (now : ℕ) (user : User) (project : Project) (budget : Option ℕ) (decision : ResumeDecision)
    (auto : Bool) (remember : Option String) (decided : PendingAction) (grants new : List Grant)
    (w v : World)
    → is_accounted w.run ≡ true
    → decide_run_action now user project budget decision auto remember decided grants w
      ≡ ok (v, new)
    → is_accounted v.run ≡ true
unfolding decide_run_action decided_world is_accounted
is_decided-accounted now user project budget decision auto remember decided grants new w v h e =
    ground arith
