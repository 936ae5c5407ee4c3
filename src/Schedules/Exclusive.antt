-- ===== src/Schedules/Exclusive.antt =====
-- Schedules give a project no second active write run.
use pi_development_agent.Base.{
  ℕ, ◌≤◌, Text, nat_Eq, ◌==◌, String, string_Eq, Bool, false, List, [], ◌∷◌, none, find, count,
  arith, ◌≡◌, refl, ap, sym, ◌∙◌, ◌⊎◌, inl, inr, Bool-cases, Option-cases,
}
use pi_development_agent.Runs.Model.{AgentRun}
use pi_development_agent.Schedules.Model.{AgentSchedule, Readiness, Calendar}
use pi_development_agent.Schedules.Dispatch.{
  is_active_write, scheduled_run, obstacle, claimed, launch_run, dispatch, dispatch_all,
  dispatch_due_schedules,
}

-- the active write runs of a project
abbrev pub writers : ℕ → Calendar → ℕ
writers project_id c = count (is_active_write project_id) c.runs

count-find : (p : AgentRun → Bool) (runs : List AgentRun) → find p runs ≡ none → count p runs ≡ 0
count-find p [] h = refl
count-find p (r ∷ runs) h = elim (Bool-cases (p r)) [
  | inl found ↦ absurd (ground arith)
  | inr other ↦ ground (arith, count-find p runs)
]

-- A new run counts for its own project only.
scheduled-other :
    (id : String) (project_id other : ℕ) (read_only : Bool)
    → (project_id ≡ other) ⊎ (is_active_write other (scheduled_run id project_id read_only) ≡ false)
unfolding is_active_write
scheduled-other id project_id other read_only = elim (Bool-cases (project_id == other)) [
  | inl same ↦ inl (ground arith)
  | inr apart ↦ inr (ground arith)
]

launch_run-writers :
    (now : ℕ) (id : String) (read_only : Bool) (s : AgentSchedule) (c : Calendar) (project_id : ℕ)
    → find (is_active_write s.project_id) c.runs ≡ none
    → writers project_id c ≤ 1
    → writers project_id (launch_run now id read_only s c) ≤ 1
unfolding launch_run
launch_run-writers now id read_only s c project_id h le =
    elim (scheduled-other id s.project_id project_id read_only) [
      | inl same ↦
          let empty = count-find (is_active_write s.project_id) c.runs h in
          let none_yet : writers project_id c ≡ 0 = ap (λ p. writers p c) (sym same) ∙ empty in
          ground (arith, none_yet)
      | inr other ↦ ground (arith, other)
    ]

dispatch-writers :
    (now : ℕ) (new_id : AgentSchedule → String) (readiness : ℕ → Readiness)
    (is_read_only : Text → Bool) (s : AgentSchedule) (c : Calendar) (project_id : ℕ)
    → writers project_id c ≤ 1
    → writers project_id (dispatch now new_id readiness is_read_only s c) ≤ 1
unfolding dispatch
dispatch-writers now new_id readiness is_read_only s c project_id le =
    elim (Option-cases (find (is_active_write s.project_id) c.runs)) [
      | inr (active, busy) ↦ ground arith
      | inl free ↦ elim (Option-cases (obstacle (readiness s.project_id))) [
        | inr (reason, stops) ↦ ground arith
        | inl clear ↦
            let launched =
              launch_run-writers now (new_id s) (is_read_only s.prompt) (claimed now s) c project_id
                free le in
            ground arith
      ]
    ]

dispatch_all-writers :
    (now : ℕ) (new_id : AgentSchedule → String) (readiness : ℕ → Readiness)
    (is_read_only : Text → Bool) (schedules : List AgentSchedule) (c : Calendar) (project_id : ℕ)
    → writers project_id c ≤ 1
    → writers project_id (dispatch_all now new_id readiness is_read_only schedules c) ≤ 1
unfolding dispatch_all
dispatch_all-writers now new_id readiness is_read_only [] c project_id le = le
dispatch_all-writers now new_id readiness is_read_only (s ∷ schedules) c project_id le =
    dispatch_all-writers now new_id readiness is_read_only schedules _ project_id
      (dispatch-writers now new_id readiness is_read_only s c project_id le)

-- A project that has at most one active write run has at most one behind a dispatch of the due
-- schedules, however many of them are its own.
pub dispatch_due_schedules-writers :
    (now : ℕ) (new_id : AgentSchedule → String) (readiness : ℕ → Readiness)
    (is_read_only : Text → Bool) (c : Calendar) (project_id : ℕ)
    → writers project_id c ≤ 1
    → writers project_id (dispatch_due_schedules now new_id readiness is_read_only c) ≤ 1
unfolding dispatch_due_schedules
dispatch_due_schedules-writers now new_id readiness is_read_only c project_id le =
    dispatch_all-writers now new_id readiness is_read_only _ c project_id le
