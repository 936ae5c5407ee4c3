-- ===== src/Specification/Sticky.antt =====
-- Validations of one run after each other: what a passed check and an open gate keep.
use pi_development_agent.Base.{
  ℕ, String, string_Eq, true, List, [], ◌∷◌, filter, all, some, ◌≡◌, arith, refl, ap, Bool-cases,
  inl, inr,
}
use pi_development_agent.Repair.Acceptance.{
  required_acceptance_failures, required_acceptance_failures-none, is_required_of, has_passed,
}
use pi_development_agent.Specification.Model.{CheckRow}
use pi_development_agent.Specification.Evaluate.{ValidationReport, PackagedModule, evaluate_checks}
use pi_development_agent.Specification.Settled.{checks_of, settled_keeps, settled_passed}

module _ (now : ℕ) (packed : PackagedModule) (report : ValidationReport) (run_id : String) where
  evaluated_same :
      (task_id : String) (rows : List CheckRow)
      → all has_passed (filter (is_required_of run_id task_id) (checks_of rows)) ≡ true
      → filter
          (is_required_of run_id task_id)
          (checks_of (evaluate_checks now packed report run_id rows))
        ≡ filter (is_required_of run_id task_id) (checks_of rows)
  unfolding evaluate_checks
  evaluated_same task_id [] h = refl
  evaluated_same task_id (row ∷ rows) h =
      elim (Bool-cases (is_required_of run_id task_id row.check)) [
        | inl needed ↦
            let passed : has_passed row.check ≡ true = ground (arith, needed) in
            rw
              (
                settled_keeps now packed report run_id task_id row,
                needed,
                settled_passed now packed report run_id row passed,
              )
              (ap (λ t. row.check ∷ t) (evaluated_same task_id rows (ground (arith, needed))))
        | inr other ↦
            rw (settled_keeps now packed report run_id task_id row, other)
              (evaluated_same task_id rows (ground (arith, other)))
      ]

  -- Once nothing stands between a task and its success, no later validation of the run changes
  -- that, a failed one included.
  pub evaluate_checks-sticky :
      (task_id : String) (rows : List CheckRow)
      → required_acceptance_failures (checks_of rows) run_id (some task_id) ≡ []
      → required_acceptance_failures
          (checks_of (evaluate_checks now packed report run_id rows))
          run_id
          (some task_id)
        ≡ []
  evaluate_checks-sticky task_id rows h =
      let before = (required_acceptance_failures-none (checks_of rows) run_id task_id).0 h in
      let same = evaluated_same task_id rows before.1 in
      (required_acceptance_failures-none (checks_of (evaluate_checks now packed report run_id rows))
          run_id task_id).1
        (rw same before)
