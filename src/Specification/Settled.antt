-- ===== src/Specification/Settled.antt =====
-- One row of `acceptance_checks` under the validation of a module.
use pi_development_agent.Base.{
  ℕ, codes, String, string_Eq, nat_Eq, list_Eq, option_Eq, ◌==◌, ltb, true, false, ◌&&◌, ◌||◌, List,
  map, some, ◌≡◌, arith, refl, Bool-cases, inl, inr, if◌then◌else◌,
}
use pi_development_agent.Repair.Acceptance.{AcceptanceCheck, is_required_of, has_passed}
use pi_development_agent.Specification.Model.{CheckRow}
use pi_development_agent.Specification.Evaluate.{
  ValidationReport, PackagedModule, settle_check, settle_digest, settle_runtime, runtime_passes,
  is_open_of,
}

-- the rows as the gate of the worker reads them
abbrev pub checks_of : List CheckRow → List AcceptanceCheck
checks_of = map (λ (row : CheckRow). row.check)

abbrev pub settled : ℕ → PackagedModule → ValidationReport → String → CheckRow → CheckRow
settled now packed report run_id row =
    if is_open_of run_id row then settle_check now packed report row else row

module _ (now : ℕ) (packed : PackagedModule) (report : ValidationReport) (run_id : String) where
  -- A row keeps its run, its task and whether it is required.
  pub settled_keeps :
      (task_id : String) (row : CheckRow)
      → is_required_of run_id task_id (settled now packed report run_id row).check
        ≡ is_required_of run_id task_id row.check
  unfolding settle_check settle_digest settle_runtime is_required_of
  settled_keeps task_id row = ground arith

  pub settled_passed :
      (row : CheckRow)
      → has_passed row.check ≡ true
      → (settled now packed report run_id row).check ≡ row.check
  unfolding is_open_of
  settled_passed row h = ground arith

  settled_runtime :
      (row : CheckRow)
      → has_passed (settle_runtime now packed report row).check ≡ runtime_passes report row
  unfolding settle_runtime
  settled_runtime row = elim (Bool-cases (runtime_passes report row)) [
    | inl passes ↦ rw passes refl
    | inr fails ↦ rw fails refl
  ]

  settled_open :
      (row : CheckRow)
      → is_required_of run_id "validate_and_verify" row.check ≡ true
      → has_passed row.check ≡ false
      → settled now packed report run_id row ≡ settle_check now packed report row
  unfolding is_required_of is_open_of
  settled_open row h pending = let e : is_open_of run_id row ≡ true = ground arith in rw e refl

  settle_check_lem :
      (row : CheckRow)
      → is_required_of run_id "validate_and_verify" row.check ≡ true
      → has_passed (settle_check now packed report row).check ≡ (
          (row.kind == codes "artifact_digest" && report.static_passed)
          || runtime_passes report row)
  unfolding settle_check settle_digest is_required_of
  settle_check_lem row h =
      let e : (row.task_id == some "validate_and_verify") ≡ true = ground arith in
      elim (Bool-cases (row.kind == codes "artifact_digest" && report.static_passed)) [
        | inl digest ↦ rw digest refl
        | inr other ↦ rw (other, e) (settled_runtime row)
      ]

  -- With a good report each check of the gated task passes.
  pub settled_good :
      (row : CheckRow)
      → (report.runtime_ok && ltb 0 report.test_count) ≡ true
      → is_required_of run_id "validate_and_verify" row.check ≡ true
      → has_passed (settled now packed report run_id row).check ≡ true
  unfolding runtime_passes
  settled_good row good h = elim (Bool-cases (has_passed row.check)) [
    | inl passed ↦ rw (settled_passed row passed) passed
    | inr pending ↦ rw (settled_open row h pending, settle_check_lem row h) (ground arith)
  ]

  -- A scenario check that has not passed fails by a report that is not good.
  pub settled_bad :
      (row : CheckRow)
      → (report.runtime_ok && ltb 0 report.test_count) ≡ false
      → row.kind ≡ codes "business_scenario"
      → is_required_of run_id "validate_and_verify" row.check ≡ true
      → has_passed row.check ≡ false
      → has_passed (settled now packed report run_id row).check ≡ false
  unfolding runtime_passes
  settled_bad row bad kind h pending =
      rw (settled_open row h pending, settle_check_lem row h, kind) (ground arith)
