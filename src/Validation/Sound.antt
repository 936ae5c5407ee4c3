-- ===== src/Validation/Sound.antt =====
-- What a good report of a validation says of the run behind it, and what the gate of the worker makes of it.
use pi_development_agent.Base.{
  ℕ, ◌<◌, ltb, Text, codes, nat_Eq, list_Eq, string_Eq, Bool, true, false, not, List, [], ◌∷◌, ◌++◌,
  all, Option, none, some, ◌≡◌, ◌⊎◌, arith, refl, Bool-cases, inl, inr, if◌then◌else◌,
}
use pi_development_agent.Repair.Acceptance.{required_acceptance_failures}
use pi_development_agent.Specification.Targets.{SourceSymbol}
use pi_development_agent.Specification.Model.{Python, Db, SpecificationResult}
use pi_development_agent.Specification.Persist.{Order, compile_specification}
use pi_development_agent.Specification.Evaluate.{ValidationReport, PackagedModule, evaluate_checks}
use pi_development_agent.Specification.Settled.{checks_of}
use pi_development_agent.Specification.Verified.{
  compile_specification-fresh, compile_specification-gate,
}
use pi_development_agent.Validation.Log.{Check, install_failed, tests_ok, test_count, log_checks}
use pi_development_agent.Validation.Run.{
  Exit, Host, ValidationJob, RuntimeReport, verifies, odoo_args, baseline_args, exit_check,
  run_tests, run_in_database, with_database, extracted_run, digest_check, run_validate_module,
  validate_module_full,
}

-- what a run of Odoo with the module's tests has shown
pub record IsClean (host : Host) (job : ValidationJob) : Type 0 where
  pub exited : (host.odoo (odoo_args job)).is_zero ≡ true
  pub installed : install_failed (host.odoo (odoo_args job)).output ≡ false
  pub tested :
      (test_count (host.odoo (odoo_args job)).output ≡ 0)
      ⊎ (tests_ok (host.odoo (odoo_args job)).output ≡ true)

-- a report that is good only of a clean run, and counts its tests
pub record IsHonest (host : Host) (job : ValidationJob) (report : RuntimeReport) : Type 0 where
  pub clean : report.ok ≡ true → IsClean host job
  pub counted : report.ok ≡ true → report.test_count ≡ test_count (host.odoo (odoo_args job)).output
  pub extracted : report.ok ≡ true → host.extract_error ≡ none
  pub verified : report.ok ≡ true → verifies host job ≡ true

abbrev good : Check → Bool
good c = c.passed

all-append_right : (xs ys : List Check) → all good (xs ++ ys) ≡ true → all good ys ≡ true
all-append_right [] ys h = h
all-append_right (x ∷ xs) ys h = all-append_right xs ys (ground arith)

all-append_left : (xs ys : List Check) → all good (xs ++ ys) ≡ true → all good xs ≡ true
all-append_left [] ys h = refl
all-append_left (x ∷ xs) ys h = ground (arith, all-append_left xs ys)

module _ (host : Host) (job : ValidationJob) where
  abbrev exit : Exit
  exit = host.odoo (odoo_args job)

  log-clean :
      (last : List Check)
      → all good (log_checks exit.output ++ last) ≡ true
      → (install_failed exit.output ≡ false)
        × ((test_count exit.output ≡ 0) ⊎ (tests_ok exit.output ≡ true))
  unfolding log_checks
  log-clean last h = elim (Bool-cases (ltb 0 (test_count exit.output))) [
    | inr silent ↦ let g = rw silent at h in (ground arith, inl (ground arith))
    | inl ran ↦ let g = rw ran at h in (ground arith, inr (ground arith))
  ]

  run_tests-IsClean :
      (checks : List Check) (log : Text)
      → (run_tests host job checks log).ok ≡ true
      → IsClean host job × ((run_tests host job checks log).test_count ≡ test_count exit.output)
  unfolding run_tests
  run_tests-IsClean checks log h =
      let last = exit_check "odoo_exit_code" (codes "Odoo exited with ") exit ∷ [] in
      let tail = all-append_right checks (log_checks exit.output ++ last) h in
      let (installed, tested) = log-clean last tail in
      let zero = all-append_right (log_checks exit.output) last tail in
      (record { exited = ground arith; installed = installed; tested = tested }, refl)

  bad-IsHonest : (report : RuntimeReport) → report.ok ≡ false → IsHonest host job report
  bad-IsHonest report h = record {
    clean = λ g. absurd (cc);
    counted = λ g. absurd (cc);
    extracted = λ g. absurd (cc);
    verified = λ g. absurd (cc);
  }

  run_tests-IsHonest :
      (checks : List Check) (log : Text)
      → host.extract_error ≡ none
      → verifies host job ≡ true
      → IsHonest host job (run_tests host job checks log)
  run_tests-IsHonest checks log whole same = record {
    clean = λ g. (run_tests-IsClean checks log g).0;
    counted = λ g. (run_tests-IsClean checks log g).1;
    extracted = λ g. whole;
    verified = λ g. same;
  }

  if-IsHonest :
      (b : Bool) (x y : RuntimeReport)
      → (b ≡ true → IsHonest host job x)
      → (b ≡ false → IsHonest host job y)
      → IsHonest host job (if b then x else y)
  if-IsHonest true x y h k = h refl
  if-IsHonest false x y h k = k refl

  either-IsHonest :
      (b : Bool) (x y : RuntimeReport × List Text)
      → (b ≡ true → IsHonest host job x.0)
      → (b ≡ false → IsHonest host job y.0)
      → IsHonest host job (if b then x else y).0
  either-IsHonest true x y h k = h refl
  either-IsHonest false x y h k = k refl

  run_in_database-IsHonest :
      (checks : List Check)
      → host.extract_error ≡ none
      → verifies host job ≡ true
      → IsHonest host job (run_in_database host job checks)
  unfolding run_in_database
  run_in_database-IsHonest checks whole same =
      if-IsHonest job.is_upgrade _ _
        (λ _.
          if-IsHonest (host.odoo (baseline_args job)).is_zero _ _
            (λ _. run_tests-IsHonest _ _ whole same) (λ _. bad-IsHonest _ refl))
        (λ _. run_tests-IsHonest checks [] whole same)

  with_database-IsHonest :
      (checks : List Check) (databases : List Text) (error : Option Text)
      → host.extract_error ≡ none
      → verifies host job ≡ true
      → IsHonest host job (with_database host job checks databases error).0
  with_database-IsHonest checks databases (some error) whole same = bad-IsHonest _ refl
  with_database-IsHonest checks databases none whole same = run_in_database-IsHonest _ whole same

  extracted_run-IsHonest :
      (checks : List Check) (databases : List Text) (error : Option Text)
      → host.extract_error ≡ error
      → verifies host job ≡ true
      → IsHonest host job (extracted_run host job checks databases error).0
  extracted_run-IsHonest checks databases (some error) whole same = bad-IsHonest _ refl
  extracted_run-IsHonest checks databases none whole same =
      either-IsHonest job.has_admin_dsn _ _
        (λ _. with_database-IsHonest checks databases host.create_error whole same)
        (λ _. run_in_database-IsHonest _ whole same)

  run_validate_module-IsHonest :
      (databases : List Text) → IsHonest host job (run_validate_module host job databases).0
  unfolding run_validate_module
  run_validate_module-IsHonest databases =
      either-IsHonest (not (verifies host job)) _ _ (λ _. bad-IsHonest _ refl)
        (λ right.
          extracted_run-IsHonest (digest_check host job) databases host.extract_error refl
            (ground arith))

  validate_module_full-IsHonest :
      (static_passed : Bool) (databases : List Text)
      → IsHonest host job (validate_module_full static_passed host job databases)
        × ((validate_module_full static_passed host job databases).ok ≡ true → static_passed ≡ true)
  unfolding validate_module_full
  validate_module_full-IsHonest true databases = (run_validate_module-IsHonest databases, λ h. refl)
  validate_module_full-IsHonest false databases = (bad-IsHonest _ refl, λ h. cc)

-- the report as the tool `package_module` reads it
abbrev pub as_report : Bool → RuntimeReport → ValidationReport
as_report static_passed report = record {
  static_passed = static_passed;
  runtime_ok = report.ok;
  test_count = report.test_count;
  error = report.error;
}

-- Where the specification of a run has been compiled, the module has been validated and its checks
-- have been settled by the report: if nothing then stands between `validate_and_verify` and its
-- success, the static checks have passed, the archive has the digest of the job and was extracted,
-- and Odoo has installed or upgraded the module with its tests, exited with zero and logged no
-- critical error, and tests were counted and passed.
pub validate_module_full-gate :
    (py : Python) (now new_id later : ℕ) (o : Order) (symbols : List SourceSymbol) (db : Db)
    (packed : PackagedModule) (static_passed : Bool) (host : Host) (job : ValidationJob)
    (databases : List Text) (result : SpecificationResult) (after : Db)
    → compile_specification py now new_id o symbols db ≡ some (result, after)
    → required_acceptance_failures
        (checks_of (
          evaluate_checks later packed
            (as_report static_passed (validate_module_full static_passed host job databases))
            o.run_id
            after.checks))
        o.run_id
        (some "validate_and_verify")
      ≡ []
    → let exit = host.odoo (odoo_args job) in
      (static_passed ≡ true)
      × (verifies host job ≡ true)
      × (host.extract_error ≡ none)
      × (exit.is_zero ≡ true)
      × (install_failed exit.output ≡ false)
      × (0 < test_count exit.output)
      × (tests_ok exit.output ≡ true)
validate_module_full-gate py now new_id later o symbols db packed static_passed host job databases
      result after built free =
    let report = validate_module_full static_passed host job databases in
    let (r, a, again, gate_iff) =
      compile_specification-gate py now new_id o symbols db later packed
        (as_report static_passed report)
        (compile_specification-fresh py now new_id o symbols db (result, after) built) in
    let same : after ≡ a = ground (arith, built, again) in
    let (fine, ran) = gate_iff.0 (rw same at free) in
    let (honest, static) = validate_module_full-IsHonest host job static_passed databases in
    let c = honest.clean fine in
    (
      static fine,
      honest.verified fine,
      honest.extracted fine,
      c.exited,
      c.installed,
      omega (arith, honest.counted fine, ran),
      ground (arith, c.tested, honest.counted fine),
    )
