-- ===== src/Validation/Run.antt =====
-- `run_validate_module` of bridge_runner/runner.py and `validate_module_full` of backend/validation.py. An
-- exception other than those that the code catches leaves the function and is not modelled; a report without
-- `test_count` is read as one that counts none.
use pi_development_agent.Base.{
  ℕ, ◌-◌, Text, codes, String, nat_Eq, list_Eq, ◌==◌, Bool, true, false, not, List, [], ◌∷◌, ◌++◌,
  map, all, filter, drop, length, Option, none, some, if◌then◌else◌,
}
use pi_development_agent.Validation.Log.{Check, test_count, log_checks}

-- `code` is the exit code, as a text
pub record Exit : Type 0 where
  pub is_zero : Bool
  pub code : Text
  pub output : Text

-- What the host of the runner answers: the digest of the archive, why it cannot be extracted or its
-- database cannot be created, if so, what Odoo does with its arguments, and whether the database
-- can be dropped.
pub record Host : Type 0 where
  pub sha256 : Text
  pub extract_error : Option Text
  pub create_error : Option Text
  pub odoo : List Text → Exit
  pub drops : Bool

pub record ValidationJob : Type 0 where
  pub module_name : Text
  pub job_uuid : Text
  pub is_upgrade : Bool
  pub artifact_digest : Option Text
  pub has_admin_dsn : Bool
  pub test_db_prefix : Text

pub record RuntimeReport : Type 0 where
  pub ok : Bool
  pub checks : List Check
  pub test_count : ℕ
  pub log : Text
  pub error : Option Text

abbrev digest_ok : Text → Option Text → Bool
digest_ok actual none = true
digest_ok actual (some expected) = actual == expected

unfoldable pub verifies : Host → ValidationJob → Bool
verifies host job = digest_ok host.sha256 job.artifact_digest

unfoldable pub test_db : ValidationJob → Text
test_db job = job.test_db_prefix ++ map (λ c. if c == b'-' then b'_' else c) job.job_uuid

abbrev pub failed_report : List Check → Text → Option Text → RuntimeReport
failed_report checks log error = record {
  ok = false;
  checks = checks;
  test_count = 0;
  log = log;
  error = error;
}

-- `log[-8_000:]`
abbrev log_tail : Text → Text
log_tail log = drop (length log - 8000) log

unfoldable pub odoo_args : ValidationJob → List Text
odoo_args job =
    codes "-d"
    ∷ test_db job
    ∷ codes (if job.is_upgrade then "-u" else "-i")
    ∷ job.module_name
    ∷ codes "--test-tags"
    ∷ (codes "/" ++ job.module_name)
    ∷ []

unfoldable pub baseline_args : ValidationJob → List Text
baseline_args job = codes "-d" ∷ test_db job ∷ codes "-i" ∷ job.module_name ∷ []

abbrev pub exit_check : String → Text → Exit → Check
exit_check name text exit = record {
  name = name;
  passed = exit.is_zero;
  message = text ++ exit.code;
}

-- the run with its tests, with the checks and the log so far
unfoldable pub run_tests : Host → ValidationJob → List Check → Text → RuntimeReport
run_tests host job checks log =
    let exit = host.odoo (odoo_args job) in
    let done =
      checks
      ++ (log_checks exit.output
          ++ (exit_check "odoo_exit_code" (codes "Odoo exited with ") exit ∷ [])) in
    let ok = all (λ (c : Check). c.passed) done in
    record {
      ok = ok;
      checks = done;
      test_count = test_count exit.output;
      log = log_tail (log ++ exit.output);
      error = if ok then none else some (codes "One or more validation checks failed");
    }

-- the `try` block
unfoldable pub run_in_database : Host → ValidationJob → List Check → RuntimeReport
run_in_database host job checks =
    if job.is_upgrade
    then (let exit = host.odoo (baseline_args job) in
        let seen =
          checks
          ++ (exit_check "upgrade_baseline_install"
                (codes "Candidate baseline install exited with ") exit
              ∷ []) in
        if exit.is_zero
        then run_tests host job seen exit.output
        else failed_report seen (log_tail exit.output)
            (some (codes "Upgrade baseline installation failed")))
    else run_tests host job checks []

abbrev check_of : String → Bool → Text → Check
check_of name passed message = record { name = name; passed = passed; message = message }

abbrev digest_message : Bool → Text → Text
digest_message true actual = codes "Digest verified"
digest_message false actual = codes "Mismatch: " ++ actual

abbrev pub drop_database : Host → Text → List Text → List Text
drop_database host db databases =
    if host.drops then filter (λ d. not (d == db)) databases else databases

-- with or without a database of its own
abbrev pub with_database :
    Host → ValidationJob → List Check → List Text → Option Text → RuntimeReport × List Text
with_database host job checks databases (some error) =
    (failed_report (checks ++ (check_of "db_create" false error ∷ [])) [] none, databases)
with_database host job checks databases none = (
  run_in_database host job (
      checks
      ++ (check_of "db_create" true (codes "Database " ++ (test_db job ++ codes " created")) ∷ [])),
  drop_database host (test_db job) (test_db job ∷ databases),
)

abbrev pub extracted_run :
    Host → ValidationJob → List Check → List Text → Option Text → RuntimeReport × List Text
extracted_run host job checks databases (some error) =
    (failed_report (checks ++ (check_of "extract" false error ∷ [])) [] none, databases)
extracted_run host job checks databases none =
    if job.has_admin_dsn then with_database host job checks databases host.create_error else (
      run_in_database host job
          (checks ++ (check_of "db_create" true (codes "Skipped (no admin_dsn)") ∷ [])),
      databases,
    )

abbrev pub digest_check : Host → ValidationJob → List Check
digest_check host job =
    check_of "artifact_digest" (verifies host job) (digest_message (verifies host job) host.sha256)
    ∷ []

-- the report, and the databases of the server
unfoldable pub run_validate_module : Host → ValidationJob → List Text → RuntimeReport × List Text
run_validate_module host job databases =
    if not (verifies host job)
    then (
      failed_report (digest_check host job) [] (some (codes "Artifact digest mismatch")),
      databases,
    )
    else extracted_run host job (digest_check host job) databases host.extract_error

-- The static checks of `validate_module` are an argument.
unfoldable pub validate_module_full : Bool → Host → ValidationJob → List Text → RuntimeReport
validate_module_full static_passed host job databases =
    if static_passed
    then (run_validate_module host job databases).0
    else failed_report [] [] (some (codes "Static validation failed"))
