-- ===== src/Specification/Evaluate.antt =====
-- The part of the tool `package_module` of backend/agent.py that settles the acceptance checks of the run
-- by the report of a validation.
use pi_development_agent.Base.{
  ℕ, Text, codes, String, string_Eq, nat_Eq, list_Eq, option_Eq, ◌==◌, Bool, not, ltb, ◌&&◌, ◌||◌,
  List, [], ◌∷◌, map, Option, none, some, if◌then◌else◌,
}
use pi_development_agent.Repair.Acceptance.{AcceptanceCheck}
use pi_development_agent.Specification.Model.{CheckRow}

-- The report of `validate_module_full`: whether the static checks passed, whether `ok` of the run
-- in the disposable Odoo is True, how many tests it counted, and the text of its error, if it has
-- one that is not empty.
pub record ValidationReport : Type 0 where
  pub static_passed : Bool
  pub runtime_ok : Bool
  pub test_count : ℕ
  pub error : Option Text

-- the rows that the tool has written before
pub record PackagedModule : Type 0 where
  pub artifact_id : String
  pub validation_id : String
  pub digest : Text

-- `check.status = …`
abbrev set_status : String → AcceptanceCheck → AcceptanceCheck
set_status status check = record check { status = status }

unfoldable pub settle_digest : ℕ → PackagedModule → CheckRow → CheckRow
settle_digest now packed row = record row {
  check = set_status "passed" row.check;
  evidence =
      record {
        kind = "artifact";
        ref = packed.artifact_id;
        digest = packed.digest;
        summary = codes "Artifact packaged and hashed";
      }
      ∷ [];
  evaluated_at = some now;
}

-- the condition of a runtime check
unfoldable pub runtime_passes : ValidationReport → CheckRow → Bool
runtime_passes report row =
    report.runtime_ok && (not (row.kind == codes "business_scenario") || ltb 0 report.test_count)

abbrev failure_detail : Option Text → Text
failure_detail none = codes "Runtime evidence did not satisfy this check"
failure_detail (some text) = text

unfoldable pub settle_runtime : ℕ → PackagedModule → ValidationReport → CheckRow → CheckRow
unfolding runtime_passes
settle_runtime now packed report row =
    let passes = runtime_passes report row in
    let detail =
      if passes
      then codes "Disposable Odoo install/upgrade and tests passed"
      else failure_detail report.error in
    record row {
      check = set_status (if passes then "passed" else "failed") row.check;
      result_detail = some detail;
      evidence =
          record {
            kind = "runtime_validation";
            ref = packed.validation_id;
            digest = packed.digest;
            summary = detail;
          }
          ∷ [];
      evaluated_at = some now;
    }

-- the body of the loop, for a check that the query finds
unfoldable pub settle_check : ℕ → PackagedModule → ValidationReport → CheckRow → CheckRow
settle_check now packed report row =
    if row.kind == codes "artifact_digest" && report.static_passed
    then settle_digest now packed row
    else if row.task_id == some "validate_and_verify"
    then settle_runtime now packed report row
    else row

unfoldable pub is_open_of : String → CheckRow → Bool
is_open_of run_id row = row.run_id == run_id && not (row.status == "passed")

unfoldable pub evaluate_checks :
    ℕ → PackagedModule → ValidationReport → String → List CheckRow → List CheckRow
unfolding settle_check is_open_of
evaluate_checks now packed report run_id =
    map (λ row. if is_open_of run_id row then settle_check now packed report row else row)
