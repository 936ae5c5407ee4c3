-- ===== src/Validation/Examples.antt =====
-- A module whose installation and two tests are good.
use pi_development_agent.Base.{
  ◌<◌, codes, true, false, [], ◌∷◌, Option, none, some, elem, is_space, lstrip, strip, ◌≡◌, refl,
}
use pi_development_agent.Repair.Acceptance.{
  required_acceptance_failures, failures_of, is_required_of,
}
use pi_development_agent.Specification.Targets.{
  extract_model_targets, extract_field_targets, classify_feature_areas, model_loop, field_loop,
}
use pi_development_agent.Specification.Model.{
  Python, Db, SpecificationResult, post_init, construct_all,
}
use pi_development_agent.Specification.Compile.{
  build_module_checks, build_test_check, for_each, append, require_module, require_test,
  build_requirements,
}
use pi_development_agent.Specification.Persist.{
  Order, all_checks, check_row, check_rows, persist, insert_rows, compile_specification,
}
use pi_development_agent.Specification.Evaluate.{
  PackagedModule, settle_digest, runtime_passes, settle_runtime, settle_check, is_open_of,
  evaluate_checks,
}
use pi_development_agent.Validation.Log.{
  install_failed, unittest_ok, tests_ok, test_count, log_checks,
}
use pi_development_agent.Validation.Run.{
  Host, ValidationJob, verifies, test_db, odoo_args, run_tests, run_in_database,
  run_validate_module, validate_module_full,
}
use pi_development_agent.Validation.Sound.{validate_module_full-gate}

abbrev python : Python
python = record {
  req_id = λ n. n ∷ [];
  check_id = λ n. n ∷ [];
  lower = λ t. t;
  repr_list = λ names. codes "";
  repr_dict = λ target. codes "";
  sha256_json = λ payload. codes "d";
}

abbrev order : Order
order = record {
  run_id = "r1";
  project_id = 1;
  snapshot_id = none;
  prompt = codes "note";
  module_name = codes "m";
  is_upgrade = false;
}

abbrev empty : Db
empty = record { specifications = []; checks = [] }

abbrev nothing : SpecificationResult × Db
nothing = (
  record { specification_id = 0; run_id = ""; requirements = []; check_ids = []; digest = [] },
  empty,
)

abbrev or_nothing : Option (SpecificationResult × Db) → SpecificationResult × Db
or_nothing none = nothing
or_nothing (some r) = r

abbrev outcome : SpecificationResult × Db
outcome = or_nothing (compile_specification python 5 1 order [] empty)

abbrev packed : PackagedModule
packed = record { artifact_id = "a1"; validation_id = "v1"; digest = codes "d" }

abbrev host : Host
host = record {
  sha256 = codes "d";
  extract_error = none;
  create_error = none;
  odoo = λ args. record {
    is_zero = true;
    code = codes "0";
    output = codes "0 failed, 0 error(s) of 2 tests";
  };
  drops = true;
}

abbrev job : ValidationJob
job = record {
  module_name = codes "m";
  job_uuid = codes "u-1";
  is_upgrade = false;
  artifact_digest = some (codes "d");
  has_admin_dsn = true;
  test_db_prefix = codes "t_";
}

counted : test_count (codes "x Ran 12 tests in 3s") ≡ 12
unfolding test_count
counted = refl

dropped : (run_validate_module host job (codes "erp" ∷ [])).1 ≡ codes "erp" ∷ []
unfolding run_validate_module verifies test_db
dropped = refl

validate_module_full-gate_example :
    (true ≡ true)
    × (verifies host job ≡ true)
    × (host.extract_error ≡ none)
    × ((host.odoo (odoo_args job)).is_zero ≡ true)
    × (install_failed (host.odoo (odoo_args job)).output ≡ false)
    × (0 < test_count (host.odoo (odoo_args job)).output)
    × (tests_ok (host.odoo (odoo_args job)).output ≡ true)
unfolding compile_specification build_requirements extract_model_targets extract_field_targets
    classify_feature_areas model_loop field_loop require_module build_module_checks construct_all
    post_init elem append for_each require_test build_test_check strip lstrip is_space persist
    insert_rows all_checks check_rows check_row evaluate_checks is_open_of settle_check
    settle_digest settle_runtime runtime_passes required_acceptance_failures failures_of
    is_required_of validate_module_full run_validate_module verifies run_in_database run_tests
    log_checks install_failed tests_ok unittest_ok test_count test_db odoo_args
validate_module_full-gate_example =
    validate_module_full-gate python 5 1 9 order [] empty packed true host job (codes "erp" ∷ [])
      outcome.0 outcome.1 refl refl
