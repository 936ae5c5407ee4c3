-- ===== src/Specification/Persist.antt =====
-- `compile_specification` of backend/specification.py, which writes the specification of a run and its
-- checks, and `get_specification_summary`.
use pi_development_agent.Base.{
  ℕ, suc, Text, codes, String, string_Eq, ◌==◌, Bool, List, [], ◌∷◌, ◌++◌, map, find, filter,
  length, any, Option, none, some, if◌then◌else◌,
}
use pi_development_agent.Specification.Targets.{
  SourceSymbol, extract_model_targets, extract_field_targets,
}
use pi_development_agent.Specification.Model.{
  ◌>>=◌, CheckSpec, RequirementSpec, SpecPayload, Python, RequirementRow, RunSpecification,
  CheckRow, Db, SpecificationResult,
}
use pi_development_agent.Specification.Compile.{build_requirements}

-- the arguments of `compile_specification`, less the symbols and the session
pub record Order : Type 0 where
  pub run_id : String
  pub project_id : ℕ
  pub snapshot_id : Option String
  pub prompt : Text
  pub module_name : Text
  pub is_upgrade : Bool

unfoldable pub all_checks : List RequirementSpec → List CheckSpec
all_checks [] = []
all_checks (r ∷ rs) = r.check_specs ++ all_checks rs

abbrev pub is_specification_of : String → RunSpecification → Bool
is_specification_of run_id s = s.run_id == run_id

abbrev pub requirement_row : RequirementSpec → RequirementRow
requirement_row r = record {
  id = r.id;
  title = r.title;
  description = r.description;
  targets = r.implementation_targets;
}

module _ (py : Python) where
  abbrev spec_payload : Order → List RequirementSpec → SpecPayload
  spec_payload o requirements = record {
    run_id = o.run_id;
    module_name = o.module_name;
    is_upgrade = o.is_upgrade;
    requirements =
        map (λ r. (r.id, r.title, r.implementation_targets, length r.check_specs)) requirements;
  }

  unfoldable pub check_row : ℕ → String → ℕ → CheckSpec → CheckRow
  check_row now run_id n spec = record {
    id = py.check_id n;
    check = record {
      run_id = run_id;
      task_id = spec.task_id;
      kind = codes spec.kind;
      spec_target = py.repr_dict spec.spec_target;
      is_required = spec.is_required;
      status = "pending";
    };
    evidence = [];
    result_detail = none;
    evaluated_at = none;
    created_at = now;
  }

  -- the loop over the blueprints; the identifiers are drawn in its order
  unfoldable pub check_rows : ℕ → String → ℕ → List CheckSpec → List CheckRow
  check_rows now run_id n [] = []
  check_rows now run_id n (spec ∷ specs) =
      check_row now run_id n spec ∷ check_rows now run_id (suc n) specs

  -- the rows of the specification and of its checks, as the inserts leave them
  unfoldable pub insert_rows :
      ℕ → ℕ → Order → List SourceSymbol → List RequirementSpec → Db → SpecificationResult × Db
  insert_rows now new_id o symbols requirements db =
      let models = extract_model_targets py.lower o.prompt symbols in
      let fields = extract_field_targets py.lower o.prompt models symbols in
      let rows = check_rows now o.run_id 0 (all_checks requirements) in
      let ids = map (λ (c : CheckRow). c.id) rows in
      let digest = py.sha256_json (spec_payload o requirements) in
      (
        record {
          specification_id = new_id;
          run_id = o.run_id;
          requirements = requirements;
          check_ids = ids;
          digest = digest;
        },
        record {
          specifications =
              db.specifications
              ++ (record {
                id = new_id;
                run_id = o.run_id;
                project_id = o.project_id;
                snapshot_id = o.snapshot_id;
                requirements = map requirement_row requirements;
                changes = map (λ t. ("model", t)) models ++ map (λ f. ("field", f)) fields;
                acceptance_check_ids = ids;
                digest = digest;
                status = "draft";
                created_at = now;
              }
                  ∷ []);
          checks = db.checks ++ rows;
        },
      )

  -- A run has at most one specification (`run_id` is unique in its table), so the flush of a second
  -- one raises. The run, the project and the snapshot of the order are in the database.
  unfoldable pub persist :
      ℕ
      → ℕ
      → Order
      → List SourceSymbol
      → List RequirementSpec
      → Db
      → Option (SpecificationResult × Db)
  persist now new_id o symbols requirements db =
      if any (is_specification_of o.run_id) db.specifications
      then none
      else some (insert_rows now new_id o symbols requirements db)

  -- The specification's identifier `new_id` is the table's next.
  unfoldable pub compile_specification :
      ℕ → ℕ → Order → List SourceSymbol → Db → Option (SpecificationResult × Db)
  compile_specification now new_id o symbols db = do
    requirements ← build_requirements py o.prompt o.module_name o.is_upgrade symbols
    persist now new_id o symbols requirements db

abbrev pub is_check_of : String → CheckRow → Bool
is_check_of run_id c = c.run_id == run_id

-- what `get_specification_summary` returns: the row and the checks, whose fields it copies
pub record SpecificationSummary : Type 0 where
  pub specification : RunSpecification
  pub acceptance_checks : List CheckRow

abbrev pub summary_of : List CheckRow → Option RunSpecification → Option SpecificationSummary
summary_of checks none = none
summary_of checks (some spec) = some (record { specification = spec; acceptance_checks = checks })

-- The query for the checks states no order: `as_read` is the order in which the database gives the
-- rows.
unfoldable pub get_specification_summary :
    (List CheckRow → List CheckRow) → String → Db → Option SpecificationSummary
get_specification_summary as_read run_id db =
    summary_of (as_read (filter (is_check_of run_id) db.checks))
      (find (is_specification_of run_id) db.specifications)
