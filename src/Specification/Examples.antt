-- ===== src/Specification/Examples.antt =====
-- A prompt that names one model with a dot in its name.
use pi_development_agent.Base.{
  ℕ, arith, arith, ◌<◌, ◌+◌, Text, codes, string_Eq, true, false, leb, List, [], ◌∷◌, map, In, here,
  there, length-append, ◌++◌, length, none, some, ◌≡◌, ◌↔◌, refl, if◌then◌else◌, ◌&&◌, elem,
}
use pi_development_agent.Repair.Acceptance.{
  required_acceptance_failures, failures_of, is_required_of,
}
use pi_development_agent.Specification.Targets.{
  SourceSymbol, names_model, model_loop, note, extract_model_targets, names_field, field_loop,
  field_key, extract_field_targets,
}
use pi_development_agent.Specification.Model.{
  CheckSpec, Python, CheckRow, RunSpecification, Db, SpecificationResult,
}
use pi_development_agent.Specification.Compile.{model_fields, build_model_field_checks}
use pi_development_agent.Specification.Persist.{
  Order, compile_specification, SpecificationSummary, get_specification_summary, requirement_row,
}
use pi_development_agent.Specification.Evaluate.{ValidationReport, PackagedModule, evaluate_checks}
use pi_development_agent.Specification.Settled.{checks_of}
use pi_development_agent.Specification.Extract.{IsDistinct, extract_model_targets_lem}
use pi_development_agent.Specification.Dotted.{field_check, model_fields_dotted}
use pi_development_agent.Specification.Sticky.{evaluate_checks-sticky}
use pi_development_agent.Specification.Summary.{check_id, get_specification_summary-compile}

abbrev lower_letter : ℕ → ℕ
lower_letter c = if leb b'A' c && leb c b'Z' then c + 32 else c

abbrev python : Python
python = record {
  req_id = λ n. n ∷ [];
  check_id = λ n. n ∷ [];
  lower = map lower_letter;
  repr_list = λ names. codes "";
  repr_dict = λ target. codes "";
  sha256_json = λ payload. codes "d";
}

abbrev sale_order : SourceSymbol
sale_order = record { kind = "model"; name = codes "sale.order"; model = none; label = [] }

abbrev note_field : SourceSymbol
note_field = record {
  kind = "field";
  name = codes "note";
  model = some (codes "sale.order");
  label = codes "Remark";
}

abbrev symbols : List SourceSymbol
symbols = sale_order ∷ note_field ∷ []

abbrev prompt : Text
prompt = codes "Add a Note to the Sale Order"

abbrev order : Order
order = record {
  run_id = "r1";
  project_id = 1;
  snapshot_id = none;
  prompt = prompt;
  module_name = codes "sale_note";
  is_upgrade = false;
}

abbrev empty : Db
empty = record { specifications = []; checks = [] }

found : extract_model_targets python.lower prompt symbols ≡ codes "sale.order" ∷ []
unfolding extract_model_targets model_loop names_model note elem
found = refl

keys :
    extract_field_targets python.lower prompt (codes "sale.order" ∷ []) symbols
    ≡ codes "sale.order.note" ∷ []
unfolding extract_field_targets field_loop names_field note elem field_key
keys = refl

abbrev packed : PackagedModule
packed = record { artifact_id = "a1"; validation_id = "v1"; digest = codes "d" }

abbrev good : ValidationReport
good = record { static_passed = true; runtime_ok = true; test_count = 3; error = none }

abbrev bad : ValidationReport
bad = record { static_passed = true; runtime_ok = false; test_count = 0; error = none }

abbrev verified : CheckRow
verified = record {
  id = codes "c";
  check = record {
    run_id = "r1";
    task_id = some "validate_and_verify";
    kind = codes "business_scenario";
    spec_target = codes "";
    is_required = true;
    status = "passed";
  };
  evidence = [];
  result_detail = none;
  evaluated_at = none;
  created_at = 0;
}

extract_model_targets_lem_example :
    IsDistinct (extract_model_targets python.lower prompt symbols)
    × (In (codes "sale.order") (extract_model_targets python.lower prompt symbols) ↔ (
        (symbol : SourceSymbol) × In symbol symbols
        × (codes "sale.order" ≡ symbol.name)
        × (names_model python.lower (python.lower prompt) symbol ≡ true)))
unfolding extract_model_targets model_loop names_model note elem
extract_model_targets_lem_example =
    extract_model_targets_lem python.lower prompt (codes "sale.order") symbols (omega arith)

-- a first key that is another model's, and the one of the field
abbrev dotted_keys : List Text
dotted_keys = codes "res.partner.vat" ∷ (codes "sale.order.note" ∷ [])

model_fields_dotted_example :
    (names : List Text) × (checks : List CheckSpec) × (model_fields dotted_keys (codes "sale.order")
      ≡ some names)
    × (build_model_field_checks (codes "sale.order") names ≡ some checks)
    × In (field_check (codes "sale.order") (codes "order.note")) checks
    × (4 < length (codes "order.note"))
unfolding elem
model_fields_dotted_example =
    model_fields_dotted (codes "sale") (codes "order") (codes "note") dotted_keys refl
      (there (here refl))

evaluate_checks-sticky_example :
    required_acceptance_failures
      (checks_of (evaluate_checks 9 packed bad "r1" (verified ∷ [])))
      "r1"
      (some "validate_and_verify")
    ≡ []
unfolding required_acceptance_failures failures_of is_required_of elem
evaluate_checks-sticky_example =
    evaluate_checks-sticky 9 packed bad "r1" "validate_and_verify" (verified ∷ []) refl

-- Rows come in the order of their identifiers or backwards.
backwards : List CheckRow → List CheckRow
backwards [] = []
backwards (row ∷ rows) = backwards rows ++ (row ∷ [])

length-backwards : (rows : List CheckRow) → length (backwards rows) ≡ length rows
unfolding backwards
length-backwards [] = refl
length-backwards (row ∷ rows) =
    omega (arith, length-append (backwards rows) (row ∷ []), length-backwards rows)

In-snoc : (row x : CheckRow) (rows : List CheckRow) → In row (rows ++ (x ∷ [])) ↔ In row (x ∷ rows)
In-snoc row x [] = (λ m. m, λ m. m)
In-snoc row x (r ∷ rows) = (
  λ m. elim m [
    | here e ↦ there (here e)
    | there n ↦ elim ((In-snoc row x rows).0 n) [ here e ↦ here e | there k ↦ there (there k) ]
  ],
  λ m. elim m [
    | here e ↦ there ((In-snoc row x rows).1 (here e))
    | there n ↦ elim n [ here e ↦ here e | there k ↦ there ((In-snoc row x rows).1 (there k)) ]
  ],
)

In-backwards : (rows : List CheckRow) (row : CheckRow) → In row (backwards rows) ↔ In row rows
unfolding backwards
In-backwards [] row = (λ m. m, λ m. m)
In-backwards (r ∷ rows) row = (
  λ m. elim ((In-snoc row r (backwards rows)).0 m) [
    | here e ↦ here e
    | there n ↦ there ((In-backwards rows row).0 n)
  ],
  λ m.
      (In-snoc row r (backwards rows)).1
        (elim m [ here e ↦ here e | there n ↦ there ((In-backwards rows row).1 n) ]),
)

get_specification_summary-compile_example :
    (result : SpecificationResult) × (after : Db) × (summary : SpecificationSummary)
    × (compile_specification python 5 1 order symbols empty ≡ some (result, after))
    × (get_specification_summary backwards "r1" after ≡ some summary)
    × (length summary.acceptance_checks ≡ length result.check_ids)
    × ((id : Text) → (In id (map check_id summary.acceptance_checks) ↔ In id result.check_ids))
    × (summary.specification.acceptance_check_ids ≡ result.check_ids)
    × (summary.specification.requirements ≡ map requirement_row result.requirements)
    × (summary.specification.digest ≡ result.digest)
get_specification_summary-compile_example =
    get_specification_summary-compile python 5 1 order symbols empty backwards
      (record { same_number = length-backwards; same_rows = In-backwards }) refl refl

abbrev earlier : RunSpecification
earlier = record {
  id = 1;
  run_id = "r1";
  project_id = 1;
  snapshot_id = none;
  requirements = [];
  changes = [];
  acceptance_check_ids = [];
  digest = codes "d";
  status = "draft";
  created_at = 3;
}
