-- ===== src/Specification/Compile.antt =====
-- The builders of backend/specification.py and `compile_specification`.
use pi_development_agent.Base.{
  Text, codes, String, string_Eq, nat_Eq, list_Eq, ◌==◌, elem, starts_with, strip, Bool, true,
  false, not, ◌||◌, List, [], ◌∷◌, ◌++◌, map, filter, take, length, Option, none, some,
  if◌then◌else◌,
}
use pi_development_agent.Specification.Targets.{
  SourceSymbol, replace, extract_model_targets, extract_field_targets, classify_feature_areas,
}
use pi_development_agent.Specification.Model.{
  ◌>>=◌, CheckSpec, SpecTarget, construct_all, RequirementSpec, Python,
}

abbrev pub required_check : String → SpecTarget → String → CheckSpec
required_check kind target task = record {
  kind = kind;
  spec_target = target;
  is_required = true;
  task_id = some task;
}

unfoldable pub build_module_checks : Text → Bool → Option (List CheckSpec)
build_module_checks module_name is_upgrade = construct_all (
    required_check (if not is_upgrade then "module_install" else "module_upgrade")
      (("module", module_name) ∷ []) "validate_and_verify"
    ∷ required_check "artifact_digest" (("module", module_name) ∷ []) "validate_and_verify"
    ∷ [])

unfoldable pub build_model_field_checks : Text → List Text → Option (List CheckSpec)
build_model_field_checks model_name field_names = construct_all (
    map
      (λ f.
        required_check "model_field" (("model", model_name) ∷ ("field", f) ∷ [])
          "validate_and_verify")
      field_names)

abbrev pub view_specs : Text → List Text → List CheckSpec
view_specs model_name [] = []
view_specs model_name (xml_id ∷ xml_ids) =
    required_check "xml_id" (("xml_id", xml_id) ∷ []) "implement_views"
    ∷ required_check "view_load" (("xml_id", xml_id) ∷ ("model", model_name) ∷ [])
        "validate_and_verify"
    ∷ view_specs model_name xml_ids

unfoldable pub build_view_checks : Text → List Text → Option (List CheckSpec)
build_view_checks model_name xml_ids = construct_all (view_specs model_name xml_ids)

unfoldable pub build_security_checks : Text → Option (List CheckSpec)
build_security_checks model_name =
    construct_all (required_check "acl" (("model", model_name) ∷ []) "implement_security" ∷ [])

unfoldable pub build_test_check : Text → Option (List CheckSpec)
build_test_check scenario =
    construct_all
      (required_check "business_scenario" (("scenario", scenario) ∷ []) "validate_and_verify" ∷ [])

-- `f.split(".", 1)[1]`; without a dot that is an `IndexError`
unfoldable pub after_dot : Text → Option Text
after_dot [] = none
after_dot (c ∷ cs) = let rest = after_dot cs in if c == b'.' then some cs else rest

unfoldable pub after_dots : List Text → Option (List Text)
after_dots [] = some []
after_dots (f ∷ fs) = do name ← after_dot f; names ← after_dots fs; some (name ∷ names)

-- the field names of one model among the field targets
unfoldable pub model_fields : List Text → Text → Option (List Text)
unfolding after_dots
model_fields field_targets model_name =
    after_dots (filter (starts_with (model_name ++ codes ".")) field_targets)

-- a loop over a list whose body may raise
unfoldable pub for_each {ℓ κ} :
    {A : Type ℓ} {S : Type κ} → (A → S → Option S) → List A → S → Option S
for_each body [] s = some s
for_each body (x ∷ xs) s = do next ← body x s; for_each body xs next

-- `prompt[:120].replace("\n", " ").strip()`
abbrev pub scenario_label : Text → Text
scenario_label prompt = strip (replace b'\n' b' ' (take 120 prompt))

abbrev pub some_name : List Text → Bool
some_name [] = false
some_name (t ∷ ts) = true

module _ (py : Python) where
  -- `requirements.append(RequirementSpec(…))`
  unfoldable pub append :
      List RequirementSpec → Text → Text → Text → List CheckSpec → List RequirementSpec
  append requirements title description target checks =
      requirements
      ++ (record {
        id = codes "req_" ++ py.req_id (length requirements);
        title = title;
        description = description;
        implementation_targets = target ∷ [];
        check_specs = checks;
      }
          ∷ [])

  unfoldable pub require_module : Text → Bool → Option (List RequirementSpec)
  require_module module_name is_upgrade = do
    checks ← build_module_checks module_name is_upgrade
    some (
        append []
          (codes (if is_upgrade then "Upgrade" else "Install") ++ (codes " module " ++ module_name))
          (codes "The module must "
            ++ (codes (if is_upgrade then "upgrade cleanly" else "install")
                ++ codes " on the target Odoo 19 instance."))
          module_name checks)

  unfoldable pub require_named :
      Text → List Text → List RequirementSpec → Option (List RequirementSpec)
  require_named model_name [] requirements = some requirements
  require_named model_name (f ∷ fs) requirements = do
    checks ← build_model_field_checks model_name (f ∷ fs)
    some (
        append requirements (codes "Model " ++ (model_name ++ codes " has required fields"))
          (codes "Fields "
            ++ (py.repr_list (f ∷ fs)
                ++ (codes " must be present on " ++ (model_name ++ codes " after installation."))))
          model_name checks)

  unfoldable pub require_fields :
      List Text → Text → List RequirementSpec → Option (List RequirementSpec)
  unfolding require_named
  require_fields field_targets model_name requirements = do
    names ← model_fields field_targets model_name
    require_named model_name names requirements

  unfoldable pub require_views : Text → List RequirementSpec → Option (List RequirementSpec)
  require_views model_name requirements = do
    let safe = replace b'.' b'_' model_name
    checks ← build_view_checks model_name (
        (codes "view_" ++ (safe ++ codes "_form"))
        ∷ (codes "view_" ++ (safe ++ codes "_list"))
        ∷ [])
    some (
        append requirements (codes "Views for " ++ (model_name ++ codes " load without error"))
          (codes "Form and list views for " ++ (model_name ++ codes " must be loadable."))
          model_name checks)

  unfoldable pub require_security : Text → List RequirementSpec → Option (List RequirementSpec)
  require_security model_name requirements = do
    checks ← build_security_checks model_name
    some (
        append requirements (codes "Access control rules for " ++ model_name)
          (codes "ACL rows must be present for every new model.") model_name checks)

  unfoldable pub require_test : Text → Text → List RequirementSpec → Option (List RequirementSpec)
  require_test prompt module_name requirements = do
    checks ← build_test_check (scenario_label prompt)
    some (
        append requirements (codes "Automated scenario test passes")
          (codes "An odoo.tests.common test covering the core scenario must pass: "
            ++ scenario_label prompt)
          module_name checks)

  -- the requirements 1 to 5
  unfoldable pub build_requirements :
      Text → Text → Bool → List SourceSymbol → Option (List RequirementSpec)
  build_requirements prompt module_name is_upgrade symbols = do
    let models = extract_model_targets py.lower prompt symbols
    let fields = extract_field_targets py.lower prompt models symbols
    let areas = classify_feature_areas py.lower prompt
    with_module ← require_module module_name is_upgrade
    with_fields ← for_each (require_fields fields) models with_module
    with_views ←
        for_each require_views (if elem "view" areas || some_name models then take 2 models else [])
          with_fields
    with_security ← for_each require_security (take 3 models) with_views
    require_test prompt module_name with_security
