-- ===== src/Specification/Complete.antt =====
-- The last requirement of a specification: the check that a test run settles.
use pi_development_agent.Base.{
  Text, string_Eq, option_Eq, ◌==◌, elem, ◌&&◌, Bool, true, List, [], ◌∷◌, ◌++◌, any, some, ◌≡◌,
  refl, arith,
}
use pi_development_agent.Specification.Model.{CheckSpec, construct_all, post_init, RequirementSpec}
use pi_development_agent.Specification.Compile.{build_test_check}
use pi_development_agent.Specification.Persist.{all_checks}
use pi_development_agent.Specification.Bounds.{
  IsCompiled, IsBounded, all_checks_append, all_checks_one,
}

abbrev pub scenario_check : Text → CheckSpec
scenario_check scenario = record {
  kind = "business_scenario";
  spec_target = ("scenario", scenario) ∷ [];
  is_required = true;
  task_id = some "validate_and_verify";
}

-- the check of a test run
abbrev pub is_scenario : CheckSpec → Bool
is_scenario c = c.kind == "business_scenario" && c.task_id == some "validate_and_verify"

pub record IsComplete (requirements : List RequirementSpec) : Type 0 where
  pub bounded : IsBounded 17 214 requirements
  pub tested : any is_scenario (all_checks requirements) ≡ true

pub build_test_check_lem :
    (scenario : Text) → build_test_check scenario ≡ some (scenario_check scenario ∷ [])
unfolding build_test_check construct_all post_init elem
build_test_check_lem scenario = refl

pub scenario-IsCompiled : (scenario : Text) → IsCompiled (scenario_check scenario)
unfolding elem
scenario-IsCompiled scenario = (refl, refl)

any_append :
    (xs ys : List CheckSpec) → any is_scenario ys ≡ true → any is_scenario (xs ++ ys) ≡ true
any_append [] ys h = h
any_append (x ∷ xs) ys h = ground (arith, any_append xs ys h)

pub any_scenario :
    (requirements : List RequirementSpec) (last : RequirementSpec)
    → any is_scenario last.check_specs ≡ true
    → any is_scenario (all_checks (requirements ++ (last ∷ []))) ≡ true
any_scenario requirements last h =
    rw (all_checks_append requirements (last ∷ []), all_checks_one last)
      (any_append (all_checks requirements) last.check_specs h)
