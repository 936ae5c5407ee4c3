-- ===== src/Specification/Totality.antt =====
-- The requirements that `compile_specification` builds, step by step: no step raises, whatever the
-- prompt and the source are.
use pi_development_agent.Base.{
  ℕ, suc, ◌+◌, ◌*◌, ◌≤◌, Text, string_Eq, Bool, true, false, option_Eq, refl, List, [], ◌∷◌, All,
  take, length, length-take-le, some, arith, if◌then◌else◌,
}
use pi_development_agent.Specification.Targets.{
  SourceSymbol, extract_model_targets, extract_field_targets,
}
use pi_development_agent.Specification.Model.{CheckSpec, RequirementSpec, Python}
use pi_development_agent.Specification.Compile.{
  for_each, append, require_module, require_named, require_fields, require_views, require_security,
  require_test, scenario_label, build_requirements,
}
use pi_development_agent.Specification.Persist.{all_checks}
use pi_development_agent.Specification.Yields.{
  Yields, yields, Yields-bind, Yields-weaken, for_each-Yields,
}
use pi_development_agent.Specification.Complete.{
  IsComplete, build_test_check_lem, scenario-IsCompiled, any_scenario,
}
use pi_development_agent.Specification.Bounds.{
  IsCompiled, IsBounded, IsBounded-append, module_checks-Yields, security_checks-Yields,
  view_checks-Yields, field_checks-IsCompiled, model_fields-Yields,
}

IsBounded-weaken :
    (r s c d : ℕ) (requirements : List RequirementSpec)
    → IsBounded r c requirements
    → r ≤ s
    → c ≤ d
    → IsBounded s d requirements
IsBounded-weaken r s c d requirements b few fewer = ground arith

nothing-IsBounded : IsBounded 0 0 []
unfolding all_checks
nothing-IsBounded = ground arith

module _ (py : Python) where
  -- A step whose checks are built and then appended as one requirement.
  step :
      (r c k : ℕ) (requirements : List RequirementSpec) (title description target : Text)
      (checks : List CheckSpec)
      → IsBounded r c requirements
      → All IsCompiled checks × (length checks ≤ k)
      → Yields
          (IsBounded (suc r) (c + k))
          (some (append py requirements title description target checks))
  unfolding append
  step r c k requirements title description target checks b h =
      yields _ (IsBounded-append r c k requirements _ b h.0 h.1)

  require_module-Yields :
      (module_name : Text) (is_upgrade : Bool)
      → Yields (IsBounded 1 2) (require_module py module_name is_upgrade)
  unfolding require_module
  require_module-Yields module_name is_upgrade =
      Yields-bind _ (module_checks-Yields module_name is_upgrade)
        λ checks h. step 0 0 2 [] _ _ _ checks nothing-IsBounded h

  require_named-Yields :
      (r c : ℕ) (model : Text) (names : List Text) (requirements : List RequirementSpec)
      → IsBounded r c requirements
      → length names ≤ 20
      → Yields (IsBounded (suc r) (c + 20)) (require_named py model names requirements)
  unfolding require_named
  require_named-Yields r c model [] requirements b h =
      yields requirements
        (IsBounded-weaken r (suc r) c (c + 20) requirements b (omega arith) (omega arith))
  require_named-Yields r c model (f ∷ fs) requirements b h =
      Yields-bind _ (field_checks-IsCompiled model (f ∷ fs))
        λ checks p. step r c 20 requirements _ _ _ checks b (p.0, omega (arith, p.1))

  require_fields-Yields :
      (r c : ℕ) (keys : List Text) (model : Text) (requirements : List RequirementSpec)
      → length keys ≤ 20
      → IsBounded r c requirements
      → Yields (IsBounded (suc r) (c + 20)) (require_fields py keys model requirements)
  unfolding require_fields
  require_fields-Yields r c keys model requirements few b =
      Yields-bind _ (model_fields-Yields model keys)
        λ names h. require_named-Yields r c model names requirements b (omega arith)

  require_views-Yields :
      (r c : ℕ) (model : Text) (requirements : List RequirementSpec)
      → IsBounded r c requirements
      → Yields (IsBounded (suc r) (c + 4)) (require_views py model requirements)
  unfolding require_views
  require_views-Yields r c model requirements b =
      Yields-bind _ (view_checks-Yields model _ _)
        λ checks h. step r c 4 requirements _ _ _ checks b h

  require_security-Yields :
      (r c : ℕ) (model : Text) (requirements : List RequirementSpec)
      → IsBounded r c requirements
      → Yields (IsBounded (suc r) (c + 1)) (require_security py model requirements)
  unfolding require_security
  require_security-Yields r c model requirements b =
      Yields-bind _ (security_checks-Yields model)
        λ checks h. step r c 1 requirements _ _ _ checks b h

  fields_loop-Yields :
      (keys models : List Text) (requirements : List RequirementSpec)
      → length keys ≤ 20
      → length models ≤ 10
      → IsBounded 1 2 requirements
      → Yields (IsBounded 11 202) (for_each (require_fields py keys) models requirements)
  fields_loop-Yields keys models requirements few ten b =
      Yields-weaken
        (for_each-Yields (λ n s. IsBounded (1 + n) (2 + n * 20) s) (require_fields py keys)
          (λ model n s p.
            Yields-weaken (require_fields-Yields (1 + n) (2 + n * 20) keys model s few p)
              λ a q. IsBounded-weaken _ _ _ _ a q (omega arith) (omega arith))
          models 0 (length models) requirements (omega arith) b)
        λ a q. IsBounded-weaken _ _ _ _ a q (omega arith) (omega arith)

  views_loop-Yields :
      (models : List Text) (requirements : List RequirementSpec)
      → length models ≤ 2
      → IsBounded 11 202 requirements
      → Yields (IsBounded 13 210) (for_each (require_views py) models requirements)
  views_loop-Yields models requirements two b =
      Yields-weaken
        (for_each-Yields (λ n s. IsBounded (11 + n) (202 + n * 4) s) (require_views py)
          (λ model n s p.
            Yields-weaken (require_views-Yields (11 + n) (202 + n * 4) model s p)
              λ a q. IsBounded-weaken _ _ _ _ a q (omega arith) (omega arith))
          models 0 (length models) requirements (omega arith) b)
        λ a q. IsBounded-weaken _ _ _ _ a q (omega arith) (omega arith)

  security_loop-Yields :
      (models : List Text) (requirements : List RequirementSpec)
      → length models ≤ 3
      → IsBounded 13 210 requirements
      → Yields (IsBounded 16 213) (for_each (require_security py) models requirements)
  security_loop-Yields models requirements three b =
      Yields-weaken
        (for_each-Yields (λ n s. IsBounded (13 + n) (210 + n) s) (require_security py)
          (λ model n s p.
            Yields-weaken (require_security-Yields (13 + n) (210 + n) model s p)
              λ a q. IsBounded-weaken _ _ _ _ a q (omega arith) (omega arith))
          models 0 (length models) requirements (omega arith) b)
        λ a q. IsBounded-weaken _ _ _ _ a q (omega arith) (omega arith)

  -- the targets for the views
  shown-le : (b : Bool) (models : List Text) → length (if b then take 2 models else []) ≤ 2
  shown-le true models = length-take-le 2 models
  shown-le false models = omega arith

  targets-le :
      (prompt : Text) (symbols : List SourceSymbol)
      → length (extract_model_targets py.lower prompt symbols) ≤ 10
  unfolding extract_model_targets
  targets-le prompt symbols = length-take-le 10 _

  keys-le :
      (prompt : Text) (models : List Text) (symbols : List SourceSymbol)
      → length (extract_field_targets py.lower prompt models symbols) ≤ 20
  unfolding extract_field_targets
  keys-le prompt models symbols = length-take-le 20 _

  -- The last requirement is the scenario test.
  require_test-IsComplete :
      (prompt module_name : Text) (requirements : List RequirementSpec)
      → IsBounded 16 213 requirements
      → Yields IsComplete (require_test py prompt module_name requirements)
  unfolding require_test append
  require_test-IsComplete prompt module_name requirements b =
      rw (build_test_check_lem (scenario_label prompt)) (
        yields _ (record {
          bounded =
              IsBounded-append 16 213 1 requirements _ b
                (scenario-IsCompiled (scenario_label prompt), tt) (omega arith);
          tested = any_scenario requirements _ refl;
        }))

  -- Whatever the prompt and the source are, the requirements can be built: no blueprint has an
  -- unknown kind and no field key lacks its dot. There are at most 17 of them with at most 214
  -- checks, each of a valid kind and required.
  pub build_requirements-total :
      (prompt module_name : Text) (is_upgrade : Bool) (symbols : List SourceSymbol)
      → Yields IsComplete (build_requirements py prompt module_name is_upgrade symbols)
  unfolding build_requirements
  build_requirements-total prompt module_name is_upgrade symbols =
      let models = extract_model_targets py.lower prompt symbols in
      Yields-bind _ (require_module-Yields module_name is_upgrade) λ r1 b1.
        Yields-bind _
          (fields_loop-Yields _ models r1 (keys-le prompt models symbols)
            (targets-le prompt symbols) b1)
          λ r2 b2. Yields-bind _ (views_loop-Yields _ r2 (shown-le _ models) b2) λ r3 b3.
            Yields-bind _ (security_loop-Yields (take 3 models) r3 (length-take-le 3 models) b3)
              λ r4 b4. require_test-IsComplete prompt module_name r4 b4
