-- ===== src/Specification/Bounds.antt =====
-- What `build_requirements` of backend/specification.py returns, for every prompt and every source: it
-- never raises, and its requirements and checks are bounded and well formed.
use pi_development_agent.Base.{
  ℕ, suc, ◌+◌, ◌≤◌, Text, codes, string_Eq, nat_Eq, ◌==◌, elem, starts_with, Bool, true, false,
  List, [], ◌∷◌, ◌++◌, All, All-append, map, length, append_assoc, append_nil, length-append, some,
  ◌≡◌, arith, refl, sym, ap, ◌∙◌, Bool-cases, inl, inr, if◌then◌else◌,
}
use pi_development_agent.Specification.Model.{
  valid_check_kinds, CheckSpec, post_init, construct_all, RequirementSpec,
}
use pi_development_agent.Specification.Compile.{
  build_module_checks, build_model_field_checks, build_view_checks, build_security_checks,
  build_test_check, required_check, after_dot, after_dots, model_fields,
}
use pi_development_agent.Specification.Persist.{all_checks}
use pi_development_agent.Specification.Yields.{
  Yields, yields, Yields-bind, Yields-some, Yields-weaken,
}

-- a blueprint that can be constructed and that its task needs
abbrev pub IsCompiled : CheckSpec → Type 0
IsCompiled c = (elem c.kind valid_check_kinds ≡ true) × (c.is_required ≡ true)

-- at most `r` requirements with at most `c` checks, all of them compiled
pub record IsBounded (r c : ℕ) (requirements : List RequirementSpec) : Type 0 where
  pub few : length requirements ≤ r
  pub fewer : length (all_checks requirements) ≤ c
  pub compiled : All IsCompiled (all_checks requirements)

pub all_checks_append :
    (xs ys : List RequirementSpec) → all_checks (xs ++ ys) ≡ all_checks xs ++ all_checks ys
unfolding all_checks
all_checks_append [] ys = refl
all_checks_append (x ∷ xs) ys =
    rw (all_checks_append xs ys) (sym (append_assoc x.check_specs (all_checks xs) (all_checks ys)))

pub all_checks_one : (r : RequirementSpec) → all_checks (r ∷ []) ≡ r.check_specs
unfolding all_checks
all_checks_one r = append_nil r.check_specs

-- One requirement more.
pub IsBounded-append :
    (r c k : ℕ) (requirements : List RequirementSpec) (last : RequirementSpec)
    → IsBounded r c requirements
    → All IsCompiled last.check_specs
    → length last.check_specs ≤ k
    → IsBounded (suc r) (c + k) (requirements ++ (last ∷ []))
IsBounded-append r c k requirements last b h fits =
    let checks = last.check_specs in
    let e : all_checks (requirements ++ (last ∷ [])) ≡ all_checks requirements ++ checks =
      all_checks_append requirements (last ∷ [])
      ∙ ap (λ t. all_checks requirements ++ t) (all_checks_one last) in
    record {
      few = omega (arith, length-append requirements (last ∷ []), b.few);
      fewer = rw e (omega (arith, length-append (all_checks requirements) checks, b.fewer));
      compiled = rw e (All-append IsCompiled (all_checks requirements) checks b.compiled h);
    }

construct_all-some : (cs : List CheckSpec) → All IsCompiled cs → construct_all cs ≡ some cs
unfolding construct_all post_init
construct_all-some [] h = refl
construct_all-some (c ∷ cs) h = ground (arith, construct_all-some cs h.1)

built :
    (cs : List CheckSpec) (k : ℕ)
    → All IsCompiled cs
    → length cs ≤ k
    → Yields (λ r. All IsCompiled r × (length r ≤ k)) (construct_all cs)
built cs k h b = Yields-some (construct_all cs) cs (construct_all-some cs h) (h, b)

pub module_checks-Yields :
    (module_name : Text) (is_upgrade : Bool)
    → Yields (λ r. All IsCompiled r × (length r ≤ 2)) (build_module_checks module_name is_upgrade)
unfolding build_module_checks elem
module_checks-Yields module_name true = built _ 2 (ground arith) (omega arith)
module_checks-Yields module_name false = built _ 2 (ground arith) (omega arith)

pub security_checks-Yields :
    (model : Text) → Yields (λ r. All IsCompiled r × (length r ≤ 1)) (build_security_checks model)
unfolding build_security_checks elem
security_checks-Yields model = built _ 1 (ground arith) (omega arith)

pub test_check-Yields :
    (scenario : Text) → Yields (λ r. All IsCompiled r × (length r ≤ 1)) (build_test_check scenario)
unfolding build_test_check elem
test_check-Yields scenario = built _ 1 (ground arith) (omega arith)

pub view_checks-Yields :
    (model form list : Text)
    → Yields (λ r. All IsCompiled r × (length r ≤ 4)) (build_view_checks model (form ∷ list ∷ []))
unfolding build_view_checks elem
view_checks-Yields model form list = built _ 4 (ground arith) (omega arith)

field_specs-IsCompiled :
    (f : Text → CheckSpec) (fields : List Text)
    → ((x : Text) → IsCompiled (f x))
    → All IsCompiled (map f fields) × (length (map f fields) ≤ length fields)
field_specs-IsCompiled f [] h = (tt, omega arith)
field_specs-IsCompiled f (x ∷ xs) h =
    let (compiled, few) = field_specs-IsCompiled f xs h in ((h x, compiled), omega arith)

pub field_checks-IsCompiled :
    (model : Text) (fields : List Text)
    → Yields
        (λ r. All IsCompiled r × (length r ≤ length fields))
        (build_model_field_checks model fields)
unfolding build_model_field_checks elem
field_checks-IsCompiled model fields =
    let (compiled, few) = field_specs-IsCompiled _ fields (λ x. ground arith) in
    built _ (length fields) compiled few

pub field_checks-some :
    (model : Text) (fields : List Text)
    → build_model_field_checks model fields
      ≡ some (
          map
            (λ f.
              required_check "model_field"
                (("model", model) ∷ ("field", f) ∷ [])
                "validate_and_verify")
            fields)
unfolding build_model_field_checks elem
field_checks-some model fields =
    construct_all-some _ (field_specs-IsCompiled _ fields (λ x. ground arith)).0

-- A text that begins with a model's name and a dot has a dot.
pub after_dot-key :
    (model key : Text)
    → starts_with (model ++ codes ".") key ≡ true
    → (rest : Text) × (after_dot key ≡ some rest)
unfolding after_dot
after_dot-key [] [] h = absurd (cc)
after_dot-key [] (c ∷ cs) h = (cs, ground arith)
after_dot-key (m ∷ ms) [] h = absurd (cc)
after_dot-key (m ∷ ms) (c ∷ cs) h =
    let (rest, e) = after_dot-key ms cs (ground arith) in
    (if c == b'.' then cs else rest, ground arith)

pub model_fields-Yields :
    (model : Text) (keys : List Text)
    → Yields (λ names. length names ≤ length keys) (model_fields keys model)
unfolding model_fields after_dots
model_fields-Yields model [] = yields [] (omega arith)
model_fields-Yields model (key ∷ keys) =
    let rest = model_fields-Yields model keys in
    elim (Bool-cases (starts_with (model ++ codes ".") key)) [
      | inl mine ↦
          let (name, e) = after_dot-key model key mine in
          rw mine (
            Yields-bind _ (Yields-some {P = λ _. Unit {0}} (after_dot key) name e tt)
              λ a _. Yields-bind _ rest λ names h. yields (a ∷ names) (omega arith))
      | inr other ↦ rw other (Yields-weaken rest λ names h. omega arith)
    ]
