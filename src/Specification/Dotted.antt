-- ===== src/Specification/Dotted.antt =====
-- The fields that the checks of backend/specification.py ask for, where the model's name has a dot.
use pi_development_agent.Base.{
  ◌<◌, Text, codes, nat_Eq, list_Eq, elem, true, false, List, [], ◌∷◌, ◌++◌, append_assoc,
  length-append, map, In, here, there, length, starts_with, some, ◌≡◌, arith, refl, sym, ap, subst,
  Bool-cases, inl, inr,
}
use pi_development_agent.Specification.Model.{CheckSpec}
use pi_development_agent.Specification.Compile.{
  required_check, after_dot, after_dots, model_fields, build_model_field_checks,
}
use pi_development_agent.Specification.Yields.{some-Yields}
use pi_development_agent.Specification.Bounds.{
  after_dot-key, model_fields-Yields, field_checks-some,
}

after_dot_first :
    (first rest : Text) → elem b'.' first ≡ false → after_dot (first ++ (b'.' ∷ rest)) ≡ some rest
unfolding elem after_dot
after_dot_first [] rest h = refl
after_dot_first (c ∷ cs) rest h = ground (arith, after_dot_first cs rest)

starts_with_self : (p rest : Text) → starts_with p (p ++ rest) ≡ true
starts_with_self [] rest = refl
starts_with_self (c ∷ cs) rest = ground (arith, starts_with_self cs rest)

-- A key of the model gives its field, whatever the other keys are.
model_fields-In :
    (model key field : Text) (keys : List Text)
    → starts_with (model ++ codes ".") key ≡ true
    → after_dot key ≡ some field
    → In key keys
    → (names : List Text) × (model_fields keys model ≡ some names) × In field names
unfolding model_fields after_dots
model_fields-In model key field [] mine cut m = elim m [ ]
model_fields-In model key field (k ∷ keys) mine cut (here e) =
    let (names, rest, _) = some-Yields (model_fields-Yields model keys) in
    let mine' : starts_with (model ++ codes ".") k ≡ true =
      subst (λ (t : Text). starts_with (model ++ codes ".") t ≡ true) e mine in
    let cut' : after_dot k ≡ some field = subst (λ (t : Text). after_dot t ≡ some field) e cut in
    (field ∷ names, rw (mine', cut', rest) refl, here refl)
model_fields-In model key field (k ∷ keys) mine cut (there m) =
    let (names, rest, there_is) = model_fields-In model key field keys mine cut m in
    elim (Bool-cases (starts_with (model ++ codes ".") k)) [
      | inl also ↦
          let (cut_off, q) = after_dot-key model k also in
          (cut_off ∷ names, rw (also, q, rest) refl, there there_is)
      | inr other ↦ (names, rw (other, rest) refl, there_is)
    ]

In-map : {A B : Type 0} (f : A → B) (x : A) (xs : List A) → In x xs → In (f x) (map f xs)
In-map f x [] m = elim m [ ]
In-map f x (y ∷ xs) (here e) = here (ap f e)
In-map f x (y ∷ xs) (there m) = there (In-map f x xs m)

-- the check that asks for this field of this model
abbrev pub field_check : Text → Text → CheckSpec
field_check model field =
    required_check "model_field" (("model", model) ∷ ("field", field) ∷ []) "validate_and_verify"

-- Whatever the field targets are: where one of them is the key of a model whose name has a dot, that
-- is the model's name, a dot and the field's name, the checks that the compiler builds for the
-- fields of that model have one whose field is the rest of the model's name behind its first dot, a
-- dot and the field's name, which is longer than the field's name.
pub model_fields_dotted :
    (first rest name : Text) (keys : List Text)
    → elem b'.' first ≡ false
    → In ((first ++ (b'.' ∷ rest)) ++ (b'.' ∷ name)) keys
    → let model = first ++ (b'.' ∷ rest) in
      let field = rest ++ (b'.' ∷ name) in
      (names : List Text) × (checks : List CheckSpec) × (model_fields keys model ≡ some names)
      × (build_model_field_checks model names ≡ some checks)
      × In (field_check model field) checks
      × (length name < length field)
model_fields_dotted first rest name keys h m =
    let model = first ++ (b'.' ∷ rest) in
    let field = rest ++ (b'.' ∷ name) in
    let key : model ++ (b'.' ∷ name) ≡ first ++ (b'.' ∷ field) =
      append_assoc first (b'.' ∷ rest) (b'.' ∷ name) in
    let mine : starts_with (model ++ codes ".") (model ++ (b'.' ∷ name)) ≡ true =
      rw (sym (append_assoc model (codes ".") name)) (starts_with_self (model ++ codes ".") name) in
    let cut : after_dot (model ++ (b'.' ∷ name)) ≡ some field =
      rw key (after_dot_first first field h) in
    let (names, built, there_is) =
      model_fields-In model (model ++ (b'.' ∷ name)) field keys mine cut m in
    (
      names,
      map (field_check model) names,
      built,
      field_checks-some model names,
      In-map (field_check model) field names there_is,
      omega (arith, length-append rest (b'.' ∷ name)),
    )
