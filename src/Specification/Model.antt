-- ===== src/Specification/Model.antt =====
-- What backend/specification.py builds: check blueprints, requirements, and the rows of the tables it
-- writes. An exception that it raises is `none`.
use pi_development_agent.Base.{
  ℕ, Text, String, string_Eq, elem, Bool, List, [], ◌∷◌, Option, none, some, if◌then◌else◌,
}
use pi_development_agent.Repair.Acceptance.{AcceptanceCheck}

infixl 5 ◌>>=◌
abbrev pub ◌>>=◌ {ℓ κ} : {A : Type ℓ} {B : Type κ} → Option A → (A → Option B) → Option B
none >>= f = none
some a >>= f = f a

-- `VALID_CHECK_KINDS`
abbrev pub valid_check_kinds : List String
valid_check_kinds =
    "source_reuse" ∷ "module_install" ∷ "module_upgrade" ∷ "artifact_digest" ∷ "model_field"
    ∷ "xml_id" ∷ "view_load" ∷ "acl" ∷ "record_rule" ∷ "python_test" ∷ "business_scenario" ∷ []

-- a `spec_target`, by its keys
abbrev pub SpecTarget : Type 0
SpecTarget = List (String × Text)

pub record CheckSpec : Type 0 where
  pub kind : String
  pub spec_target : SpecTarget
  pub is_required : Bool
  pub task_id : Option String

-- `CheckSpec.__post_init__`
unfoldable pub post_init : CheckSpec → Option CheckSpec
post_init check = if elem check.kind valid_check_kinds then some check else none

-- a list of blueprints, each of them constructed
unfoldable pub construct_all : List CheckSpec → Option (List CheckSpec)
construct_all [] = some []
construct_all (c ∷ cs) = do check ← post_init c; checks ← construct_all cs; some (check ∷ checks)

pub record RequirementSpec : Type 0 where
  pub id : Text
  pub title : Text
  pub description : Text
  pub implementation_targets : List Text
  pub check_specs : List CheckSpec

-- what the digest is taken of
pub record SpecPayload : Type 0 where
  pub run_id : String
  pub module_name : Text
  pub is_upgrade : Bool
  pub requirements : List (Text × Text × List Text × ℕ)

-- What Python gives: the texts of identifiers in the order they are drawn, `str.lower`, the text of a
-- list and of a dict, and the digest.
pub record Python : Type 0 where
  pub req_id : ℕ → Text
  pub check_id : ℕ → Text
  pub lower : Text → Text
  pub repr_list : List Text → Text
  pub repr_dict : SpecTarget → Text
  pub sha256_json : SpecPayload → Text

-- a requirement as the specification's row keeps it
pub record RequirementRow : Type 0 where
  pub id : Text
  pub title : Text
  pub description : Text
  pub targets : List Text

pub record RunSpecification : Type 0 where
  pub id : ℕ
  pub run_id : String
  pub project_id : ℕ
  pub snapshot_id : Option String
  pub requirements : List RequirementRow
  pub changes : List (String × Text)
  pub acceptance_check_ids : List Text
  pub digest : Text
  pub status : String
  pub created_at : ℕ

-- a piece of evidence for a check: its kind, what it refers to, a digest and a summary
pub record Evidence : Type 0 where
  pub kind : String
  pub ref : String
  pub digest : Text
  pub summary : Text

-- a row of `acceptance_checks`, with what decides the fate of its task as a record of its own
pub record CheckRow : Type 0 where
  pub id : Text
  pub check : AcceptanceCheck
  pub open check use *
  pub evidence : List Evidence
  pub result_detail : Option Text
  pub evaluated_at : Option ℕ
  pub created_at : ℕ

pub record Db : Type 0 where
  pub specifications : List RunSpecification
  pub checks : List CheckRow

pub record SpecificationResult : Type 0 where
  pub specification_id : ℕ
  pub run_id : String
  pub requirements : List RequirementSpec
  pub check_ids : List Text
  pub digest : Text
