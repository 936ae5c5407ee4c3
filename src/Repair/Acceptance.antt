-- ===== src/Repair/Acceptance.antt =====
-- `required_acceptance_failures` of backend/worker.py: what stands between a task and its success.
-- A check's `spec_target` is kept as the text that the message shows.
use pi_development_agent.Base.{
  Text, codes, String, string_Eq, option_Eq, ◌==◌, elem, Bool, true, false, not, ◌&&◌, List, [],
  ◌∷◌, ◌++◌, Option, none, some, filter, map, all, if◌then◌else◌, arith, ◌≡◌, ◌↔◌, Bool-cases, inl,
  inr,
}

pub record AcceptanceCheck : Type 0 where
  pub run_id : String
  pub task_id : Option String
  pub kind : Text
  pub spec_target : Text
  pub is_required : Bool
  pub status : String

-- `CHECK_GATED_TASKS` of backend/specification.py
abbrev pub check_gated_tasks : List String
check_gated_tasks = "validate_and_verify" ∷ []

-- the query
unfoldable pub is_required_of : String → String → AcceptanceCheck → Bool
is_required_of run_id task_id check =
    check.run_id == run_id && check.task_id == some task_id && check.is_required

abbrev pub has_passed : AcceptanceCheck → Bool
has_passed check = check.status == "passed"

abbrev message : AcceptanceCheck → Text
message check = check.kind ++ codes ":" ++ check.spec_target

abbrev pub no_rows : List AcceptanceCheck → Bool
no_rows [] = true
no_rows (c ∷ cs) = false

unfoldable pub failures_of : String → List AcceptanceCheck → List Text
failures_of task_id checks =
    if elem task_id check_gated_tasks && no_rows checks
    then (codes "AcceptanceCheckMissing: no required checks were compiled for " ++ codes task_id)
      ∷ []
    else map message (filter (λ c. not (has_passed c)) checks)

unfoldable pub required_acceptance_failures :
    List AcceptanceCheck → String → Option String → List Text
required_acceptance_failures db run_id none =
    codes "AcceptanceCheckMissing: task id is required" ∷ []
required_acceptance_failures db run_id (some task_id) =
    if task_id == ""
    then codes "AcceptanceCheckMissing: task id is required" ∷ []
    else failures_of task_id (filter (is_required_of run_id task_id) db)

none_listed :
    (checks : List AcceptanceCheck)
    → (map message (filter (λ c. not (has_passed c)) checks) ≡ []) ↔ (all has_passed checks ≡ true)
none_listed [] = ground arith
none_listed (c ∷ checks) = elim (Bool-cases (has_passed c)) [
  | inl passed ↦ ground (arith, passed, none_listed checks)
  | inr other ↦ ground (arith, other)
]

none_reported :
    (task_id : String) (checks : List AcceptanceCheck)
    → (failures_of task_id checks ≡ []) ↔ (
        (all has_passed checks ≡ true)
        × ((elem task_id check_gated_tasks && no_rows checks) ≡ false))
unfolding failures_of
none_reported task_id checks =
    elim (Bool-cases (elem task_id check_gated_tasks && no_rows checks)) [
      | inl gap ↦ ground (arith, gap)
      | inr complete ↦ ground (arith, complete, none_listed checks)
    ]

-- Nothing is reported for a task exactly when it has a name, all required checks of it in this run
-- have passed, and it is not a gated task without any.
pub required_acceptance_failures-none :
    (db : List AcceptanceCheck) (run_id task_id : String)
    → (required_acceptance_failures db run_id (some task_id) ≡ []) ↔ (
        ((task_id == "") ≡ false)
        × (all has_passed (filter (is_required_of run_id task_id) db) ≡ true)
        × ((elem task_id check_gated_tasks && no_rows (filter (is_required_of run_id task_id) db))
            ≡ false))
unfolding required_acceptance_failures
required_acceptance_failures-none db run_id task_id = elim (Bool-cases (task_id == "")) [
  | inl empty ↦ ground (arith, empty)
  | inr named ↦
      ground (arith, named, none_reported task_id (filter (is_required_of run_id task_id) db))
]
