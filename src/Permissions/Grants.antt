-- ===== src/Permissions/Grants.antt =====
-- The grants of backend/permissions.py: which are in scope and in force, the order in which they
-- count, `_evaluate_grants`, and the older `active_grant`. Times are microseconds.
pub mod Order
pub mod Agreement
use pi_development_agent.Base.{
  ℕ, Text, codes, Bool, true, false, ◌&&◌, ◌||◌, List, [], ◌∷◌, ◌++◌, Option, none, some, String,
  filter, ltb, if◌then◌else◌, ◌==◌, nat_Eq,
}
use pi_development_agent.Permissions.Resource.{resource_matches}

-- `ask` stands for every value of the column but the other two.
pub data Verdict : Type 0 where
  allow deny ask : Verdict

pub record Grant : Type 0 where
  pub id : String
  pub project_id : Option ℕ
  pub user_id : Option ℕ
  pub resource : Text
  pub decision : Verdict
  pub expires_at : Option ℕ

pub record PermissionDecision : Type 0 where
  pub allowed : Bool
  pub reason : Text
  pub requires_approval : Bool
  pub cached : Bool
  pub grant_id : Option String

abbrev pub null_or : Option ℕ → ℕ → Bool
null_or none n = true
null_or (some m) n = m == n

-- the filter of the query on `PermissionGrant`
unfoldable pub in_scope : ℕ → ℕ → Grant → Bool
in_scope project_id user_id g = null_or g.project_id project_id && null_or g.user_id user_id

unfoldable pub in_force : ℕ → Grant → Bool
in_force now g = elim g.expires_at [ none ↦ true | some t ↦ ltb now t ]

abbrev pub is_deny : Verdict → Bool
is_deny deny = true
is_deny _ = false

abbrev is_given : Option ℕ → Bool
is_given none = false
is_given (some n) = true

-- the key of both sorts: (decision == "deny", project_id is not None, user_id is not None)
unfoldable pub key : Grant → Bool × Bool × Bool
key g = (is_deny g.decision, is_given g.project_id, is_given g.user_id)

bool_le : Bool → Bool → Bool
bool_le true false = false
bool_le _ _ = true

bool_eq : Bool → Bool → Bool
bool_eq true true = true
bool_eq false false = true
bool_eq _ _ = false

-- `<=` of Python on such tuples
unfoldable pub key_le : Bool × Bool × Bool → Bool × Bool × Bool → Bool
unfolding bool_le bool_eq
key_le (a, b, c) (x, y, z) =
    if bool_eq a x then (if bool_eq b y then bool_le c z else bool_le b y) else bool_le a x

-- `sort(key=…, reverse=True)`: descending, and grants of one key keep their order.
unfoldable pub insert_by : Grant → List Grant → List Grant
insert_by g [] = g ∷ []
insert_by g (h ∷ hs) =
    let rest = insert_by g hs in if key_le (key h) (key g) then g ∷ h ∷ hs else h ∷ rest

unfoldable pub sort : List Grant → List Grant
sort [] = []
sort (g ∷ gs) = insert_by g (sort gs)

pub head? : List Grant → Option Grant
head? [] = none
head? (g ∷ gs) = some g

unfoldable pub decision_of : Text → Grant → PermissionDecision
decision_of resource g = elim g.decision [
  | deny ↦ record {
    allowed = false;
    reason = codes "explicit_deny:" ++ resource;
    requires_approval = false;
    cached = false;
    grant_id = some g.id;
  }
  | allow ↦ record {
    allowed = true;
    reason = codes "explicit_allow:" ++ resource;
    requires_approval = false;
    cached = false;
    grant_id = some g.id;
  }
  | ask ↦ record {
    allowed = false;
    reason = codes "ask_required:" ++ resource;
    requires_approval = true;
    cached = false;
    grant_id = some g.id;
  }
]

unfoldable pub evaluate_grants : List Grant → Text → Option PermissionDecision
unfolding head? decision_of
evaluate_grants grants resource = elim (head? (sort grants)) [
  | none ↦ none
  | some top ↦ some (decision_of resource top)
]

-- the grants in scope and in force, and those of them that match
unfoldable pub active_grants : ℕ → ℕ → ℕ → List Grant → List Grant
active_grants now project_id user_id db =
    filter (in_force now) (filter (in_scope project_id user_id) db)

unfoldable pub matching : Text → List Grant → List Grant
matching resource grants = filter (λ g. resource_matches g.resource resource) grants

unfoldable pub active_grant : ℕ → List Grant → ℕ → ℕ → Text → Option Grant
unfolding head?
active_grant now db project_id user_id resource =
    let candidates = filter (in_scope project_id user_id) db in
    let usable = filter (λ g. resource_matches g.resource resource && in_force now g) candidates in
    head? (sort usable)
