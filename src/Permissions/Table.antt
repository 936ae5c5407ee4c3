-- ===== src/Permissions/Table.antt =====
-- The handlers of backend/main.py that write the table of grants: `create_permission`,
-- `delete_permission` and `expire_permission`, and the grant that `decide_run_action` remembers. A
-- user writes only the grants of a project for the user.
use pi_development_agent.Base.{
  ℕ, Text, codes, starts_with, String, string_Eq, nat_Eq, option_Eq, list_Eq, ◌==◌, Bool, true,
  false, not, ◌&&◌, ◌||◌, List, [], ◌∷◌, Option, none, some, any, filter, leb, if◌then◌else◌, arith,
  ◌≡◌, count, suc, Bool-cases, inl, inr, ==_refl,
}
use pi_development_agent.Deployment.Model.{Project, User, Response, http_error, ok, require_project}
use pi_development_agent.Permissions.Grants.{Grant, Verdict}

-- the unique key of the table, for a grant of one user in one project
unfoldable pub is_grant_for : ℕ → ℕ → Text → Grant → Bool
is_grant_for project_id user_id resource g =
    g.project_id == some project_id && g.user_id == some user_id && g.resource == resource

-- The grant with this key gets the decision and the expiry, or a new one, with the given id, is
-- added.
unfoldable pub set_grant : String → ℕ → ℕ → Text → Verdict → Option ℕ → List Grant → List Grant
set_grant id project_id user_id resource decision expires_at [] =
    record {
      id = id;
      project_id = some project_id;
      user_id = some user_id;
      resource = resource;
      decision = decision;
      expires_at = expires_at;
    }
    ∷ []
set_grant id project_id user_id resource decision expires_at (g ∷ grants) =
    if is_grant_for project_id user_id resource g
    then record g { decision = decision; expires_at = expires_at } ∷ grants
    else g ∷ set_grant id project_id user_id resource decision expires_at grants

abbrev is_grantable : Text → Bool
is_grantable resource =
    starts_with (codes "workspace:") resource
    || starts_with (codes "command:") resource
    || starts_with (codes "erp:") resource

-- An expiry that is given has to lie in the future.
abbrev is_past : Option ℕ → ℕ → Bool
is_past none now = false
is_past (some t) now = leb t now

unfoldable pub create_permission :
    String → ℕ → User → Project → Text → Verdict → Option ℕ → List Grant → Response (List Grant)
create_permission id now user project resource decision expires_at grants =
    if not (require_project user project)
    then http_error 404
    else if is_past expires_at now
    then http_error 400
    else if not (is_grantable resource)
    then http_error 400
    else ok (set_grant id project.id user.id resource decision expires_at grants)

-- a grant of the user in the project, by its id
unfoldable pub is_own : String → ℕ → ℕ → Grant → Bool
is_own id project_id user_id g =
    g.id == id && g.project_id == some project_id && g.user_id == some user_id

unfoldable pub delete_permission : String → User → Project → List Grant → Response (List Grant)
delete_permission id user project grants =
    if not (require_project user project)
    then http_error 404
    else if any (is_own id project.id user.id) grants
    then ok (filter (λ g. not (is_own id project.id user.id g)) grants)
    else http_error 404

expire_own : ℕ → String → ℕ → ℕ → List Grant → List Grant
expire_own now id project_id user_id [] = []
expire_own now id project_id user_id (g ∷ grants) =
    (if is_own id project_id user_id g then record g { expires_at = some now } else g)
    ∷ expire_own now id project_id user_id grants

unfoldable pub expire_permission : ℕ → String → User → Project → List Grant → Response (List Grant)
unfolding expire_own
expire_permission now id user project grants =
    if not (require_project user project)
    then http_error 404
    else if any (is_own id project.id user.id) grants
    then ok (expire_own now id project.id user.id grants)
    else http_error 404

-- A grant that is set is the one that the table has for its key, and there is one more row for the
-- key only where there was none.
pub count-set_grant :
    (id : String) (project_id user_id : ℕ) (resource : Text) (decision : Verdict)
    (expires_at : Option ℕ) (grants : List Grant)
    → (any
          (λ g. is_grant_for project_id user_id resource g && (g.expires_at == expires_at))
          (set_grant id project_id user_id resource decision expires_at grants)
        ≡ true)
      × (count
            (is_grant_for project_id user_id resource)
            (set_grant id project_id user_id resource decision expires_at grants)
          ≡ (if any (is_grant_for project_id user_id resource) grants
              then count (is_grant_for project_id user_id resource) grants
              else suc (count (is_grant_for project_id user_id resource) grants)))
unfolding set_grant is_grant_for
count-set_grant id project_id user_id resource decision expires_at [] =
    ground (arith, ==_refl project_id, ==_refl user_id, ==_refl resource, ==_refl expires_at)
count-set_grant id project_id user_id resource decision expires_at (g ∷ grants) =
    elim (Bool-cases (is_grant_for project_id user_id resource g)) [
      | inl own ↦ ground (arith, own, ==_refl expires_at)
      | inr other ↦
          ground (
            arith,
            other,
            count-set_grant id project_id user_id resource decision expires_at grants,
          )
    ]
