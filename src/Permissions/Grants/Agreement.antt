-- ===== src/Permissions/Grants/Agreement.antt =====
-- `active_grant`, kept for older callers, and the grants of the engine choose the same grant.
use pi_development_agent.Base.{
  ℕ, Text, Bool, ◌&&◌, List, [], ◌∷◌, Option, none, some, filter, arith, ◌≡◌, refl,
}
use pi_development_agent.Permissions.Resource.{resource_matches}
use pi_development_agent.Permissions.Grants.{
  Grant, PermissionDecision, in_scope, in_force, decision_of, evaluate_grants, active_grants,
  matching, active_grant,
}

filter_both :
    (p q : Grant → Bool) (xs : List Grant) → filter (λ g. p g && q g) xs ≡ filter p (filter q xs)
filter_both p q [] = refl
filter_both p q (x ∷ xs) = ground (arith, filter_both p q xs)

abbrev pub chosen : Text → Option Grant → Option PermissionDecision
chosen resource none = none
chosen resource (some g) = some (decision_of resource g)

-- For every table of grants, scope, time and resource, the engine's decision on the matching
-- grants is the one that the grant of `active_grant` calls for; both are absent together.
pub active_grant-evaluate_grants :
    (now : ℕ) (db : List Grant) (project_id user_id : ℕ) (resource : Text)
    → evaluate_grants (matching resource (active_grants now project_id user_id db)) resource
      ≡ chosen resource (active_grant now db project_id user_id resource)
unfolding evaluate_grants active_grant matching active_grants
active_grant-evaluate_grants now db p u resource =
    rw
      (filter_both (λ g. resource_matches g.resource resource) (in_force now)
        (filter (in_scope p u) db))
      refl
