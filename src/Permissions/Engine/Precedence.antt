-- ===== src/Permissions/Engine/Precedence.antt =====
-- An explicit deny in `PermissionEngine.check`.
use pi_development_agent.Base.{
  ℕ, Text, true, false, List, Option, none, some, String, string_Eq, elem, starts_with, In, any,
  In-filter, any-In, arith, ◌≡◌, sym, subst, ◌⊎◌, inl, inr,
}
use pi_development_agent.Permissions.Resource.{
  Arguments, resource_for, resource_matches, workspace_prefix, command_prefix, erp_resource,
}
use pi_development_agent.Permissions.Grants.{
  Grant, Verdict, is_deny, PermissionDecision, in_scope, in_force, evaluate_grants, active_grants,
  matching,
}
use pi_development_agent.Permissions.Grants.Order.{evaluate_grants-deny}
use pi_development_agent.Permissions.Cache
use pi_development_agent.Permissions.Cache.{Cache}
use pi_development_agent.Permissions.Engine.{
  Call, Clock, Capabilities, always_allowed, workspace_layer, command_layer, erp_layer,
  check_grants, approval_layer, key_of, decide, check,
}

-- A resource is a workspace's, a command's, or the tool's own.
pub resource_for_kinds :
    (tool_name : String) (args : Arguments)
    → (starts_with workspace_prefix (resource_for tool_name args) ≡ true)
      ⊎ ((starts_with command_prefix (resource_for tool_name args) ≡ true)
          ⊎ (resource_for tool_name args ≡ erp_resource tool_name))
unfolding resource_for
resource_for_kinds tool_name args = ground arith

-- A grant that the database query of `check` finds, that has not lapsed and that matches.
pub record Applies (now project_id user_id : ℕ) (resource : Text) (db : List Grant) (g : Grant)
    : Type 0 where
  pub stored : In g db
  pub scoped : in_scope project_id user_id g ≡ true
  pub unexpired : in_force now g ≡ true
  pub matched : resource_matches g.resource resource ≡ true

module _ (now p u : ℕ) (tool_name : String) (db : List Grant) where
  matching_deny :
      (resource : Text) (g : Grant)
      → Applies now p u resource db g
      → g.decision ≡ Verdict.deny
      → any (λ g. is_deny g.decision) (matching resource (active_grants now p u db)) ≡ true
  unfolding matching active_grants
  matching_deny resource g a d =
      any-In (λ g. is_deny g.decision) g _
        (In-filter _ g _
          (In-filter (in_force now) g _ (In-filter (in_scope p u) g db a.stored a.scoped)
            a.unexpired)
          a.matched)
        (ground arith)

  erp_refuses :
      (capabilities : Option Capabilities) (d : PermissionDecision)
      → evaluate_grants
          (matching (erp_resource tool_name) (active_grants now p u db))
          (erp_resource tool_name)
        ≡ some d
      → d.allowed ≡ false
      → check_grants now db p u tool_name (erp_resource tool_name) capabilities ≡ d
  unfolding check_grants workspace_layer command_layer erp_layer
  erp_refuses capabilities d e a = ground arith

  -- The layer of the resource decides on the grants for it, so a decision that refuses stands.
  layers_refuse :
      (resource : Text) (capabilities : Option Capabilities) (d : PermissionDecision)
      → (starts_with workspace_prefix resource ≡ true)
        ⊎ ((starts_with command_prefix resource ≡ true) ⊎ (resource ≡ erp_resource tool_name))
      → evaluate_grants (matching resource (active_grants now p u db)) resource ≡ some d
      → d.allowed ≡ false
      → check_grants now db p u tool_name resource capabilities ≡ d
  unfolding check_grants workspace_layer command_layer erp_layer
  layers_refuse resource capabilities d (inl ws) e a = ground arith
  layers_refuse resource capabilities d (inr (inl cmd)) e a = ground arith
  layers_refuse resource capabilities d (inr (inr erp)) e a =
      subst (λ r. check_grants now db p u tool_name r capabilities ≡ d) (sym erp)
        (erp_refuses capabilities d (rw erp at e) a)

-- A deny grant for the resource of a call that is in scope, in force and matches refuses the call
-- in the layers behind the cache, whatever other grants there are.
pub decide-deny :
    (now : ℕ) (db : List Grant) (call : Call) (g : Grant)
    → Applies now call.project_id call.user_id (resource_for call.tool_name call.args) db g
    → g.decision ≡ Verdict.deny
    → ((decide now db call).allowed ≡ false) × ((decide now db call).requires_approval ≡ false)
unfolding decide approval_layer
decide-deny now db call g a deny =
    let resource = resource_for call.tool_name call.args in
    let (d, e, refused, final) =
      evaluate_grants-deny (matching resource (active_grants now call.project_id call.user_id db))
        resource
        (matching_deny now call.project_id call.user_id call.tool_name db resource g a deny) in
    let same =
      layers_refuse now call.project_id call.user_id call.tool_name db resource
        call.erp_capabilities d (resource_for_kinds call.tool_name call.args) e refused in
    ground arith

-- A deny grant for the resource of a call that is in scope, in force and matches makes `check` refuse
-- the call, and not wait for an approval, whatever other grants there are, whatever the instance can
-- do and also after an approval. The tool is not one of those that are always allowed, and the cache
-- has no decision for the call: one that it has is given before any grant is read.
pub check-deny :
    (clock : Clock) (db : List Grant) (call : Call) (store : Cache) (g : Grant)
    → elem call.tool_name always_allowed ≡ false
    → (Cache.get clock.lookup_time (key_of call) store).0 ≡ none
    → Applies clock.now call.project_id call.user_id (resource_for call.tool_name call.args) db g
    → g.decision ≡ Verdict.deny
    → ((check clock db call store).0.allowed ≡ false)
      × ((check clock db call store).0.requires_approval ≡ false)
unfolding check
check-deny clock db call store g unsafe miss a deny =
    ground (arith, decide-deny clock.now db call g a deny)
