-- ===== src/Permissions/Engine/Approval.antt =====
-- The tools that always need the approval of a human.
use pi_development_agent.Base.{
  ℕ, Bool, true, false, not, List, [], Option, some, String, string_Eq, elem, lookup,
  codes-injective, all-elem, arith, ◌≡◌, ◌≢◌, refl, sym, subst, ◌==◌, ◌∙◌, inl, inr,
}
use text.Mathlib.TextEquality.{eq_iff}
use pi_development_agent.Permissions.Resource.{Arguments, resource_for, path_tools, erp_resource}
use pi_development_agent.Permissions.Grants.{Grant, PermissionDecision}
use pi_development_agent.Permissions.Cache.{Key, key_Eq, Cache, ApprovalState, approved}
use pi_development_agent.Permissions.Engine.{
  Call, Clock, Capabilities, always_allowed, always_require_approval, workspace_layer,
  command_layer, erp_layer, last_layers, check_grants, approval_layer, key_of, decide, check,
}
use pi_development_agent.Permissions.Engine.Cases.{lookup-check, check_cases}
use pi_development_agent.Permissions.Engine.Precedence.{resource_for_kinds}

not-true : (b : Bool) → not b ≡ true → b ≡ false
not-true b h = ground arith

-- The two sets of tools have no common member.
never_safe :
    (tool_name : String)
    → elem tool_name always_require_approval ≡ true
    → elem tool_name always_allowed ≡ false
unfolding elem
never_safe t h =
    not-true _ (all-elem (λ t. not (elem t always_allowed)) t always_require_approval refl h)

-- All members but `terminal_command` are tools of their own resource.
not_by_path :
    (tool_name : String)
    → elem tool_name always_require_approval ≡ true
    → elem tool_name path_tools ≡ false
unfolding elem
not_by_path t h =
    not-true _ (all-elem (λ t. not (elem t path_tools)) t always_require_approval refl h)

not_a_check :
    (tool_name : String)
    → elem tool_name always_require_approval ≡ true
    → (tool_name == "run_project_check") ≡ false
unfolding elem
not_a_check t h =
    not-true _ (all-elem (λ t. not (t == "run_project_check")) t always_require_approval refl h)

not_terminal : (t : String) → t ≢ "terminal_command" → (t == "terminal_command") ≡ false
not_terminal t n = ground (arith, eq_iff t "terminal_command")

resource_is_own :
    (tool_name : String) (args : Arguments)
    → elem tool_name always_require_approval ≡ true
    → tool_name ≢ "terminal_command"
    → resource_for tool_name args ≡ erp_resource tool_name
unfolding resource_for
resource_is_own t args h n = rw (not_by_path t h, not_a_check t h, not_terminal t n) (ground arith)

-- The layers under the approval never allow a tool of the set by the tool's own resource: not by a
-- grant, and not by default.
layers_withhold :
    (now p u : ℕ) (db : List Grant) (tool_name : String) (capabilities : Option Capabilities)
    → elem tool_name always_require_approval ≡ true
    → (check_grants now db p u tool_name (erp_resource tool_name) capabilities).allowed ≡ false
unfolding check_grants workspace_layer command_layer erp_layer last_layers
layers_withhold now p u db t c h = ground arith

codes_after : (s t : String) → erp_resource s ≡ erp_resource t → s ≡ t
codes_after s t h = codes-injective s t (ground arith)

-- A call whose resource is a tool's own is a call of that tool.
own_resource :
    (tool_name other : String) (args : Arguments)
    → resource_for tool_name args ≡ erp_resource other
    → tool_name ≡ other
own_resource t o args h = elim (resource_for_kinds t args) [
  | inl ws ↦ absurd (ground arith)
  | inr (inl cmd) ↦ absurd (ground arith)
  | inr (inr erp) ↦ codes_after t o (sym erp ∙ h)
]

approval_withholds :
    (s : ApprovalState) (d : PermissionDecision)
    → s ≢ approved
    → d.allowed ≡ false
    → (approval_layer s d).allowed ≡ false
unfolding approval_layer
approval_withholds s d n h = ground arith

decide_withholds :
    (now : ℕ) (db : List Grant) (call : Call) (tool_name : String)
    → elem tool_name always_require_approval ≡ true
    → resource_for call.tool_name call.args ≡ erp_resource tool_name
    → call.approval_state ≢ approved
    → (decide now db call).allowed ≡ false
unfolding decide
decide_withholds now db call t h r n =
    let same : call.tool_name ≡ t = own_resource call.tool_name t call.args r in
    let own : resource_for call.tool_name call.args ≡ erp_resource call.tool_name = ground arith in
    let h' : elem call.tool_name always_require_approval ≡ true = ground arith in
    approval_withholds call.approval_state _ n (
      subst
        (λ r'.
          (check_grants now db call.project_id call.user_id call.tool_name r'
            call.erp_capabilities).allowed
          ≡ false)
        (sym own)
        (layers_withhold now call.project_id call.user_id db call.tool_name call.erp_capabilities
          h'))

-- No cached decision allows a tool of the set but one that was taken after an approval.
pub record IsGuarded (store : Cache) : Type 0 where
  pub withheld :
      (k : Key) (d : PermissionDecision) (t : ℕ) (tool_name : String)
      → elem tool_name always_require_approval ≡ true
      → k.resource ≡ erp_resource tool_name
      → k.approval_state ≢ approved
      → lookup k store ≡ some (d, t)
      → d.allowed ≡ false

pub IsGuarded-empty : IsGuarded []
IsGuarded-empty = record { withheld = λ k d t tool h r n e. absurd (unfold lookup in ground arith) }

-- Every call of `check`, for any tool, keeps the cache free of decisions that allow a tool which
-- always needs approval without one.
pub check-IsGuarded :
    (clock : Clock) (db : List Grant) (call : Call) (store : Cache)
    → IsGuarded store
    → IsGuarded (check clock db call store).1
unfolding key_of
check-IsGuarded clock db call store g = record {
  withheld = λ k d t tool h r n e. elim (lookup-check clock db call store k (d, t) e) [
    | inl (same, new, _) ↦
        ground (arith, decide_withholds clock.now db call tool h (ground arith) (ground arith))
    | inr old ↦ g.withheld k d t tool h r n old
  ];
}

-- For a tool that always needs approval and that is named by its own resource, which all of them
-- are but `terminal_command`, `check` allows nothing without an approval: no grant does, no
-- default, and no answer from the cache.
pub check-needs_approval :
    (clock : Clock) (db : List Grant) (call : Call) (store : Cache)
    → IsGuarded store
    → elem call.tool_name always_require_approval ≡ true
    → call.tool_name ≢ "terminal_command"
    → call.approval_state ≢ approved
    → (check clock db call store).0.allowed ≡ false
check-needs_approval clock db call store g h n a =
    let own = resource_is_own call.tool_name call.args h n in
    elim (check_cases clock db call store) [
      | inl (safe, _) ↦ absurd (ground (arith, never_safe call.tool_name h))
      | inr (inl ((d, t), found, same)) ↦ ground (
        arith,
        g.withheld (key_of call) d t call.tool_name h (unfold key_of in own) (unfold key_of in a)
            found,
      )
      | inr (inr same) ↦ ground (arith, decide_withholds clock.now db call call.tool_name h own a)
    ]
