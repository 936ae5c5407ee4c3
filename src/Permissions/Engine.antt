-- ===== src/Permissions/Engine.antt =====
-- `PermissionEngine.check` of backend/permissions.py and what it calls. The audit line of `check`
-- goes to the log only and is left out. One call reads the monotonic clock twice, for the lookup
-- and for the store, and the wall clock once.
mod Cases
pub mod Precedence
pub mod Reuse
pub mod Approval
pub mod Finality
use pi_development_agent.Base.{
  ℕ, Text, codes, Bool, true, false, List, [], ◌∷◌, ◌++◌, Option, none, some, String, elem,
  starts_with, if◌then◌else◌, ◌==◌, string_Eq,
}
use pi_development_agent.Permissions.Resource.{
  Arguments, resource_for, path_tools, workspace_prefix, command_prefix, erp_resource,
}
use pi_development_agent.Permissions.Grants.{
  Grant, PermissionDecision, active_grants, matching, evaluate_grants,
}
use pi_development_agent.Permissions.Cache
use pi_development_agent.Permissions.Cache.{
  Cache, Key, ApprovalState, undecided, approved, rejected,
}

-- `_ALWAYS_ALLOWED`
abbrev pub always_allowed : List String
always_allowed =
    "inspect_instance" ∷ "installed_modules" ∷ "inspect_company" ∷ "inspect_users"
    ∷ "inspect_odoo_schema" ∷ "inspect_views" ∷ "inspect_access" ∷ "inspect_access_rules"
    ∷ "inspect_computed_fields" ∷ "inspect_master_data" ∷ "list_directory" ∷ "read_file"
    ∷ "inspect_url" ∷ "browser_snapshot" ∷ "check_deployment_status" ∷ "save_memory"
    ∷ "search_memory" ∷ "save_user_preference" ∷ "save_verified_fact" ∷ "run_project_check"
    ∷ "inspect_module_dependency" ∷ "inspect_module_deps" ∷ "discover_module_structure"
    ∷ "discover_security_matrix" ∷ "discover_business_flow" ∷ "discover_source_symbols"
    ∷ "generate_change_plan" ∷ "estimate_migration_impact" ∷ "pri_erp_health"
    ∷ "pri_erp_list_instances" ∷ "pri_erp_get_instance" ∷ "pri_erp_list_addons"
    ∷ "pri_erp_list_files" ∷ "pri_erp_read_file" ∷ "pri_erp_list_backups" ∷ []

-- `_ALWAYS_REQUIRE_APPROVAL`
abbrev pub always_require_approval : List String
always_require_approval =
    "update_company_contact" ∷ "configure_inventory" ∷ "create_draft_invoice" ∷ "execute_deployment"
    ∷ "install_module_dependency" ∷ "install_module_safe" ∷ "terminal_command"
    ∷ "pri_erp_exec_terminal" ∷ "pri_erp_install_module" ∷ "pri_erp_backup" ∷ "pri_erp_restore"
    ∷ "revert_changes" ∷ []

abbrev pub orm_tools : List String
orm_tools =
    "inspect_odoo_schema" ∷ "inspect_views" ∷ "inspect_access" ∷ "inspect_access_rules"
    ∷ "create_partner" ∷ "create_product" ∷ "create_quotation" ∷ "create_rfq" ∷ "create_crm_lead"
    ∷ "create_draft_invoice" ∷ "configure_sales" ∷ "configure_purchase" ∷ "configure_inventory"
    ∷ "update_company_contact" ∷ []

-- `Instance.capabilities`; an empty dict counts as none given.
pub record Capabilities : Type 0 where
  pub erp_type : Option String

-- `capabilities.get("erp_type", "odoo")`
erp_type_of : Capabilities → String
erp_type_of c = elim c.erp_type [ none ↦ "odoo" | some t ↦ t ]

unfoldable pub check_erp_capability : String → Capabilities → Bool
unfolding erp_type_of
check_erp_capability tool_name capabilities =
    if erp_type_of capabilities == "pri_erp"
    then (if elem tool_name orm_tools then false else true)
    else true

plain : Bool → Text → Bool → PermissionDecision
plain allowed reason requires_approval = record {
  allowed = allowed;
  reason = reason;
  requires_approval = requires_approval;
  cached = false;
  grant_id = none;
}

-- Layer 1; `none` goes on to the next layer.
unfoldable pub workspace_layer : List Grant → String → Text → Option PermissionDecision
unfolding plain
workspace_layer active tool_name resource =
    if starts_with workspace_prefix resource
    then elim (evaluate_grants (matching resource active) resource) [
      | some result ↦ some result
      | none ↦
          if elem tool_name path_tools
          then some (plain false (codes "no_workspace_grant") true)
          else none
    ]
    else none

-- Layer 2
unfoldable pub command_layer : List Grant → Text → Option PermissionDecision
command_layer active resource =
    if starts_with command_prefix resource
    then evaluate_grants (matching resource active) resource
    else none

-- Layer 3: an allowing grant goes on.
unfoldable pub erp_layer : List Grant → String → Option PermissionDecision
erp_layer active tool_name =
    elim (evaluate_grants (matching (erp_resource tool_name) active) (erp_resource tool_name)) [
      | none ↦ none
      | some result ↦ if result.allowed then none else some result
    ]

capability_ok : String → Option Capabilities → Bool
unfolding check_erp_capability
capability_ok tool_name none = true
capability_ok tool_name (some c) = check_erp_capability tool_name c

-- Layer 4, the set of tools that always need approval, and the default
unfoldable pub last_layers : String → Option Capabilities → PermissionDecision
unfolding plain capability_ok
last_layers tool_name erp_capabilities =
    if capability_ok tool_name erp_capabilities
    then (if elem tool_name always_require_approval
        then plain false (codes "requires_human_approval") true
        else plain true (codes "default_allow") false)
    else plain false (codes "erp_capability_missing:" ++ codes tool_name) false

unfoldable pub check_grants :
    ℕ → List Grant → ℕ → ℕ → String → Text → Option Capabilities → PermissionDecision
check_grants now db project_id user_id tool_name resource erp_capabilities =
    let active = active_grants now project_id user_id db in
    elim (workspace_layer active tool_name resource) [
      | some result ↦ result
      | none ↦ elim (command_layer active resource) [
        | some result ↦ result
        | none ↦ elim (erp_layer active tool_name) [
          | some result ↦ result
          | none ↦ last_layers tool_name erp_capabilities
        ]
      ]
    ]

by_human : Bool → Text → PermissionDecision → PermissionDecision
by_human allowed reason decision = record {
  allowed = allowed;
  reason = reason;
  requires_approval = false;
  cached = false;
  grant_id = decision.grant_id;
}

-- Layer 5
unfoldable pub approval_layer : ApprovalState → PermissionDecision → PermissionDecision
unfolding by_human
approval_layer undecided decision = decision
approval_layer approved decision =
    if decision.requires_approval
    then by_human true (codes "approved_by_human") decision
    else decision
approval_layer rejected decision =
    if decision.requires_approval
    then by_human false (codes "rejected_by_human") decision
    else decision

-- what a caller of `check` hands over
pub record Call : Type 0 where
  pub project_id : ℕ
  pub user_id : ℕ
  pub tool_name : String
  pub args : Arguments
  pub erp_capabilities : Option Capabilities
  pub approval_state : ApprovalState

-- what one call of `check` reads of the clocks
pub record Clock : Type 0 where
  pub now : ℕ
  pub lookup_time : ℕ
  pub store_time : ℕ

unfoldable pub key_of : Call → Key
key_of call = record {
  project_id = call.project_id;
  user_id = call.user_id;
  resource = resource_for call.tool_name call.args;
  approval_state = call.approval_state;
}

-- layers 1 to 5, with no cache
unfoldable pub decide : ℕ → List Grant → Call → PermissionDecision
decide now db call = approval_layer call.approval_state (
    check_grants now db call.project_id call.user_id call.tool_name
      (resource_for call.tool_name call.args) call.erp_capabilities)

pub store_decision : ℕ → Key → PermissionDecision → Cache → Cache
store_decision time key decision store =
    if decision.requires_approval then store else Cache.set time key decision store

unfoldable pub check : Clock → List Grant → Call → Cache → PermissionDecision × Cache
unfolding plain store_decision
check clock db call store =
    if elem call.tool_name always_allowed
    then (plain true (codes "safe_tool") false, store)
    else (let (hit, store') = Cache.get clock.lookup_time (key_of call) store in
        elim hit [
          | some decision ↦ (decision, store')
          | none ↦
              let decision = decide clock.now db call in
              (decision, store_decision clock.store_time (key_of call) decision store')
        ])
