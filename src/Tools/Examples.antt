-- ===== src/Tools/Examples.antt =====
-- The registry's theorems at tools of it.
use pi_development_agent.Base.{
  elem-In, [], ◌∷◌, true, false, string_Eq, elem, some, lookup, In, length, ◌≡◌, refl,
}
use pi_development_agent.Tools.Entry.{ToolRegistryEntry}
use pi_development_agent.Tools.Registry.{
  tool_registry, err, unknown, validate_tool_call, safe_tools_for_erp,
}

abbrev restore_entry : ToolRegistryEntry
restore_entry = record {
  name = "pri_erp_restore";
  description = "Restore a backup on the Pri ERP platform (class-3).";
  erp_compat = "pri_erp" ∷ [];
  risk_class = 3;
  is_write = true;
  requires_approval = true;
  supports_rollback = false;
  is_idempotent = false;
  evidence_kinds = [];
  required_permissions = [];
}

restore_registered : lookup "pri_erp_restore" tool_registry ≡ some restore_entry
unfolding tool_registry lookup
restore_registered = refl

tool_count : length tool_registry ≡ 67
unfolding tool_registry
tool_count = refl

unknown_tool :
    validate_tool_call tool_registry "terminal_command" "odoo" ≡ err (unknown "terminal_command")
unfolding tool_registry lookup validate_tool_call
unknown_tool = refl

health_is_safe : In "pri_erp_health" (safe_tools_for_erp tool_registry "pri_erp")
unfolding safe_tools_for_erp tool_registry elem
health_is_safe = elem-In "pri_erp_health" (safe_tools_for_erp tool_registry "pri_erp") refl
