-- ===== src/Tools/Checks.antt =====
-- The part of `TOOL_REGISTRY` of backend/tool_registry.py for validation.
use pi_development_agent.Base.{true, false, List, [], ◌∷◌}
use pi_development_agent.Tools.Entry.{ToolRegistryEntry, all_engines, odoo}

abbrev pub odoo_validation : List ToolRegistryEntry
odoo_validation =
    record {
      name = "run_project_check";
      description = "Run a fixed read-only project check (pytest, lint, etc.).";
      erp_compat = all_engines;
      risk_class = 1;
      is_write = false;
      requires_approval = false;
      supports_rollback = false;
      is_idempotent = true;
      evidence_kinds = "check_result" ∷ [];
      required_permissions = "command:{check}" ∷ [];
    }
    ∷ record {
      name = "run_syntax_checks";
      description = "Python AST + XML + manifest validation.";
      erp_compat = odoo;
      risk_class = 1;
      is_write = false;
      requires_approval = false;
      supports_rollback = false;
      is_idempotent = true;
      evidence_kinds = "check_result" ∷ [];
      required_permissions = [];
    }
    ∷ record {
      name = "run_view_render_check";
      description = "Verify view arch renders after module install.";
      erp_compat = odoo;
      risk_class = 2;
      is_write = true;
      requires_approval = true;
      supports_rollback = true;
      is_idempotent = true;
      evidence_kinds = "check_result" ∷ "view_arch" ∷ [];
      required_permissions = [];
    }
    ∷ record {
      name = "run_acl_test";
      description = "Verify access matrix for a model+group.";
      erp_compat = odoo;
      risk_class = 2;
      is_write = true;
      requires_approval = true;
      supports_rollback = true;
      is_idempotent = true;
      evidence_kinds = "check_result" ∷ "acl_info" ∷ [];
      required_permissions = [];
    }
    ∷ record {
      name = "run_business_scenario";
      description = "Create/validate/cancel a business object in staging.";
      erp_compat = odoo;
      risk_class = 2;
      is_write = true;
      requires_approval = true;
      supports_rollback = true;
      is_idempotent = false;
      evidence_kinds = "check_result" ∷ "scenario_trace" ∷ [];
      required_permissions = [];
    }
    ∷ record {
      name = "run_migration_test";
      description = "Run pre_migrate + post_migrate scripts.";
      erp_compat = odoo;
      risk_class = 2;
      is_write = true;
      requires_approval = true;
      supports_rollback = true;
      is_idempotent = false;
      evidence_kinds = "check_result" ∷ [];
      required_permissions = [];
    }
    ∷ record {
      name = "verify_module_installation";
      description = "Verify a module is installed after deployment.";
      erp_compat = odoo;
      risk_class = 2;
      is_write = true;
      requires_approval = true;
      supports_rollback = true;
      is_idempotent = true;
      evidence_kinds = "check_result" ∷ "module_state" ∷ [];
      required_permissions = [];
    }
    ∷ []
