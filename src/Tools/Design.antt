-- ===== src/Tools/Design.antt =====
-- The part of `TOOL_REGISTRY` of backend/tool_registry.py for discovery and design.
use pi_development_agent.Base.{true, false, List, [], ◌∷◌}
use pi_development_agent.Tools.Entry.{ToolRegistryEntry, odoo}

abbrev pub odoo_design : List ToolRegistryEntry
odoo_design =
    record {
      name = "discover_module_structure";
      description = "List files, deps, and inherited views for a module.";
      erp_compat = odoo;
      risk_class = 1;
      is_write = false;
      requires_approval = false;
      supports_rollback = false;
      is_idempotent = true;
      evidence_kinds = "source_structure" ∷ [];
      required_permissions = [];
    }
    ∷ record {
      name = "discover_security_matrix";
      description = "Full security matrix: ACL + record rules + groups for a model.";
      erp_compat = odoo;
      risk_class = 1;
      is_write = false;
      requires_approval = false;
      supports_rollback = false;
      is_idempotent = true;
      evidence_kinds = "security_matrix" ∷ [];
      required_permissions = [];
    }
    ∷ record {
      name = "discover_business_flow";
      description = "State machine fields, server actions, and workflows for a model.";
      erp_compat = odoo;
      risk_class = 1;
      is_write = false;
      requires_approval = false;
      supports_rollback = false;
      is_idempotent = true;
      evidence_kinds = "business_flow" ∷ [];
      required_permissions = [];
    }
    ∷ record {
      name = "discover_source_symbols";
      description = "Semantic search of the source index.";
      erp_compat = odoo;
      risk_class = 1;
      is_write = false;
      requires_approval = false;
      supports_rollback = false;
      is_idempotent = true;
      evidence_kinds = "source_symbol" ∷ [];
      required_permissions = [];
    }
    ∷ record {
      name = "generate_change_plan";
      description = "Impact-aware implementation plan with file list.";
      erp_compat = odoo;
      risk_class = 1;
      is_write = false;
      requires_approval = false;
      supports_rollback = false;
      is_idempotent = true;
      evidence_kinds = "change_plan" ∷ [];
      required_permissions = [];
    }
    ∷ record {
      name = "estimate_migration_impact";
      description = "Fields/views affected by a module upgrade.";
      erp_compat = odoo;
      risk_class = 1;
      is_write = false;
      requires_approval = false;
      supports_rollback = false;
      is_idempotent = true;
      evidence_kinds = "migration_impact" ∷ [];
      required_permissions = [];
    }
    ∷ []
