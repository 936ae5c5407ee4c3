-- ===== src/Tools/Inspection.antt =====
-- The part of `TOOL_REGISTRY` of backend/tool_registry.py for the read-only inspection of an Odoo instance.
use pi_development_agent.Base.{true, false, List, [], ◌∷◌}
use pi_development_agent.Tools.Entry.{ToolRegistryEntry, odoo}

abbrev pub odoo_inspection : List ToolRegistryEntry
odoo_inspection =
    record {
      name = "inspect_instance";
      description = "Return the connected Odoo version info.";
      erp_compat = odoo;
      risk_class = 1;
      is_write = false;
      requires_approval = false;
      supports_rollback = false;
      is_idempotent = true;
      evidence_kinds = "version_info" ∷ [];
      required_permissions = [];
    }
    ∷ record {
      name = "installed_modules";
      description = "List installed Odoo modules.";
      erp_compat = odoo;
      risk_class = 1;
      is_write = false;
      requires_approval = false;
      supports_rollback = false;
      is_idempotent = true;
      evidence_kinds = "module_list" ∷ [];
      required_permissions = [];
    }
    ∷ record {
      name = "inspect_company";
      description = "Read the main company's public contact details.";
      erp_compat = odoo;
      risk_class = 1;
      is_write = false;
      requires_approval = false;
      supports_rollback = false;
      is_idempotent = true;
      evidence_kinds = [];
      required_permissions = [];
    }
    ∷ record {
      name = "inspect_users";
      description = "Read a limited list of Odoo users.";
      erp_compat = odoo;
      risk_class = 1;
      is_write = false;
      requires_approval = false;
      supports_rollback = false;
      is_idempotent = true;
      evidence_kinds = [];
      required_permissions = [];
    }
    ∷ record {
      name = "inspect_odoo_schema";
      description = "Inspect field names and types for Odoo models.";
      erp_compat = odoo;
      risk_class = 1;
      is_write = false;
      requires_approval = false;
      supports_rollback = false;
      is_idempotent = true;
      evidence_kinds = "schema_info" ∷ [];
      required_permissions = [];
    }
    ∷ record {
      name = "inspect_views";
      description = "Read standard Odoo 19 views for a model.";
      erp_compat = odoo;
      risk_class = 1;
      is_write = false;
      requires_approval = false;
      supports_rollback = false;
      is_idempotent = true;
      evidence_kinds = "view_arch" ∷ [];
      required_permissions = [];
    }
    ∷ record {
      name = "inspect_access";
      description = "Inspect access-control and record-rule metadata for a model.";
      erp_compat = odoo;
      risk_class = 1;
      is_write = false;
      requires_approval = false;
      supports_rollback = false;
      is_idempotent = true;
      evidence_kinds = "acl_info" ∷ [];
      required_permissions = [];
    }
    ∷ record {
      name = "inspect_access_rules";
      description = "Detailed ACL + record rules for a model.";
      erp_compat = odoo;
      risk_class = 1;
      is_write = false;
      requires_approval = false;
      supports_rollback = false;
      is_idempotent = true;
      evidence_kinds = "acl_info" ∷ "record_rules" ∷ [];
      required_permissions = [];
    }
    ∷ record {
      name = "inspect_computed_fields";
      description = "Inspect computed, related, and selection fields for a model.";
      erp_compat = odoo;
      risk_class = 1;
      is_write = false;
      requires_approval = false;
      supports_rollback = false;
      is_idempotent = true;
      evidence_kinds = "schema_info" ∷ [];
      required_permissions = [];
    }
    ∷ record {
      name = "inspect_module_dependency";
      description = "Inspect an Odoo module and its expected models.";
      erp_compat = odoo;
      risk_class = 1;
      is_write = false;
      requires_approval = false;
      supports_rollback = false;
      is_idempotent = true;
      evidence_kinds = "module_dep" ∷ [];
      required_permissions = [];
    }
    ∷ record {
      name = "inspect_module_deps";
      description = "Return the dependency graph for a module.";
      erp_compat = odoo;
      risk_class = 1;
      is_write = false;
      requires_approval = false;
      supports_rollback = false;
      is_idempotent = true;
      evidence_kinds = "dep_graph" ∷ [];
      required_permissions = [];
    }
    ∷ record {
      name = "inspect_master_data";
      description = "Search an allowlisted master-data type.";
      erp_compat = odoo;
      risk_class = 1;
      is_write = false;
      requires_approval = false;
      supports_rollback = false;
      is_idempotent = true;
      evidence_kinds = [];
      required_permissions = [];
    }
    ∷ []
