-- ===== src/Tools/Writes.antt =====
-- The part of `TOOL_REGISTRY` of backend/tool_registry.py for writes to an Odoo instance and its modules.
use pi_development_agent.Base.{true, false, List, [], ◌∷◌}
use pi_development_agent.Tools.Entry.{ToolRegistryEntry, odoo}

abbrev pub odoo_writes : List ToolRegistryEntry
odoo_writes =
    record {
      name = "update_company_contact";
      description = "Update company email/phone (class-3, requires approval).";
      erp_compat = odoo;
      risk_class = 3;
      is_write = true;
      requires_approval = true;
      supports_rollback = false;
      is_idempotent = false;
      evidence_kinds = [];
      required_permissions = [];
    }
    ∷ record {
      name = "configure_sales";
      description = "Configure Odoo Sales settings.";
      erp_compat = odoo;
      risk_class = 2;
      is_write = true;
      requires_approval = true;
      supports_rollback = true;
      is_idempotent = false;
      evidence_kinds = [];
      required_permissions = [];
    }
    ∷ record {
      name = "configure_purchase";
      description = "Configure Odoo Purchase settings.";
      erp_compat = odoo;
      risk_class = 2;
      is_write = true;
      requires_approval = true;
      supports_rollback = true;
      is_idempotent = false;
      evidence_kinds = [];
      required_permissions = [];
    }
    ∷ record {
      name = "configure_inventory";
      description = "Configure Odoo Inventory settings (class-3).";
      erp_compat = odoo;
      risk_class = 3;
      is_write = true;
      requires_approval = true;
      supports_rollback = false;
      is_idempotent = false;
      evidence_kinds = [];
      required_permissions = [];
    }
    ∷ record {
      name = "create_partner";
      description = "Create a res.partner record.";
      erp_compat = odoo;
      risk_class = 2;
      is_write = true;
      requires_approval = true;
      supports_rollback = true;
      is_idempotent = false;
      evidence_kinds = [];
      required_permissions = [];
    }
    ∷ record {
      name = "create_product";
      description = "Create a product.template record.";
      erp_compat = odoo;
      risk_class = 2;
      is_write = true;
      requires_approval = true;
      supports_rollback = true;
      is_idempotent = false;
      evidence_kinds = [];
      required_permissions = [];
    }
    ∷ record {
      name = "create_quotation";
      description = "Create a sale.order record.";
      erp_compat = odoo;
      risk_class = 2;
      is_write = true;
      requires_approval = true;
      supports_rollback = true;
      is_idempotent = false;
      evidence_kinds = [];
      required_permissions = [];
    }
    ∷ record {
      name = "create_rfq";
      description = "Create a purchase.order record.";
      erp_compat = odoo;
      risk_class = 2;
      is_write = true;
      requires_approval = true;
      supports_rollback = true;
      is_idempotent = false;
      evidence_kinds = [];
      required_permissions = [];
    }
    ∷ record {
      name = "create_crm_lead";
      description = "Create a crm.lead record.";
      erp_compat = odoo;
      risk_class = 2;
      is_write = true;
      requires_approval = true;
      supports_rollback = true;
      is_idempotent = false;
      evidence_kinds = [];
      required_permissions = [];
    }
    ∷ record {
      name = "create_draft_invoice";
      description = "Create an account.move invoice (class-3).";
      erp_compat = odoo;
      risk_class = 3;
      is_write = true;
      requires_approval = true;
      supports_rollback = false;
      is_idempotent = false;
      evidence_kinds = [];
      required_permissions = [];
    }
    ∷ record {
      name = "install_module_safe";
      description = "Install an Odoo module with pre-check (class-3).";
      erp_compat = odoo;
      risk_class = 3;
      is_write = true;
      requires_approval = true;
      supports_rollback = false;
      is_idempotent = false;
      evidence_kinds = "module_state" ∷ [];
      required_permissions = [];
    }
    ∷ record {
      name = "upgrade_module_safe";
      description = "Upgrade an Odoo module with migration check (class-3).";
      erp_compat = odoo;
      risk_class = 3;
      is_write = true;
      requires_approval = true;
      supports_rollback = false;
      is_idempotent = false;
      evidence_kinds = "module_state" ∷ [];
      required_permissions = [];
    }
    ∷ record {
      name = "install_module_dependency";
      description = "Install a required module (class-3).";
      erp_compat = odoo;
      risk_class = 3;
      is_write = true;
      requires_approval = true;
      supports_rollback = false;
      is_idempotent = false;
      evidence_kinds = "module_state" ∷ [];
      required_permissions = [];
    }
    ∷ []
