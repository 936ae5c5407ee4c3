-- ===== src/Tools/Hosting.antt =====
-- The part of `TOOL_REGISTRY` of backend/tool_registry.py for the Pri ERP platform.
use pi_development_agent.Base.{true, false, List, [], ◌∷◌}
use pi_development_agent.Tools.Entry.{ToolRegistryEntry, pri_erp}

abbrev pub pri_erp_tools : List ToolRegistryEntry
pri_erp_tools =
    record {
      name = "pri_erp_health";
      description = "Health check the Pri ERP platform.";
      erp_compat = pri_erp;
      risk_class = 1;
      is_write = false;
      requires_approval = false;
      supports_rollback = false;
      is_idempotent = true;
      evidence_kinds = "health_check" ∷ [];
      required_permissions = [];
    }
    ∷ record {
      name = "pri_erp_list_instances";
      description = "List managed Odoo instances on the Pri ERP platform.";
      erp_compat = pri_erp;
      risk_class = 1;
      is_write = false;
      requires_approval = false;
      supports_rollback = false;
      is_idempotent = true;
      evidence_kinds = "instance_list" ∷ [];
      required_permissions = [];
    }
    ∷ record {
      name = "pri_erp_get_instance";
      description = "Get details of a specific Odoo instance on Pri ERP.";
      erp_compat = pri_erp;
      risk_class = 1;
      is_write = false;
      requires_approval = false;
      supports_rollback = false;
      is_idempotent = true;
      evidence_kinds = "instance_detail" ∷ [];
      required_permissions = [];
    }
    ∷ record {
      name = "pri_erp_list_addons";
      description = "List installed addons on a Pri ERP-managed Odoo instance.";
      erp_compat = pri_erp;
      risk_class = 1;
      is_write = false;
      requires_approval = false;
      supports_rollback = false;
      is_idempotent = true;
      evidence_kinds = "module_list" ∷ [];
      required_permissions = [];
    }
    ∷ record {
      name = "pri_erp_list_files";
      description = "Browse the file tree of a Pri ERP-managed instance.";
      erp_compat = pri_erp;
      risk_class = 1;
      is_write = false;
      requires_approval = false;
      supports_rollback = false;
      is_idempotent = true;
      evidence_kinds = [];
      required_permissions = [];
    }
    ∷ record {
      name = "pri_erp_read_file";
      description = "Read a file from a Pri ERP-managed instance.";
      erp_compat = pri_erp;
      risk_class = 1;
      is_write = false;
      requires_approval = false;
      supports_rollback = false;
      is_idempotent = true;
      evidence_kinds = [];
      required_permissions = [];
    }
    ∷ record {
      name = "pri_erp_list_backups";
      description = "List available backups for a Pri ERP-managed instance.";
      erp_compat = pri_erp;
      risk_class = 1;
      is_write = false;
      requires_approval = false;
      supports_rollback = false;
      is_idempotent = true;
      evidence_kinds = "backup_list" ∷ [];
      required_permissions = [];
    }
    ∷ record {
      name = "pri_erp_backup";
      description = "Trigger a backup on the Pri ERP platform (class-3).";
      erp_compat = pri_erp;
      risk_class = 3;
      is_write = true;
      requires_approval = true;
      supports_rollback = false;
      is_idempotent = false;
      evidence_kinds = "backup_id" ∷ [];
      required_permissions = [];
    }
    ∷ record {
      name = "pri_erp_restore";
      description = "Restore a backup on the Pri ERP platform (class-3).";
      erp_compat = pri_erp;
      risk_class = 3;
      is_write = true;
      requires_approval = true;
      supports_rollback = false;
      is_idempotent = false;
      evidence_kinds = [];
      required_permissions = [];
    }
    ∷ record {
      name = "pri_erp_install_module";
      description = "Install a module on a Pri ERP-managed instance (class-3).";
      erp_compat = pri_erp;
      risk_class = 3;
      is_write = true;
      requires_approval = true;
      supports_rollback = false;
      is_idempotent = false;
      evidence_kinds = "module_state" ∷ [];
      required_permissions = [];
    }
    ∷ record {
      name = "pri_erp_exec_terminal";
      description = "Execute a command in a Pri ERP instance terminal (class-3).";
      erp_compat = pri_erp;
      risk_class = 3;
      is_write = true;
      requires_approval = true;
      supports_rollback = false;
      is_idempotent = false;
      evidence_kinds = "terminal_output" ∷ [];
      required_permissions = [];
    }
    ∷ []
