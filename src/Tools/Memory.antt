-- ===== src/Tools/Memory.antt =====
-- The part of `TOOL_REGISTRY` of backend/tool_registry.py for deployment, memory and page inspection.
use pi_development_agent.Base.{true, false, List, [], ◌∷◌}
use pi_development_agent.Tools.Entry.{ToolRegistryEntry, all_engines, odoo}

abbrev pub deployment_and_memory : List ToolRegistryEntry
deployment_and_memory =
    record {
      name = "package_module";
      description = "Package a module into a deployable ZIP artifact.";
      erp_compat = odoo;
      risk_class = 2;
      is_write = true;
      requires_approval = true;
      supports_rollback = true;
      is_idempotent = true;
      evidence_kinds = "artifact_digest" ∷ [];
      required_permissions = [];
    }
    ∷ record {
      name = "execute_deployment";
      description = "Deploy an artifact to staging/production (class-3).";
      erp_compat = odoo;
      risk_class = 3;
      is_write = true;
      requires_approval = true;
      supports_rollback = true;
      is_idempotent = false;
      evidence_kinds = "deployment_event" ∷ "artifact_digest" ∷ [];
      required_permissions = [];
    }
    ∷ record {
      name = "check_deployment_status";
      description = "Check the status of an in-progress deployment.";
      erp_compat = all_engines;
      risk_class = 1;
      is_write = false;
      requires_approval = false;
      supports_rollback = false;
      is_idempotent = true;
      evidence_kinds = [];
      required_permissions = [];
    }
    ∷ record {
      name = "save_memory";
      description = "Save a learned insight into long-term memory.";
      erp_compat = all_engines;
      risk_class = 1;
      is_write = false;
      requires_approval = false;
      supports_rollback = false;
      is_idempotent = true;
      evidence_kinds = [];
      required_permissions = [];
    }
    ∷ record {
      name = "search_memory";
      description = "Search long-term memory.";
      erp_compat = all_engines;
      risk_class = 1;
      is_write = false;
      requires_approval = false;
      supports_rollback = false;
      is_idempotent = true;
      evidence_kinds = [];
      required_permissions = [];
    }
    ∷ record {
      name = "save_user_preference";
      description = "Save a user preference into persistent memory.";
      erp_compat = all_engines;
      risk_class = 1;
      is_write = false;
      requires_approval = false;
      supports_rollback = false;
      is_idempotent = true;
      evidence_kinds = [];
      required_permissions = [];
    }
    ∷ record {
      name = "save_verified_fact";
      description = "Save an evidence-backed schema truth into verified memory.";
      erp_compat = all_engines;
      risk_class = 1;
      is_write = false;
      requires_approval = false;
      supports_rollback = false;
      is_idempotent = true;
      evidence_kinds = [];
      required_permissions = [];
    }
    ∷ record {
      name = "inspect_url";
      description = "Inspect a page on the connected ERP host.";
      erp_compat = all_engines;
      risk_class = 1;
      is_write = false;
      requires_approval = false;
      supports_rollback = false;
      is_idempotent = true;
      evidence_kinds = [];
      required_permissions = [];
    }
    ∷ record {
      name = "browser_snapshot";
      description = "Open a connected ERP page in a headless browser.";
      erp_compat = all_engines;
      risk_class = 1;
      is_write = false;
      requires_approval = false;
      supports_rollback = false;
      is_idempotent = true;
      evidence_kinds = [];
      required_permissions = [];
    }
    ∷ []
